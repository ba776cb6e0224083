-- ===== src/Stream/Session.antt =====
-- src/lib/reconnecting_stream.rs: `run_stream`, the life of one tcp connection, as a step function over
-- the events that its `select!` can pick. The wait between connections is in Stream/Runner.antt. The
-- reader task delivers what the codec decodes, in order, as `tcp_rx` events; the writer task writes what
-- `written` lists, in order.
pub mod Effects
pub mod Resend
pub mod Cases
pub mod Ranges
use mobiletunnel.Prelude.{
  ℕ, List, [], ◌∷◌, ◌++◌, Bool, true, false, not, Option, none, some, ◌==◌, if◌then◌else◌, ok, err,
  panic,
}
use mobiletunnel.Stream.Codec.{HelloMessage, StreamCodecMessage, hello, data_msg, ack_msg, encode}
use mobiletunnel.Stream.State.{StreamState, enqueue, received_one_message, ack, make_hello, is_full}

-- Where `run_stream` stands: in the first `select!`, in the loop, or it has returned. `crashed` is the
-- panic of `encode`.
pub data Phase : Type 0 where
  awaiting_hello looping returned crashed : Phase

-- `written` is what was handed to the writer task; `writer_open` says whether that task still runs.
pub record Session : Type 0 where
  pub state : StreamState
  pub phase : Phase
  pub written : List StreamCodecMessage
  pub writer_open : Bool

-- What a `select!` can pick, and the end of the writer task on a failed write. `none` stands for the
-- closed application channel, and for the end of the tcp session.
pub data Event : Type 0 where
  killed : Event
  app_rx : Option (List ℕ) → Event
  tcp_rx : Option StreamCodecMessage → Event
  writer_died : Event

unfoldable pub leave : Session → Session
leave s = record s { phase = returned }

-- The hello goes out before anything else; `false` is a failed write.
unfoldable pub start : Bool → StreamState → Session
start wrote state =
    if wrote
    then record {
      state = state;
      phase = awaiting_hello;
      written = hello (make_hello state) ∷ [];
      writer_open = true;
    }
    else record { state = state; phase = returned; written = []; writer_open = false }

pub data Sent : Type 0 where
  sent refused panicked : Sent

-- `writer_tx.send(Some(message.encode()))`.
unfoldable pub write : Session → StreamCodecMessage → Session × Sent
write s message = elim (encode message) [
  | none ↦ (record s { phase = crashed }, panicked)
  | some bytes ↦
      if s.writer_open
      then (record s { written = s.written ++ (message ∷ []) }, sent)
      else (s, refused)
]

-- "send anything we have in the queue", then the loop.
unfoldable pub resend : Session → List (List ℕ) → Session
unfolding write leave
resend s [] = record s { phase = looping }
resend s (payload ∷ payloads) =
    let (s', result) = write s (data_msg payload) in
    elim result [ sent ↦ resend s' payloads | refused ↦ leave s' | panicked ↦ s' ]

-- A peer whose id is not the known one is refused.
unfoldable pub is_stranger : Option ℕ → ℕ → Bool
is_stranger none sender_id = false
is_stranger (some other_id) sender_id = not (other_id == sender_id)

-- The hello of the peer.
unfoldable pub on_hello : Session → HelloMessage → Session
unfolding is_stranger leave
on_hello s hm =
    if is_stranger s.state.remote_id hm.sender_id
    then leave s
    else let known = record (s.state) { remote_id = some hm.sender_id } in
      elim (ack known hm.sender_last_rx) [
        | ok state ↦ resend (record s { state = state }) state.sent_unacked
        | err e ↦ leave (record s { state = known })
        | panic ↦ leave (record s { state = known })
      ]

-- The first message.
unfoldable pub on_first : Session → Option StreamCodecMessage → Session
unfolding leave
on_first s (some (hello hm)) = on_hello s hm
on_first s (some (data_msg payload)) = leave s
on_first s (some (ack_msg seq)) = leave s
on_first s none = leave s

-- A message of the application, in the loop.
unfoldable pub on_app : Session → Option (List ℕ) → Session
unfolding leave
on_app s none = leave s
on_app s (some payload) =
    let (s', result) = write (record s { state = enqueue s.state payload }) (data_msg payload) in
    elim result [ sent ↦ s' | refused ↦ leave s' | panicked ↦ s' ]

-- A data message of the peer: to the application first, then the acknowledgement, whose failure to be
-- sent is only logged.
unfoldable pub on_data : Session → List ℕ → Session
unfolding leave
on_data s payload =
    if s.state.app_open
    then (let handed = record (s.state) { sender = s.state.sender ++ (payload ∷ []) } in
        let (state, seq) = received_one_message handed in
        (write (record s { state = state }) (ack_msg seq)).0)
    else leave s

unfoldable pub on_ack : Session → ℕ → Session
unfolding leave
on_ack s seq = elim (ack s.state seq) [
  | ok state ↦ record s { state = state }
  | err e ↦ leave s
  | panic ↦ leave s
]

-- What the tcp session yields, in the loop.
unfoldable pub on_tcp : Session → Option StreamCodecMessage → Session
unfolding leave
on_tcp s none = leave s
on_tcp s (some (hello hm)) = leave s
on_tcp s (some (ack_msg seq)) = on_ack s seq
on_tcp s (some (data_msg payload)) = on_data s payload

-- One event in the first `select!`: the application's channel is not polled there.
unfoldable pub step_waiting : Session → Event → Session
unfolding leave
step_waiting s killed = leave s
step_waiting s (app_rx payload) = s
step_waiting s (tcp_rx message) = on_first s message
step_waiting s writer_died = record s { writer_open = false }

-- One event in the loop: with a full window the application's channel is not polled.
unfoldable pub step_looping : Session → Event → Session
unfolding leave
step_looping s killed = leave s
step_looping s (app_rx payload) = if is_full s.state then s else on_app s payload
step_looping s (tcp_rx message) = on_tcp s message
step_looping s writer_died = record s { writer_open = false }

-- One event in a phase.
unfoldable pub step_in : Phase → Session → Event → Session
step_in awaiting_hello s e = step_waiting s e
step_in looping s e = step_looping s e
step_in returned s e = s
step_in crashed s e = s

unfoldable pub step : Session → Event → Session
unfolding step_in
step s e = step_in s.phase s e

-- `run_stream` over the events of one connection.
unfoldable pub run_stream : Session → List Event → Session
unfolding step
run_stream s [] = s
run_stream s (e ∷ es) = run_stream (step s e) es
