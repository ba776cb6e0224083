-- ===== src/Multiplexer/Server/Settles.antt =====
-- src/lib/stream_multiplexer.rs: how `process_channel_rx` ends.
use mobiletunnel.Prelude.{
  ℕ, suc, ◌≡◌, refl, ◌⊎◌, inl, inr, List, [], ◌∷◌, ◌++◌, none, ok, err, panic, Outcome, Bool-cases,
  Option-cases,
}
use mobiletunnel.Framing as Framing
use mobiletunnel.Framing.{Ended, waits, spent}
use mobiletunnel.Framing.Chunks.{run-IsSettled}
use mobiletunnel.Multiplexer.Message.{
  ChannelMessage, connect, data_msg, disconnect, error_msg, pause, resume, MultiplexerError, parse,
  client_got_connect,
}
use mobiletunnel.Multiplexer.Message.Laws.{parse_message-IsFraming}
use mobiletunnel.Multiplexer.Flow.{
  OngoingStreamState, TrySend, Counted, counted, pause_sent, pause_failed,
}
use mobiletunnel.Multiplexer.Tracker.{Streams, get, Handled, answer_count, data_to, stream_data}
use mobiletunnel.Multiplexer.Server.{
  Side, server, client, on_connect, handle, ChannelMessageParser, waiting, failed,
  process_channel_rx,
}
use mobiletunnel.Multiplexer.Server.Delivery.{connect-ok}
use mobiletunnel.Multiplexer.Server.Handling.{data_none, data_some}
use mobiletunnel.Multiplexer.Server.Loop.{handle_all, and_then, process-refines}

-- A handler returns: a value or an error.
abbrev Returns : Outcome MultiplexerError (Unit {0}) → Type 0
Returns r = (r ≡ ok tt) ⊎ ((e : MultiplexerError) × (r ≡ err e))

answer_count-Returns : (id : ℕ) (s : Streams) (c : Counted) → Returns (answer_count id s c).result
answer_count-Returns id s counted = inl refl
answer_count-Returns id s pause_sent = inl refl
answer_count-Returns id s pause_failed = inr (_, refl)

data_to-Returns :
    (id : ℕ) (to_send : List ℕ) (answer : TrySend) (x : OngoingStreamState) (s : Streams)
    → Returns (data_to id to_send answer x s).result
unfolding data_to
data_to-Returns id to_send answer x s = elim (Bool-cases x.alive) [
  | inl p ↦ rw p (answer_count-Returns id _ _)
  | inr p ↦ rw p (inl refl)
]

data-Returns :
    (id : ℕ) (to_send : List ℕ) (answer : TrySend) (s : Streams)
    → Returns (stream_data id to_send answer s).result
data-Returns id to_send answer s = elim (Option-cases (get id s)) [
  | inl e ↦ rw (data_none id to_send answer s e) (inl refl)
  | inr (x, e) ↦ rw (data_some id to_send answer s x e) (data_to-Returns id to_send answer x s)
]

handle-Returns :
    (side : Side) (m : ChannelMessage) (answer : TrySend) (s : Streams)
    → Returns (handle side m answer s).result
handle-Returns server (connect id) answer s = inl (unfold handle in connect-ok id s)
handle-Returns client (connect id) answer s =
    inr (client_got_connect, unfold handle on_connect in refl)
handle-Returns side (data_msg id to_send) answer s =
    unfold handle in data-Returns id to_send answer s
handle-Returns side (disconnect id) answer s = inl (unfold handle in refl)
handle-Returns side (error_msg id message) answer s = inl (unfold handle in refl)
handle-Returns side (pause id) answer s = inl (unfold handle in refl)
handle-Returns side (resume id) answer s = inl (unfold handle in refl)

and_then-Returns :
    (s : Streams) (frames : List (List ℕ)) (result : Outcome MultiplexerError (Unit {0}))
    (aborted : List ℕ) (rest : Handled)
    → Returns result
    → Returns rest.result
    → Returns
        (and_then
          (record { streams = s; frames = frames; result = result; aborted = aborted })
          rest).result
and_then-Returns s frames (ok done) aborted rest h k = k
and_then-Returns s frames (err e) aborted rest h k = inr (e, refl)
and_then-Returns s frames panic aborted rest h k = h

handle_all-Returns :
    (side : Side) (answer : ℕ → TrySend) (n : ℕ) (ms : List ChannelMessage) (s : Streams)
    → Returns (handle_all side answer n ms s).result
unfolding handle_all
handle_all-Returns side answer n [] s = inl refl
handle_all-Returns side answer n (m ∷ ms) s =
    let r = handle side m (answer n) s in
    and_then-Returns r.streams r.frames r.result r.aborted _ (handle-Returns side m (answer n) s)
      (handle_all-Returns side answer (suc n) ms r.streams)

-- Whatever bytes arrive, `process_channel_rx` on either side returns: with a buffer in which `parse`
-- wants more bytes, or with an error. It does not panic, and its loop ends.
pub process_settles :
    (side : Side) (answer : ℕ → TrySend) (p : ChannelMessageParser) (bytes : List ℕ) (s : Streams)
    → let left = (process_channel_rx side answer p bytes s).left in
      ((rest : List ℕ) × (left ≡ waiting (record { buffer = rest })) × (parse rest ≡ ok none))
      ⊎ ((e : MultiplexerError) × (left ≡ failed e))
process_settles side answer p bytes s =
    let frames = Framing.run parse (p.buffer ++ bytes) in
    let all = handle_all side answer 0 frames.0 s in
    rw (process-refines side answer p bytes s) (elim (handle_all-Returns side answer 0 frames.0 s) [
      | inr (e, failing) ↦ inr (e, rw failing refl)
      | inl fine ↦ elim (run-IsSettled parse parse_message-IsFraming (p.buffer ++ bytes)) [
        | inl (rest, end, more) ↦ inl (rest, rw (fine, end) refl, more)
        | inr (e, end) ↦ inr (e, rw (fine, end) refl)
      ]
    ])
