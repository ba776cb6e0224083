-- ===== src/Stream/Session/Effects.antt =====
-- src/lib/reconnecting_stream.rs: what one event of `run_stream` can do to a session.
use mobiletunnel.Prelude.{ℕ, ◌≡◌, ◌⊎◌, List, [], ◌∷◌, ◌++◌, map, Bool, true, false, none, some, ok}
use mobiletunnel.Stream.Codec.{HelloMessage, hello, data_msg, ack_msg}
use mobiletunnel.Stream.State.{StreamState, enqueue, received_one_message, ack, is_full}
use mobiletunnel.Stream.Session.{
  Phase, awaiting_hello, looping, returned, crashed, Session, Event, killed, app_rx, tcp_rx,
  writer_died, is_stranger,
}

-- Whether the session goes on.
abbrev pub active : Phase → Bool
active awaiting_hello = true
active looping = true
active returned = false
active crashed = false

-- Whether an event takes a message of the peer.
abbrev pub is_message : Event → Bool
is_message killed = false
is_message (app_rx m) = false
is_message (tcp_rx none) = false
is_message (tcp_rx (some m)) = true
is_message writer_died = false

-- The message that an event adds to the queue, if any.
abbrev pub accepted_in : Event → Phase → Bool → List (List ℕ)
accepted_in (app_rx (some payload)) looping false = payload ∷ []
accepted_in (app_rx (some payload)) _ _ = []
accepted_in (app_rx none) ph full = []
accepted_in killed ph full = []
accepted_in (tcp_rx m) ph full = []
accepted_in writer_died ph full = []

abbrev pub accepted : Session → Event → List (List ℕ)
accepted s e = accepted_in e s.phase (is_full s.state)

abbrev pub handed : StreamState → List ℕ → StreamState
handed state payload = record state { sender = state.sender ++ (payload ∷ []) }

abbrev pub known : StreamState → HelloMessage → StreamState
known state hm = record state { remote_id = some hm.sender_id }

-- From a session with nothing written yet, one event
--   stays: leaves all but the writer alone, which no message of the peer does;
--   ends: leaves the state alone, writes nothing, and the session is over;
--   took: queues a message of the application, and writes it or ends the session;
--   acked: drops acknowledged messages from the queue;
--   received: hands a message to the application, and writes at most its acknowledgement;
--   refused_hello: ends the session, and may have noted the peer's id;
--   greeted: takes the peer's count as an acknowledgement and writes the queue, from its front on.
pub data Effect (s s' : Session) : Event → Type 0 where
  stays :
      (e : Event)
      → is_message e ≡ false
      → accepted s e ≡ []
      → s'.state ≡ s.state
      → s'.written ≡ []
      → s'.phase ≡ s.phase
      → Effect s s' e
  ends :
      (e : Event)
      → accepted s e ≡ []
      → s'.state ≡ s.state
      → s'.written ≡ []
      → active s'.phase ≡ false
      → Effect s s' e
  took :
      (payload : List ℕ)
      → s.phase ≡ looping
      → is_full s.state ≡ false
      → s'.state ≡ enqueue s.state payload
      → ((s'.written ≡ data_msg payload ∷ []) × (s'.phase ≡ looping))
        ⊎ ((s'.written ≡ []) × (active s'.phase ≡ false))
      → Effect s s' (app_rx (some payload))
  acked :
      (seq : ℕ)
      → s.phase ≡ looping
      → ack s.state seq ≡ ok s'.state
      → s'.written ≡ []
      → s'.phase ≡ looping
      → Effect s s' (tcp_rx (some (ack_msg seq)))
  received :
      (payload : List ℕ)
      → s.phase ≡ looping
      → s'.state ≡ (received_one_message (handed s.state payload)).0
      → (s'.written ≡ ack_msg s'.state.received_seq ∷ []) ⊎ (s'.written ≡ [])
      → (s'.phase ≡ looping) ⊎ (active s'.phase ≡ false)
      → Effect s s' (tcp_rx (some (data_msg payload)))
  refused_hello :
      (hm : HelloMessage)
      → s.phase ≡ awaiting_hello
      → s'.state ≡ known s.state hm
      → s'.written ≡ []
      → active s'.phase ≡ false
      → Effect s s' (tcp_rx (some (hello hm)))
  greeted :
      (hm : HelloMessage) (resent rest : List (List ℕ))
      → s.phase ≡ awaiting_hello
      → is_stranger s.state.remote_id hm.sender_id ≡ false
      → ack (known s.state hm) hm.sender_last_rx ≡ ok s'.state
      → s'.state.sent_unacked ≡ resent ++ rest
      → s'.written ≡ map data_msg resent
      → ((s'.phase ≡ looping) × (rest ≡ [])) ⊎ (active s'.phase ≡ false)
      → Effect s s' (tcp_rx (some (hello hm)))
