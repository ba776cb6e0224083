-- ===== src/Stream/Delivery.antt =====
-- Two endpoints of src/lib/reconnecting_stream.rs and the network between them. Each endpoint runs
-- `run_stream` on a connection or waits in `run_unconnected_stream`; connections are lost at any moment,
-- with whatever is still in flight.
pub mod Link
pub mod Lists
pub mod Sender
pub mod Greeting
pub mod Receiver
pub mod Steps
pub mod Moves
pub mod Guarantees
pub mod Progress
pub mod Reading
use Lists.{carry}
use mobiletunnel.Prelude.{
  ℕ, ◌≡◌, ◌≤◌, List, [], ◌∷◌, ◌++◌, Bool, true, false, Option, none, some, if◌then◌else◌,
}
use mobiletunnel.Stream.Codec.{HelloMessage, StreamCodecMessage, hello, data_msg, ack_msg}
use mobiletunnel.Stream.State.{StreamState, enqueue, is_full, make_hello}
use mobiletunnel.Stream.Session.{
  Session, Phase, awaiting_hello, looping, returned, crashed, Event, killed, app_rx, tcp_rx,
  writer_died, start, step,
}
use mobiletunnel.Stream.Session.Effects.{active, is_message, accepted}

-- An endpoint: its session (the last one, while it waits for a connection), what its reader task has
-- still to deliver, and all that its application ever handed over and the stream accepted.
pub record Node : Type 0 where
  pub session : Session
  pub inbox : List StreamCodecMessage
  pub queued : List (List ℕ)

-- The writer task has written all that it was handed.
abbrev pub flushed : Session → Session
flushed s = record s { written = [] }

-- What `run_stream` makes of an event.
abbrev pub acted : Node → Event → Session
acted n e = step (flushed n.session) e

abbrev pub after : Node → Event → List StreamCodecMessage → Node
after n e inbox = record {
  session = acted n e;
  inbox = inbox;
  queued = n.queued ++ accepted n.session e;
}

abbrev pub hear : Bool → Node → List StreamCodecMessage → Node
hear joined n out = record n { inbox = carry joined n.inbox out }

-- A new connection, with what its other end writes first.
abbrev pub begin : Node → List StreamCodecMessage → Node
begin n inbox = record n { session = start true n.session.state; inbox = inbox }

abbrev pub greeting : Node → List StreamCodecMessage
greeting n = hello (make_hello n.session.state) ∷ []

-- A step of the endpoint `a` beside `b`; the flag says whether both are on one connection.
--   acts: an event that is no message of the peer, in particular the loss of the connection;
--   reads: the next message in flight;
--   queues: a message of the application while there is no connection;
--   joins: both start on one connection, each with the other's hello under way;
--   dangles: `a` starts on a connection that nobody serves at the other end;
--   stale: `a` starts on a connection that `b` opened and gave up, with an old hello of `b` in it.
pub data Move (a b : Node) (j : Bool) : Node → Node → Bool → Type 0 where
  acts :
      (e : Event)
      → is_message e ≡ false
      → Move a b j (after a e a.inbox) (hear j b (acted a e).written) j
  reads :
      (m : StreamCodecMessage) (rest : List StreamCodecMessage)
      → a.inbox ≡ m ∷ rest
      → active a.session.phase ≡ true
      → Move a b j (after a (tcp_rx (some m)) rest) (hear j b (acted a (tcp_rx (some m))).written) j
  queues :
      (payload : List ℕ)
      → a.session.phase ≡ returned
      → is_full a.session.state ≡ false
      → Move a b j
          (record a {
            session = record (a.session) { state = enqueue a.session.state payload };
            queued = a.queued ++ (payload ∷ []);
          })
          b
          j
  joins :
      a.session.phase ≡ returned
      → b.session.phase ≡ returned
      → Move a b j (begin a (greeting b)) (begin b (greeting a)) true
  dangles : a.session.phase ≡ returned → Move a b j (begin a []) b false
  stale :
      (hm : HelloMessage)
      → a.session.phase ≡ returned
      → hm.sender_id ≡ b.session.state.id
      → hm.sender_last_rx ≤ b.session.state.received_seq
      → Move a b j (begin a (hello hm ∷ [])) b false

pub record World : Type 0 where
  pub left : Node
  pub right : Node
  pub joined : Bool

-- Either endpoint moves.
pub data Step (w w' : World) : Type 0 where
  left_moves : Move w.left w.right w.joined w'.left w'.right w'.joined → Step w w'
  right_moves : Move w.right w.left w.joined w'.right w'.left w'.joined → Step w w'

pub data Reach (w : World) : World → Type 0 where
  here : Reach w w
  next : {u v : World} → Reach w u → Step u v → Reach w v
