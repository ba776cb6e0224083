-- ===== src/Stream/Runner.antt =====
-- src/lib/reconnecting_stream.rs: what runs one connection after the other. `run_unconnected_stream` is
-- the wait between two connections of the client, and `run_client` the client's loop; a `Call` is one of
-- `run_stream`. `run_server` is in Runner/Tasks.
pub mod Waiting
pub mod Peer
pub mod Client
pub mod Kills
pub mod Tasks
mod Tests
use mobiletunnel.Prelude.{
  ℕ, List, [], ◌∷◌, ◌++◌, Option, none, some, Bool, true, false, not, ◌&&◌, ◌||◌, if◌then◌else◌,
}
use mobiletunnel.Stream.State.{StreamState, enqueue, is_full}
use mobiletunnel.Stream.Wire.Joins.{breaks}
use mobiletunnel.Stream.Session.{
  step, Session, Event, Phase, returned, awaiting_hello, looping, crashed, start, run_stream,
}

-- What the `select!` of the wait can pick; `none` is the closed channel of the application.
pub data WaitEvent : Type 0 where
  cancelled slept : WaitEvent
  app_waits : Option (List ℕ) → WaitEvent

-- A message of the application, or the end of its channel, which ends the wait.
pub on_waiting_app : StreamState → Option (List ℕ) → StreamState × Bool
on_waiting_app state none = (state, true)
on_waiting_app state (some payload) = (enqueue state payload, false)

-- One round of the wait, with whether it ends: with a full window the channel is not polled.
unfoldable pub wait_step : StreamState → WaitEvent → StreamState × Bool
unfolding on_waiting_app
wait_step state cancelled = (state, true)
wait_step state slept = (state, true)
wait_step state (app_waits payload) =
    if is_full state then (state, false) else on_waiting_app state payload

pub run_unconnected_stream : StreamState → List WaitEvent → StreamState
unfolding wait_step
run_unconnected_stream state [] = state
run_unconnected_stream state (e ∷ es) =
    let (state', ends) = wait_step state e in
    let rest = run_unconnected_stream state' es in if ends then state' else rest

abbrev pub is_looping : Phase → Bool
is_looping awaiting_hello = false
is_looping looping = true
is_looping returned = false
is_looping crashed = false

-- A call of `run_stream`: before its end; behind a `break`, where it waits for its two tasks; returned; or
-- panicked.
pub data Call : Type 0 where
  inside in_joins : Session → Call
  left : StreamState → Call
  panicked : Call

abbrev pub call_in : Session → Event → Session → Phase → Call
call_in s e s' awaiting_hello = inside s'
call_in s e s' looping = inside s'
call_in s e s' returned = if is_looping s.phase && breaks s e then in_joins s' else left s'.state
call_in s e s' crashed = panicked

-- One event of it, and its start.
unfoldable pub call_step : Session → Event → Call
unfolding breaks
call_step s e = call_in s e (step s e) (step s e).phase

unfoldable pub call : Bool → StreamState → Call
call wrote state = if wrote then inside (start true state) else left state

-- Whether one of the events takes the loop of `run_stream` to a `break`.
pub has_broken : Session → List Event → Bool
unfolding breaks
has_broken s [] = false
has_broken s (e ∷ es) =
    let rest = has_broken (step s e) es in if is_looping s.phase && breaks s e then true else rest

-- What one connection makes of the state, and whether `run_stream` has returned, which takes the end of
-- both joins behind a `break`; a panic ends the task.
abbrev pub served : Session → Bool → StreamState × Bool
served s is_through = elim s.phase [
  | returned ↦ (s.state, is_through)
  | awaiting_hello ↦ (s.state, false)
  | looping ↦ (s.state, false)
  | crashed ↦ (s.state, false)
]

-- A round of the client's loop: whether the token was cancelled, whether `connect` succeeds, whether the
-- hello is written, the events of the connection, whether both tasks end that a `break` waits for, and the
-- events of the wait behind it.
pub record ClientRound : Type 0 where
  pub is_cancelled : Bool
  pub connects : Bool
  pub wrote : Bool
  pub events : List Event
  pub joined : Bool
  pub waits : List WaitEvent

unfoldable pub connection : StreamState → ClientRound → StreamState × Bool
unfolding has_broken
connection state r =
    let s = start r.wrote state in
    if r.connects
    then served (run_stream s r.events) (not (has_broken s r.events) || r.joined)
    else (state, true)

-- The flag says whether the loop goes on: not behind a cancelled token, nor while `run_stream` has not returned.
unfoldable pub client_round : StreamState → ClientRound → StreamState × Bool
unfolding connection
client_round state r =
    if r.is_cancelled
    then (state, false)
    else let (state', went_on) = connection state r in
      if went_on then (run_unconnected_stream state' r.waits, true) else (state', false)

pub run_client : StreamState → List ClientRound → StreamState
unfolding client_round
run_client state [] = state
run_client state (r ∷ rs) =
    let (state', went_on) = client_round state r in
    let rest = run_client state' rs in if went_on then rest else state'

-- "drain the queue": of the socket that was received and those that wait behind it, the last one.
unfoldable pub newest {ℓ} : {A : Type ℓ} → Option A → List A → Option A
newest next_socket [] = next_socket
newest next_socket (s ∷ sockets) = newest (some s) sockets
