-- ===== src/Stream/Runner/Tasks.antt =====
-- src/lib/reconnecting_stream.rs: the two tasks of `run_server`, with the channel of 32 sockets between
-- them. A socket is the number of the connection.
pub mod Sockets
use mobiletunnel.Prelude.{
  ℕ, List, [], ◌∷◌, ◌++◌, Option, none, some, Bool, true, false, ltb, if◌then◌else◌, length,
}
use mobiletunnel.Stream.State.{StreamState}
use mobiletunnel.Stream.Session.{Session, Event, killed}
use mobiletunnel.Stream.Runner.{Call, inside, in_joins, left, panicked, call, call_step, newest}

-- The room of the channel.
abbrev pub socket_room : ℕ
socket_room = 32

-- Where the runner stands: it waits for a socket; it is in a call of `run_stream`, or behind a `break` of it,
-- where that waits for its two tasks; or it has ended, and the channel with it.
pub data Place : Type 0 where
  waits gone : Place
  serving joins : Session → Place

-- What the tasks meet: the cancelled token and what `accept` says, in the listener's `select!`; room for
-- the socket that the listener sends, or the end of the runner; the cancelled token in the runner, wherever
-- it stands; a socket for the runner, with whether the hello is written; an event of its connection; and
-- the end of both tasks of that.
pub data ServerEvent : Type 0 where
  listen_cancelled accept_failed can_send runner_cancelled tasks_end : ServerEvent
  accepts : ℕ → ServerEvent
  serves : Bool → ServerEvent
  in_stream : Event → ServerEvent

-- `sending` is the socket that the listener waits to send; `state` is the runner's outside of a call;
-- `accepted` lists all sockets that were accepted, and `given` those that `run_stream` was given.
pub record ServerTasks : Type 0 where
  pub listening : Bool
  pub sending : Option ℕ
  pub queue : List ℕ
  pub runner : Place
  pub state : StreamState
  pub accepted : List ℕ
  pub given : List ℕ

unfoldable pub start_server : StreamState → ServerTasks
start_server state = record {
  listening = true;
  sending = none;
  queue = [];
  runner = waits;
  state = state;
  accepted = [];
  given = [];
}

abbrev pub is_gone : Place → Bool
is_gone waits = false
is_gone gone = true
is_gone (serving s) = false
is_gone (joins s) = false

-- The listener's `select!`, which it does not look at while it sends.
abbrev pub selecting : Option ℕ → ServerTasks → ServerTasks → ServerTasks
selecting none t t' = if t.listening then t' else t
selecting (some socket) t t' = t

-- `send`: it waits for room, and fails once the runner is gone; the error is logged only.
unfoldable pub send_socket : ServerTasks → Option ℕ → ServerTasks
send_socket t none = t
send_socket t (some socket) =
    if is_gone t.runner
    then record t { sending = none }
    else if ltb (length t.queue) socket_room
    then record t { sending = none; queue = t.queue ++ (socket ∷ []) }
    else t

abbrev pub listed : Option ℕ → List ℕ
listed none = []
listed (some socket) = socket ∷ []

-- The runner behind one event of a call. Once it ends, the channel drops the sockets in it.
abbrev pub runner_to : ServerTasks → Call → ServerTasks
runner_to t (inside s) = record t { runner = serving s }
runner_to t (in_joins s) = record t { runner = joins s }
runner_to t (left state) = record t { runner = waits; state = state }
runner_to t panicked = record t { runner = gone; queue = [] }

-- `recv`, which waits while the listener lives, and yields nothing behind its end; then the newest socket is
-- served, and the others are dropped.
unfoldable pub on_recv : ServerTasks → List ℕ → Bool → ServerTasks
unfolding newest call
on_recv t [] wrote = if t.listening then t else record t { runner = gone }
on_recv t (socket ∷ sockets) wrote =
    runner_to (record t { queue = []; given = t.given ++ listed (newest (some socket) sockets) })
      (call wrote t.state)

abbrev pub on_serves : ServerTasks → Place → Bool → ServerTasks
on_serves t waits wrote = on_recv t t.queue wrote
on_serves t gone wrote = t
on_serves t (serving s) wrote = t
on_serves t (joins s) wrote = t

unfoldable pub on_stream : ServerTasks → Place → Event → ServerTasks
unfolding call_step
on_stream t (serving s) e = runner_to t (call_step s e)
on_stream t waits e = t
on_stream t gone e = t
on_stream t (joins s) e = t

-- The token ends the wait for a socket, and `run_stream` as long as that is in its loop, but no join.
abbrev pub on_cancel : ServerTasks → Place → ServerTasks
on_cancel t waits = record t { runner = gone; queue = [] }
on_cancel t gone = t
on_cancel t (serving s) = on_stream t (serving s) killed
on_cancel t (joins s) = t

abbrev pub on_tasks_end : ServerTasks → Place → ServerTasks
on_tasks_end t waits = t
on_tasks_end t gone = t
on_tasks_end t (serving s) = t
on_tasks_end t (joins s) = record t { runner = waits; state = s.state }

unfoldable pub server_step : ServerTasks → ServerEvent → ServerTasks
unfolding send_socket on_recv on_stream
server_step t listen_cancelled = selecting t.sending t (record t { listening = false })
server_step t accept_failed = selecting t.sending t (record t { listening = false })
server_step t (accepts socket) =
    selecting t.sending t
      (record t { sending = some socket; accepted = t.accepted ++ (socket ∷ []) })
server_step t can_send = send_socket t t.sending
server_step t runner_cancelled = on_cancel t t.runner
server_step t (serves wrote) = on_serves t t.runner wrote
server_step t (in_stream e) = on_stream t t.runner e
server_step t tasks_end = on_tasks_end t t.runner

unfoldable pub server_tasks : ServerTasks → List ServerEvent → ServerTasks
unfolding server_step
server_tasks t [] = t
server_tasks t (e ∷ es) = server_tasks (server_step t e) es
