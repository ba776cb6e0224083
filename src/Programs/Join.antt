-- ===== src/Programs/Join.antt =====
-- src/lib/server.rs: `tokio_main`, which runs the multiplexer and the stream of the server, and cancels the
-- one when the other ends.
pub mod Held
pub mod Stops
use mobiletunnel.Prelude.{ℕ, List, [], ◌∷◌, Bool, true, false, ◌&&◌, ◌||◌, not, if◌then◌else◌}
use mobiletunnel.Stream.State.{StreamState}
use mobiletunnel.Stream.Session.{killed, app_rx, tcp_rx, writer_died}
use mobiletunnel.Stream.Session as Stream
use mobiletunnel.Stream.Runner.Tasks.{
  ServerEvent, listen_cancelled, accept_failed, can_send, runner_cancelled, tasks_end, accepts,
  serves, in_stream, is_gone, ServerTasks, start_server, server_step,
}
use mobiletunnel.Multiplexer.Server.{
  server, Multiplexer, new_multiplexer, Status, running, stopped_ok, crashed, out_of_fuel,
  stopped_err, Event, interrupted, accepted, from_channel, from_stream, step,
}

-- `interrupt` is whether the token is cancelled that both halves watch.
pub record ServerMain : Type 0 where
  pub multiplexer : Multiplexer
  pub tasks : ServerTasks
  pub interrupt : Bool

-- The run of the multiplexer has returned. A panic in it would take `tokio_main` with it, and counts as an
-- end here.
abbrev pub has_ended : Status → Bool
has_ended running = false
has_ended stopped_ok = true
has_ended crashed = true
has_ended out_of_fuel = true
has_ended (stopped_err e) = true

-- `run_server` waits for both of its tasks.
abbrev pub tasks_ended : ServerTasks → Bool
tasks_ended t = not t.listening && is_gone t.runner

-- An event of either half.
pub data MainEvent : Type 0 where
  of_multiplexer : Event → MainEvent
  of_tasks : ServerEvent → MainEvent

-- What a half meets only once the token is cancelled.
abbrev pub is_interrupt : Event → Bool
is_interrupt interrupted = true
is_interrupt (accepted ok delivered) = false
is_interrupt (from_channel bytes answer) = false
is_interrupt (from_stream message delivered) = false

abbrev pub is_kill : Stream.Event → Bool
is_kill killed = true
is_kill (app_rx payload) = false
is_kill (tcp_rx message) = false
is_kill writer_died = false

abbrev pub is_cancel : ServerEvent → Bool
is_cancel listen_cancelled = true
is_cancel runner_cancelled = true
is_cancel accept_failed = false
is_cancel can_send = false
is_cancel tasks_end = false
is_cancel (accepts socket) = false
is_cancel (serves wrote) = false
is_cancel (in_stream e) = is_kill e

unfoldable pub start_main : StreamState → ServerMain
unfolding start_server new_multiplexer
start_main state = record {
  multiplexer = new_multiplexer;
  tasks = start_server state;
  interrupt = false;
}

-- Behind the end of a half the token is cancelled.
unfoldable pub cancel_on_end : ServerMain → ServerMain
cancel_on_end s = record s {
  interrupt = s.interrupt || (has_ended s.multiplexer.status || tasks_ended s.tasks);
}

unfoldable pub main_step : ServerMain → MainEvent → ServerMain
unfolding cancel_on_end step server_step
main_step s (of_multiplexer e) =
    if is_interrupt e && not s.interrupt
    then s
    else cancel_on_end (record s { multiplexer = step server s.multiplexer e })
main_step s (of_tasks e) =
    if is_cancel e && not s.interrupt
    then s
    else cancel_on_end (record s { tasks = server_step s.tasks e })

unfoldable pub tokio_main : ServerMain → List MainEvent → ServerMain
unfolding main_step
tokio_main s [] = s
tokio_main s (e ∷ es) = tokio_main (main_step s e) es

-- `join` returns when both halves have ended.
abbrev pub join_returns : ServerMain → Bool
join_returns s = has_ended s.multiplexer.status && tasks_ended s.tasks
