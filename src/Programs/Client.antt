-- ===== src/Programs/Client.antt =====
-- src/lib/client.rs: `run_client`, which starts the stream's task and the multiplexer, runs the multiplexer,
-- and waits for the stream's task if that returned without an error.
use mobiletunnel.Prelude.{
  ℕ, Bool, true, false, ◌&&◌, not, Option, none, some, Outcome, ok, err, panic, if◌then◌else◌,
}
use mobiletunnel.Text.{Text}
use mobiletunnel.Stream.State.{StreamState, new}
use mobiletunnel.Stream.Session.{Session, Event}
use mobiletunnel.Stream.Runner.{
  WaitEvent, cancelled, slept, app_waits, wait_step, Call, inside, in_joins, left, panicked, call,
  call_step,
}
use mobiletunnel.Multiplexer.Message.{MultiplexerError}
use mobiletunnel.Multiplexer.Server.{
  client, Multiplexer, new_multiplexer, Status, running, stopped_ok, crashed, out_of_fuel,
  stopped_err, step,
}
use mobiletunnel.Multiplexer.Server as Multiplexer
use mobiletunnel.Programs.Host.{parse_ip_from_uri_host}
use mobiletunnel.Programs.Join.{is_interrupt, is_kill}

pub record Args : Type 0 where
  pub bind_ip : Text
  pub port : ℕ
  pub listen_port : ℕ
  pub window : ℕ

pub data ClientError : Type 0 where
  bad_address cannot_listen stream_panicked : ClientError
  multiplexer_failed : MultiplexerError → ClientError

-- How the stream's task stands: at the top of its loop; in a call of `run_stream`, or behind a `break` of it,
-- where that waits for its two tasks; in the wait that follows; and returned, or panicked.
pub data StreamTask : Type 0 where
  at_top waiting done broken : StreamTask
  within joining : Session → StreamTask

-- `interrupt` is whether the token is cancelled of which both halves have a child; `stream` is the task's
-- outside of a call.
pub record ClientMain : Type 0 where
  pub multiplexer : Multiplexer
  pub stream : StreamState
  pub task : StreamTask
  pub interrupt : Bool

abbrev started : Args → ℕ → ClientMain
started args id = record {
  multiplexer = new_multiplexer;
  stream = new id (record { max_window = args.window });
  task = at_top;
  interrupt = false;
}

-- The start, at the id that is drawn; `listens` is whether the multiplexer can bind `listen_port`. If not,
-- the stream's task has been spawned, and nobody waits for it.
unfoldable pub start_client {ℓ} :
    {IpAddr : Type ℓ} → (Text → Option IpAddr) → Args → ℕ → Bool → Outcome ClientError ClientMain
unfolding new_multiplexer
start_client parse_ip args id listens = elim (parse_ip_from_uri_host parse_ip args.bind_ip) [
  | none ↦ err bad_address
  | some address ↦ if listens then ok (started args id) else err cannot_listen
]

-- What the stream's task meets: a turn of its loop, with whether `connect` succeeds and the hello is written;
-- an event of the connection; the end of both tasks of it; and an event of the wait.
pub data TaskEvent : Type 0 where
  turns : Bool → Bool → TaskEvent
  in_stream : Event → TaskEvent
  tasks_end : TaskEvent
  in_wait : WaitEvent → TaskEvent

-- The token is cancelled; an event of the multiplexer; one of the stream's task.
pub data ClientEvent : Type 0 where
  cancels : ClientEvent
  of_multiplexer : Multiplexer.Event → ClientEvent
  of_stream : TaskEvent → ClientEvent

abbrev pub task_after : ClientMain → Call → ClientMain
task_after s (inside session) = record s { task = within session }
task_after s (in_joins session) = record s { task = joining session }
task_after s (left state) = record s { stream = state; task = waiting }
task_after s panicked = record s { task = broken }

-- The top of the loop: the token is looked at before `connect`.
unfoldable pub on_turn : ClientMain → Bool → Bool → ClientMain
unfolding call
on_turn s connects wrote =
    if s.interrupt
    then record s { task = done }
    else if connects
    then task_after s (call wrote s.stream)
    else record s { task = waiting }

unfoldable pub on_wait : ClientMain → WaitEvent → ClientMain
on_wait s e =
    let (state, ends) = wait_step s.stream e in
    record s { stream = state; task = if ends then at_top else waiting }

-- What the task meets where it stands; an event of another place is none.
unfoldable pub stream_step : ClientMain → StreamTask → TaskEvent → ClientMain
unfolding on_turn on_wait call_step
stream_step s at_top (turns connects wrote) = on_turn s connects wrote
stream_step s (within session) (in_stream e) = task_after s (call_step session e)
stream_step s (joining session) tasks_end = record s { stream = session.state; task = waiting }
stream_step s waiting (in_wait e) = on_wait s e
stream_step s task e = s

-- What the task meets only once the token is cancelled.
abbrev is_cancel : TaskEvent → Bool
is_cancel (turns connects wrote) = false
is_cancel (in_stream e) = is_kill e
is_cancel tasks_end = false
is_cancel (in_wait cancelled) = true
is_cancel (in_wait slept) = false
is_cancel (in_wait (app_waits payload)) = false

unfoldable pub client_step : ClientMain → ClientEvent → ClientMain
unfolding stream_step step
client_step s cancels = record s { interrupt = true }
client_step s (of_multiplexer e) =
    if is_interrupt e && not s.interrupt
    then s
    else record s { multiplexer = step client s.multiplexer e }
client_step s (of_stream e) = if is_cancel e && not s.interrupt then s else stream_step s s.task e

-- `main_chan.await?`.
abbrev pub wait_for : StreamTask → Option (Outcome ClientError (Unit {0}))
wait_for at_top = none
wait_for waiting = none
wait_for (within session) = none
wait_for (joining session) = none
wait_for done = some (ok tt)
wait_for broken = some (err stream_panicked)

-- What `run_client` has returned; `none` while it runs.
unfoldable pub client_result : Status → StreamTask → Option (Outcome ClientError (Unit {0}))
client_result running task = none
client_result stopped_ok task = wait_for task
client_result crashed task = some panic
client_result out_of_fuel task = some panic
client_result (stopped_err e) task = some (err (multiplexer_failed e))
