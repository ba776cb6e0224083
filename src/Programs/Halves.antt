-- ===== src/Programs/Halves.antt =====
-- src/bin/mobiletunnel.rs: `mk_ssh`, and the end of `main`, which runs the client and the loop that keeps ssh
-- running side by side, and cancels the one when the other ends.
pub mod Child
pub mod Ending
pub mod Stops
mod Tests
use mobiletunnel.Prelude.{
  ℕ, ◌+◌, List, [], ◌∷◌, ◌++◌, Bool, true, false, ◌&&◌, ◌||◌, not, Option, none, some, Outcome, ok,
  err, panic, ◌>>=◌, if◌then◌else◌,
}
use mobiletunnel.Text.{Text}
use mobiletunnel.Programs.Launch.{LaunchError, first_word}
use mobiletunnel.Programs.Ssh.{
  SshEvent, exited, wait_failed, end_of_output, read_failed, timed_out, cancelled, line,
  RunSshResult, SshEnd, still, failed, returned, run_ssh, LoopEnd, running, finished, broken,
  SshLoop, on_ssh_end,
}
use mobiletunnel.Programs.Client.{ClientError, ClientMain, ClientEvent, client_step, client_result}

-- `mk_ssh`: whether the program can be run, and its standard output is there.
pub data SshError : Type 0 where
  no_reconnecting_command cannot_spawn no_stdout : SshError

-- The program and its arguments that are spawned.
unfoldable pub mk_ssh : List Text → Bool → Bool → Outcome SshError (Text × List Text)
mk_ssh [] spawns has_stdout = err no_reconnecting_command
mk_ssh (prog ∷ args) spawns has_stdout =
    if spawns then (if has_stdout then ok (prog, args) else err no_stdout) else err cannot_spawn

-- The task of `run_ssh_loop`, event by event: `events` is what the child that runs has met.
pub record SshTask : Type 0 where
  pub begun : Bool
  pub events : List SshEvent
  pub loop : SshLoop

-- The test at the top of the loop, with `spawned` children.
abbrev pub at_top : Bool → ℕ → SshLoop
at_top is_cancelled spawned = record {
  spawned = spawned;
  loop_end = if is_cancelled then finished else running;
}

-- `starts` is the first `mk_ssh`, with whether it succeeds; `meets` what the child meets, with whether the
-- next `mk_ssh` would succeed.
pub data SshTaskEvent : Type 0 where
  starts : Bool → SshTaskEvent
  meets : SshEvent → Bool → SshTaskEvent

abbrev pub rest_of : SshEnd → List SshEvent → List SshEvent
rest_of still events = events
rest_of failed events = []
rest_of (returned result) events = []

unfoldable pub ssh_begins : Bool → Bool → SshTask
ssh_begins is_cancelled can_start = record {
  begun = true;
  events = [];
  loop = if can_start then at_top is_cancelled 1 else record { spawned = 0; loop_end = broken };
}

unfoldable pub ssh_meets : Bool → SshTask → SshEvent → Bool → SshTask
unfolding run_ssh on_ssh_end
ssh_meets is_cancelled t e respawn =
    let events = t.events ++ (e ∷ []) in
    let end = (run_ssh events).end in
    record {
      begun = true;
      events = rest_of end events;
      loop = on_ssh_end t.loop.spawned end respawn (at_top is_cancelled (t.loop.spawned + 1));
    }

abbrev pub is_running : LoopEnd → Bool
is_running running = true
is_running finished = false
is_running broken = false

-- One event, while the loop runs.
unfoldable pub ssh_task_step : Bool → SshTask → SshTaskEvent → SshTask
unfolding ssh_begins ssh_meets
ssh_task_step is_cancelled t (starts can_start) =
    if t.begun then t else ssh_begins is_cancelled can_start
ssh_task_step is_cancelled t (meets e respawn) =
    if t.begun && is_running t.loop.loop_end then ssh_meets is_cancelled t e respawn else t

-- The two tasks that `join!` waits for, and their tokens. `client` is the start of the client, or why it
-- failed.
pub record Halves : Type 0 where
  pub client : Outcome ClientError ClientMain
  pub ssh : SshTask
  pub client_cancel : Bool
  pub ssh_cancel : Bool

abbrev pub is_some {ℓ} : {A : Type ℓ} → Option A → Bool
is_some none = false
is_some (some x) = true

abbrev pub client_ended : Outcome ClientError ClientMain → Bool
client_ended (ok c) = is_some (client_result c.multiplexer.status c.task)
client_ended (err e) = true
client_ended panic = true

-- `run_client` has returned: behind a panic nothing is cancelled.
abbrev pub has_returned : Option (Outcome ClientError (Unit {0})) → Bool
has_returned none = false
has_returned (some (ok done)) = true
has_returned (some (err e)) = true
has_returned (some panic) = false

abbrev pub client_returned : Outcome ClientError ClientMain → Bool
client_returned (ok c) = has_returned (client_result c.multiplexer.status c.task)
client_returned (err e) = true
client_returned panic = false

abbrev pub ssh_ended : SshTask → Bool
ssh_ended t = not (is_running t.loop.loop_end)

-- An event of either task, and the client's token, once it is cancelled.
pub data HalfEvent : Type 0 where
  of_client : ClientEvent → HalfEvent
  of_ssh : SshTaskEvent → HalfEvent

abbrev pub is_cancel : ClientEvent → Bool
is_cancel ClientEvent.cancels = true
is_cancel (ClientEvent.of_multiplexer e) = false
is_cancel (ClientEvent.of_stream r) = false

abbrev pub is_told : SshTaskEvent → Bool
is_told (starts can_start) = false
is_told (meets exited respawn) = false
is_told (meets wait_failed respawn) = false
is_told (meets end_of_output respawn) = false
is_told (meets read_failed respawn) = false
is_told (meets timed_out respawn) = false
is_told (meets (line text) respawn) = false
is_told (meets cancelled respawn) = true

-- What stands behind each task: the token of the other is cancelled.
unfoldable pub tell_other : Halves → Halves
tell_other s = record s {
  client_cancel = s.client_cancel || ssh_ended s.ssh;
  ssh_cancel = s.ssh_cancel || client_returned s.client;
}

abbrev pub on_client : Outcome ClientError ClientMain → ClientEvent → Outcome ClientError ClientMain
on_client (ok c) e = ok (client_step c e)
on_client (err x) e = err x
on_client panic e = panic

unfoldable pub halves_step : Halves → HalfEvent → Halves
unfolding tell_other client_step ssh_task_step
halves_step s (of_client e) =
    if is_cancel e && not s.client_cancel
    then s
    else tell_other (record s { client = on_client s.client e })
halves_step s (of_ssh e) =
    if is_told e && not s.ssh_cancel
    then s
    else tell_other (record s { ssh = ssh_task_step s.ssh_cancel s.ssh e })

abbrev pub fresh_halves : Outcome ClientError ClientMain → Halves
fresh_halves client = record {
  client = client;
  ssh = record { begun = false; events = []; loop = record { spawned = 0; loop_end = running } };
  client_cancel = false;
  ssh_cancel = false;
}

unfoldable pub start_halves : Outcome ClientError ClientMain → Halves
unfolding tell_other
start_halves client = tell_other (fresh_halves client)

unfoldable pub halves : Halves → List HalfEvent → Halves
unfolding halves_step
halves s [] = s
halves s (e ∷ es) = halves (halves_step s e) es

-- `join!` returns when both tasks have ended.
abbrev pub join_returns : Halves → Bool
join_returns s = client_ended s.client && ssh_ended s.ssh
