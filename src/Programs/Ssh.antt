-- ===== src/Programs/Ssh.antt =====
-- src/bin/mobiletunnel.rs: `run_ssh` and `run_ssh_loop`, which keep an ssh process running and listen to the
-- lines of the check of the server.
pub mod Ends
pub mod Deleted
use mobiletunnel.Prelude.{
  ℕ, ◌+◌, List, [], ◌∷◌, Bool, true, false, Option, none, some, if◌then◌else◌,
}
use mobiletunnel.Text.{Text, codes, starts_with}

-- What the `select!` of `run_ssh` can pick: the end of the child, or an error in waiting for it; a line, the
-- end of its output, or an error in reading it; the timer; and the cancelled token.
pub data SshEvent : Type 0 where
  exited wait_failed end_of_output read_failed timed_out cancelled : SshEvent
  line : Text → SshEvent

pub data RunSshResult : Type 0 where
  server_died ssh_died : RunSshResult

-- How `run_ssh` stands when the events are used up: it still runs, it has returned, or failed.
pub data SshEnd : Type 0 where
  still failed : SshEnd
  returned : RunSshResult → SshEnd

-- The requests to kill the child, and the end.
pub record SshRun : Type 0 where
  pub kills : ℕ
  pub end : SshEnd

abbrev pub ends : SshEnd → SshRun
ends end = record { kills = 0; end = end }

abbrev pub start_kill : SshRun → SshRun
start_kill r = record r { kills = r.kills + 1 }

unfoldable pub run_ssh : List SshEvent → SshRun
run_ssh [] = ends still
run_ssh (exited ∷ es) = ends (returned ssh_died)
run_ssh (wait_failed ∷ es) = ends failed
run_ssh (line text ∷ es) =
    let rest = run_ssh es in
    if starts_with text (codes "BAD") then ends (returned server_died) else rest
run_ssh (end_of_output ∷ es) = run_ssh es
run_ssh (read_failed ∷ es) = ends failed
run_ssh (timed_out ∷ es) = start_kill (run_ssh es)
run_ssh (cancelled ∷ es) = start_kill (run_ssh es)

-- A round of `run_ssh_loop`: whether the token is cancelled at its top, what the child then meets, and
-- whether `mk_ssh` can start the next one.
pub record SshRound : Type 0 where
  pub is_cancelled : Bool
  pub events : List SshEvent
  pub respawn : Bool

pub data LoopEnd : Type 0 where
  running finished broken : LoopEnd

-- The children that were started, and how the loop stands.
pub record SshLoop : Type 0 where
  pub spawned : ℕ
  pub loop_end : LoopEnd

-- What the end of `run_ssh` means; `rest` is the loop with one more child.
unfoldable pub on_ssh_end : ℕ → SshEnd → Bool → SshLoop → SshLoop
on_ssh_end spawned still respawn rest = record { spawned = spawned; loop_end = running }
on_ssh_end spawned failed respawn rest = record { spawned = spawned; loop_end = broken }
on_ssh_end spawned (returned server_died) respawn rest = record {
  spawned = spawned;
  loop_end = finished;
}
on_ssh_end spawned (returned ssh_died) respawn rest =
    if respawn then rest else record { spawned = spawned; loop_end = broken }

unfoldable pub ssh_rounds : ℕ → List SshRound → SshLoop
unfolding run_ssh on_ssh_end
ssh_rounds spawned [] = record { spawned = spawned; loop_end = running }
ssh_rounds spawned (r ∷ rs) =
    let rest = ssh_rounds (spawned + 1) rs in
    if r.is_cancelled
    then record { spawned = spawned; loop_end = finished }
    else on_ssh_end spawned (run_ssh r.events).end r.respawn rest

-- The first `mk_ssh`, and the loop.
unfoldable pub run_ssh_loop : Bool → List SshRound → SshLoop
unfolding ssh_rounds
run_ssh_loop can_start rounds =
    if can_start then ssh_rounds 1 rounds else record { spawned = 0; loop_end = broken }
