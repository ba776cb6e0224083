-- ===== src/Programs/Ssh/Ends.antt =====
-- src/bin/mobiletunnel.rs and src/lib/server_check_port.rs: how the loop over ssh processes ends.
use mobiletunnel.Prelude.{
  ℕ, ◌+◌, ◌%◌, ◌^◌, ◌≡◌, ◌∙◌, refl, ap, List, [], ◌∷◌, ◌++◌, Bool, true, false, map, length,
  if◌then◌else◌, All, arith,
}
use mobiletunnel.Text.{Text}
use mobiletunnel.Programs.Processes.{Process}
use mobiletunnel.Programs.Check.{check_server_port, report, run_check_server_port}
use mobiletunnel.Programs.Ssh.{
  SshEvent, line, still, returned, server_died, ssh_died, SshRun, ends, run_ssh, SshRound, finished,
  ssh_rounds, on_ssh_end, run_ssh_loop,
}

-- The server runs at every round.
abbrev pub always_running : Text → ℕ → List (List Process) → Bool
always_running this_exe pid [] = true
always_running this_exe pid (processes ∷ later) =
    let rest = always_running this_exe pid later in
    if check_server_port this_exe pid processes then rest else false

-- What the lines of a round make of `run_ssh`.
abbrev on_report : Bool → SshRun → SshRun
on_report true rest = rest
on_report false rest = ends (returned server_died)

heard :
    (is_running : Bool) (iter : ℕ) (es : List SshEvent)
    → run_ssh (line (report is_running iter) ∷ es) ≡ on_report is_running (run_ssh es)
unfolding run_ssh report
heard true iter es = refl
heard false iter es = refl

reported :
    (is_running all_running : Bool)
    → on_report is_running (if all_running then ends still else ends (returned server_died)) ≡ (
        if (if is_running then all_running else false)
        then ends still
        else ends (returned server_died))
reported true all_running = refl
reported false all_running = refl

-- Over the lines that the check of the server prints, whatever the counter: `run_ssh` goes on while the
-- server runs at every round, and otherwise says that the server has died, with no request to kill ssh.
pub run_ssh-check :
    (this_exe : Text) (pid iter : ℕ) (rounds : List (List Process))
    → run_ssh (map line (run_check_server_port this_exe pid iter rounds))
      ≡ (if always_running this_exe pid rounds then ends still else ends (returned server_died))
unfolding run_check_server_port
run_ssh-check this_exe pid iter [] = unfold run_ssh in refl
run_ssh-check this_exe pid iter (processes ∷ later) =
    let next = (iter + 1) % 2 ^ 64 in
    let now = check_server_port this_exe pid processes in
    heard now next (map line (run_check_server_port this_exe pid next later))
    ∙ ap (on_report now) (run_ssh-check this_exe pid next later)
    ∙ reported now (always_running this_exe pid later)

-- A round that starts the next ssh: the token is not cancelled at its top, ssh dies, and the next one
-- can be started.
pub record IsRestart (r : SshRound) : Type 0 where
  pub going_on : r.is_cancelled ≡ false
  pub died : (run_ssh r.events).end ≡ returned ssh_died
  pub restarts : r.respawn ≡ true

ssh_rounds-restart :
    (spawned : ℕ) (r : SshRound) (rs : List SshRound)
    → IsRestart r
    → ssh_rounds spawned (r ∷ rs) ≡ ssh_rounds (spawned + 1) rs
unfolding ssh_rounds on_ssh_end
ssh_rounds-restart spawned r rs v = rw (v.going_on, v.died, v.restarts) refl

ssh_rounds-restarts :
    (spawned : ℕ) (rs : List SshRound) (r : SshRound)
    → All IsRestart rs
    → r.is_cancelled ≡ true
    → ssh_rounds spawned (rs ++ (r ∷ []))
      ≡ record { spawned = spawned + length rs; loop_end = finished }
unfolding ssh_rounds on_ssh_end
ssh_rounds-restarts spawned [] r all stop =
    rw stop (ap (λ (n : ℕ). record { spawned = n; loop_end = finished }) (omega arith))
ssh_rounds-restarts spawned (q ∷ rs) r (v, all) stop =
    ssh_rounds-restart spawned q (rs ++ (r ∷ [])) v
    ∙ ssh_rounds-restarts (spawned + 1) rs r all stop
    ∙ ap (λ (n : ℕ). record { spawned = n; loop_end = finished }) (omega arith)

-- When a cancelled token is seen at the top of the loop, after any rounds in which ssh died, one more ssh
-- was started than have died: nobody waits for the last one.
pub run_ssh_loop-restarts :
    (rs : List SshRound) (r : SshRound)
    → All IsRestart rs
    → r.is_cancelled ≡ true
    → run_ssh_loop true (rs ++ (r ∷ [])) ≡ record { spawned = 1 + length rs; loop_end = finished }
unfolding run_ssh_loop
run_ssh_loop-restarts rs r all stop = ssh_rounds-restarts 1 rs r all stop
