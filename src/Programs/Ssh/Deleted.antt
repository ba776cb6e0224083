-- ===== src/Programs/Ssh/Deleted.antt =====
-- src/lib/server_check_port.rs and src/lib/server.rs: a server whose program was deleted or replaced.
use mobiletunnel.Prelude.{
  ℕ, ◌≡◌, ◌≢◌, ◌∙◌, refl, ap, List, [], ◌∷◌, ◌++◌, Bool, true, false, some, map, if◌then◌else◌, All,
  arith, ==_refl, ◌==◌,
}
use mobiletunnel.Text.{Text, codes, equal}
use mobiletunnel.Text.Laws.{remove_all-append, equal_refl}
use mobiletunnel.Text.Paths.{file_name}
use mobiletunnel.Programs.Processes.{Process}
use mobiletunnel.Programs.KillOld.{exe_matches, is_match}
use mobiletunnel.Programs.Check.{
  abs_path, names_match, process_matches, check_server_port, run_check_server_port,
}
use mobiletunnel.Programs.Ssh.{line, ends, returned, still, server_died, run_ssh}
use mobiletunnel.Programs.Ssh.Ends.{run_ssh-check}

equal_longer : (s t : Text) (c : ℕ) → equal s (s ++ (c ∷ t)) ≡ false
equal_longer [] t c = refl
equal_longer (d ∷ s) t c = rw (==_refl d) (equal_longer s t c)

-- The first process with the pid decides.
check_server_port-append :
    (this_exe : Text) (front back : List Process) (p : Process)
    → All (λ (q : Process). q.pid ≢ p.pid) front
    → check_server_port this_exe p.pid (front ++ (p ∷ back)) ≡ process_matches this_exe p
unfolding check_server_port
check_server_port-append this_exe [] back p h = rw (==_refl p.pid) refl
check_server_port-append this_exe (q ∷ front) back p (other, h) =
    let e : (q.pid == p.pid) ≡ false = ground arith in
    rw e (check_server_port-append this_exe front back p h)

process_matches-deleted :
    (this_exe name : Text) (p : Process)
    → file_name this_exe ≡ some name
    → p.exe ≡ some (some (name ++ codes " (deleted)"))
    → process_matches this_exe p ≡ false
unfolding process_matches abs_path names_match
process_matches-deleted this_exe name p e shown =
    rw (e, shown) (equal_longer name (codes "(deleted)") b' ')

-- A server, with no blank in the name of its program, that runs while its program's file is deleted or
-- replaced, which the name then shows with a mark, and whose pid no process before it has: the test of `run_server` takes its name for the same, while the check does not, and with the next
-- line `run_ssh` says that the server has died.
pub run_ssh-deleted :
    (this_exe name : Text) (iter : ℕ) (front back : List Process) (p : Process)
    → All (λ c. c ≢ b' ') name
    → file_name this_exe ≡ some name
    → p.exe ≡ some (some (name ++ codes " (deleted)"))
    → All (λ (q : Process). q.pid ≢ p.pid) front
    → (exe_matches (record { match_str = name; match_whole = true }) p.exe ≡ true)
      × (run_ssh (map line (run_check_server_port this_exe p.pid iter ((front ++ (p ∷ back)) ∷ [])))
          ≡ ends (returned server_died))
unfolding exe_matches is_match
run_ssh-deleted this_exe name iter front back p no_blank e shown first =
    let check : check_server_port this_exe p.pid (front ++ (p ∷ back)) ≡ false =
      check_server_port-append this_exe front back p first
      ∙ process_matches-deleted this_exe name p e shown in
    (
      rw (shown, remove_all-append b' ' (codes "(deleted)") name no_blank) (equal_refl name),
      run_ssh-check this_exe p.pid iter ((front ++ (p ∷ back)) ∷ [])
          ∙ ap
              (λ (b : Bool).
                if (if b then true else false) then ends still else ends (returned server_died))
              check,
    )
