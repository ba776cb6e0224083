-- ===== src/Programs/Check.antt =====
-- src/lib/server_check_port.rs: the program that tells, once a second, whether the server still runs.
use mobiletunnel.Prelude.{
  ℕ, ◌+◌, ◌%◌, ◌^◌, List, [], ◌∷◌, ◌++◌, Bool, false, Option, none, some, ◌==◌, if◌then◌else◌,
}
use mobiletunnel.Text.{Text, codes, equal}
use mobiletunnel.Text.Decimal.{to_decimal}
use mobiletunnel.Text.Paths.{file_name}
use mobiletunnel.Programs.Processes.{Process}

-- `flatten`, and `abs_path` of what a process shows.
unfoldable pub abs_path : Option (Option Text) → Option Text
abs_path none = none
abs_path (some name) = name

unfoldable pub names_match : Option Text → Option Text → Bool
names_match none that = false
names_match (some this) none = false
names_match (some this) (some that) = equal this that

unfoldable pub process_matches : Text → Process → Bool
unfolding abs_path names_match
process_matches this_exe process = names_match (file_name this_exe) (abs_path process.exe)

-- The first process with the pid decides.
unfoldable pub check_server_port : Text → ℕ → List Process → Bool
unfolding process_matches
check_server_port this_exe check_pid [] = false
check_server_port this_exe check_pid (process ∷ processes) =
    let rest = check_server_port this_exe check_pid processes in
    if process.pid == check_pid then process_matches this_exe process else rest

unfoldable pub report : Bool → ℕ → Text
report is_running iter =
    if is_running then codes "GOOD " ++ to_decimal iter else codes "BAD " ++ to_decimal iter

-- The lines for the processes at each round; `iter` is the counter before the first.
unfoldable pub run_check_server_port : Text → ℕ → ℕ → List (List Process) → List Text
unfolding check_server_port report
run_check_server_port this_exe check_pid iter [] = []
run_check_server_port this_exe check_pid iter (processes ∷ later) =
    let next = (iter + 1) % 2 ^ 64 in
    report (check_server_port this_exe check_pid processes) next
    ∷ run_check_server_port this_exe check_pid next later
