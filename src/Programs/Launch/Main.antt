-- ===== src/Programs/Launch/Main.antt =====
-- src/bin/mobiletunnel.rs: `main`, from the arguments to the command that keeps the connection, and the
-- branch that runs the check.
use mobiletunnel.Prelude.{
  ℕ, ◌^◌, List, [], ◌∷◌, ◌++◌, Option, none, some, Outcome, ok, err, ◌>>=◌, if◌then◌else◌,
}
use mobiletunnel.Text.{Text, codes, equal}
use mobiletunnel.Text.Decimal.{to_decimal, parse_unsigned}
use mobiletunnel.Programs.Launch.{
  Args, make_pid_file_location, make_self_location, LaunchError, no_current_exe, bad_port, or_err,
  first_word, words, server_arg_string, copied_command, Answer, output, number, find_pid,
  get_available_port,
}

-- What `main` meets: the variable USER, the random chars of both file names, its own program, the answers of
-- the children, and the tries to bind a port.
pub record Outside : Type 0 where
  pub user : Option Text
  pub pid_sample : Text
  pub self_sample : Text
  pub current_exe : Option Text
  pub copied : Answer
  pub server : Answer
  pub pids : ℕ → Answer
  pub binds : ℕ → Option ℕ

-- The program on the other machine, and what ssh is to run there.
pub record Target : Type 0 where
  pub target_server_prog : Text
  pub command : Text

-- The copy's own answer is not looked at, unless it cannot be run; its output is logged only.
unfoldable pub copy_result : Answer → Target → Outcome LaunchError Target
copy_result Answer.no_run target = err LaunchError.command_failed
copy_result Answer.no_text target = ok target
copy_result (Answer.printed text) target = ok target

unfoldable pub scp_command : Args → Text → Text → List Text
unfolding words
scp_command args exe prog =
    words args.scp_base (exe ∷ (args.target_host ++ (codes ":" ++ prog)) ∷ [])

unfoldable pub copied_target : Args → Outside → Text → Outcome LaunchError Target
unfolding copy_result scp_command copied_command make_self_location first_word
copied_target args out arg_string =
    let (prog, kill_base) = make_self_location out.user out.self_sample args.copy_self_base in
    let target : Target = record {
      target_server_prog = prog;
      command = copied_command args prog arg_string kill_base;
    } in
    do
      exe ← or_err out.current_exe no_current_exe
      scp ← first_word (scp_command args exe prog)
      copy_result out.copied target

unfoldable pub server_target : Args → Outside → Text → Outcome LaunchError Target
unfolding copied_target
server_target args out arg_string =
    let copy = copied_target args out arg_string in
    if args.copy_self
    then copy
    else ok (record {
      target_server_prog = args.server_command;
      command = args.server_command ++ (codes " " ++ arg_string);
    })

unfoldable pub check_command : Text → ℕ → Text
check_command prog pid = prog ++ (codes " check-server-pid " ++ to_decimal pid)

unfoldable pub forward : ℕ → ℕ → Text
forward local_port server_port =
    codes "-L localhost:"
    ++ (to_decimal local_port ++ (codes ":localhost:" ++ to_decimal server_port))

-- The words of the command that keeps the connection, and the port of the client.
pub record Plan : Type 0 where
  pub server_command : List Text
  pub reconnecting_ssh_command : List Text
  pub local_port : ℕ

unfoldable pub plan : Args → Text × List Text → Target → ℕ → ℕ → ℕ → Plan
unfolding words forward check_command
plan args (ssh_prog, ssh_command_base) target server_port server_pid local_port = record {
  server_command = (ssh_prog ∷ ssh_command_base) ++ (target.command ∷ []);
  reconnecting_ssh_command = words args.reconnecting_ssh_base (
      forward local_port server_port
      ∷ args.target_host
      ∷ check_command target.target_server_prog server_pid
      ∷ []);
  local_port = local_port;
}

unfoldable pub launch : Args → Outside → Outcome LaunchError Plan
unfolding plan server_target first_word words server_arg_string make_pid_file_location output number
    find_pid get_available_port
launch args out = do
  ssh ← first_word (words args.ssh_base (args.target_host ∷ []))
  let pid_file = (make_pid_file_location out.user out.pid_sample args.copy_self_base).0
  target ← server_target args out (server_arg_string args.target_port pid_file)
  text ← output out.server
  server_port ← number (2 ^ 16) bad_port text
  server_pid ← find_pid 20 0 out.pids
  local_port ← get_available_port out.binds
  ok (plan args ssh target server_port server_pid local_port)

-- The arguments that `main` takes for the check: its own program and a pid.
unfoldable pub check_args : List Text → Option (Text × Option ℕ)
check_args (program ∷ word ∷ pid ∷ []) =
    if equal word (codes "check-server-pid")
    then some (program, parse_unsigned (2 ^ 32) pid)
    else none
check_args args = none
