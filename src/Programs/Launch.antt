-- ===== src/Programs/Launch.antt =====
-- src/bin/mobiletunnel.rs: what `main` and `Args` put together, the server that it starts over ssh, and the
-- command that keeps the connection.
pub mod Locations
pub mod Main
pub mod Commands
mod Tests
use mobiletunnel.Prelude.{
  ℕ, zero, suc, ◌+◌, ◌^◌, ◌≡◌, List, [], ◌∷◌, ◌++◌, Bool, true, false, Option, none, some, Outcome,
  ok, err, panic, ◌>>=◌, if◌then◌else◌,
}
use mobiletunnel.Text.{Text, codes, split, trim, equal}
use mobiletunnel.Text.Decimal.{to_decimal, parse_unsigned}
use mobiletunnel.Text.Paths.{join_path}

pub record Args : Type 0 where
  pub target_port : ℕ
  pub target_host : Text
  pub server_command : Text
  pub ssh_base : Text
  pub reconnecting_ssh_base : Text
  pub scp_base : Text
  pub copy_self : Bool
  pub copy_self_base : Text
  pub window : ℕ
  pub debug_server : Bool

abbrev pub user_name : Option Text → Text
user_name none = codes "nouser"
user_name (some user) = user

-- The random chars are the runtime's.
unfoldable pub make_location : Option Text → Text → Text → Text → Text × Text
make_location user sample copy_self_base base =
    let named = base ++ (codes "_" ++ user_name user) in
    (join_path copy_self_base (named ++ (codes "_" ++ sample)), named)

unfoldable pub make_pid_file_location : Option Text → Text → Text → Text × Text
unfolding make_location
make_pid_file_location user sample copy_self_base =
    make_location user sample copy_self_base (codes "mobiletunnel_pid")

unfoldable pub make_self_location : Option Text → Text → Text → Text × Text
unfolding make_location
make_self_location user sample copy_self_base =
    make_location user sample copy_self_base (codes "mobiletunnel")

pub data LaunchError : Type 0 where
  no_command no_current_exe command_failed output_not_utf8 bad_port bad_pid no_server_pid :
      LaunchError
  bind_failed no_free_port : LaunchError

-- `ok_or`.
abbrev pub or_err : {A : Type 0} → Option A → LaunchError → Outcome LaunchError A
or_err none error = err error
or_err (some x) error = ok x

-- A command line that a text in words makes, with more arguments: the program, and its arguments.
unfoldable pub first_word : List Text → Outcome LaunchError (Text × List Text)
first_word [] = err no_command
first_word (prog ∷ args) = ok (prog, args)

unfoldable pub words : Text → List Text → List Text
words base more = split base b' ' ++ more

unfoldable pub server_arg_string : ℕ → Text → Text
server_arg_string target_port pid_file =
    codes "--target-port="
    ++ (to_decimal target_port
        ++ (codes " --target-host=localhost --bind-port=0 --daemonize="
            ++ (pid_file ++ codes " --kill-old")))

-- What the copied program is started with.
unfoldable pub copied_command : Args → Text → Text → Text → Text
copied_command args prog arg_string kill_base =
    (if args.debug_server then codes "RUST_LOG=debug" else [])
    ++ (codes " "
        ++ (prog
            ++ (codes " --local-port 0 --target-port 0 --target-host 0 --run-as-server=\""
                ++ (arg_string
                    ++ (codes " --kill-old-base="
                        ++ (kill_base
                            ++ (codes " --window=" ++ (to_decimal args.window ++ codes "\""))))))))

-- What a child process answers: it cannot be run, or its output is no UTF-8, or it prints.
pub data Answer : Type 0 where
  no_run no_text : Answer
  printed : Text → Answer

unfoldable pub output : Answer → Outcome LaunchError Text
output no_run = err command_failed
output no_text = err output_not_utf8
output (printed text) = ok text

unfoldable pub number : ℕ → LaunchError → Text → Outcome LaunchError ℕ
number bound error text = or_err (parse_unsigned bound text) error

-- The tries to read the pid file: the n-th one is answered by `answers n`.
unfoldable pub find_pid : ℕ → ℕ → (ℕ → Answer) → Outcome LaunchError ℕ
unfolding output number
find_pid zero n answers = err no_server_pid
find_pid (suc tries) n answers =
    let rest = find_pid tries (suc n) answers in
    output (answers n) >>= λ text.
    (if equal text [] then rest else number (2 ^ 32) bad_pid (trim text))

-- The tries to bind a random port: the n-th one binds, or fails.
unfoldable pub available_port : ℕ → ℕ → (ℕ → Option ℕ) → Outcome LaunchError ℕ
available_port zero n binds = err no_free_port
available_port (suc tries) n binds = or_err (binds n) bind_failed

unfoldable pub get_available_port : (ℕ → Option ℕ) → Outcome LaunchError ℕ
unfolding available_port
get_available_port binds = available_port 100 0 binds
