-- ===== src/Programs/Launch/Commands.antt =====
-- src/bin/mobiletunnel.rs: the command that `main` makes of what the server and the pid file say.
use mobiletunnel.Prelude.{
  ℕ, zero, suc, ◌+◌, ◌^◌, ◌<◌, ◌≡◌, ◌≢◌, ◌∙◌, refl, sym, ap, List, [], ◌∷◌, ◌++◌, append_assoc,
  true, false, Option, none, some, ok, err, All, arith,
}
use mobiletunnel.Text.{Text, codes, split, equal, is_whitespace}
use mobiletunnel.Text.Decimal.{
  to_decimal, parse-to_decimal, to_decimal-solid, to_decimal-other, digits-Begins,
}
use mobiletunnel.Text.Laws.{trim-append, split-append, split-All, split-IsCons}
use mobiletunnel.Programs.Launch.{
  Args, LaunchError, bind_failed, no_free_port, bad_port, bad_pid, or_err, first_word, words,
  server_arg_string, make_pid_file_location, Answer, printed, output, number, find_pid,
  available_port, get_available_port,
}
use mobiletunnel.Programs.Launch.Main.{
  Outside, Target, server_target, check_command, forward, Plan, plan, launch, check_args,
}

pub number-to_decimal :
    (bound n : ℕ) (error : LaunchError)
    → n < bound
    → n < 10 ^ 20
    → number bound error (to_decimal n) ≡ ok n
unfolding number
number-to_decimal bound n error h k = ap (λ o. or_err o error) (parse-to_decimal bound n h k)

-- A print is not empty.
printed_some : (n : ℕ) (s : Text) → equal (to_decimal n ++ s) [] ≡ false
printed_some n s =
    let (c, rest, e, digit) = digits-Begins 19 n in ap (λ (t : Text). equal (t ++ s) []) e

-- The pid, when the tries before the k-th find an empty file.
find_pid-printed :
    (tries n k pid : ℕ) (answers : ℕ → Answer) (blank : Text)
    → k < tries
    → ((i : ℕ) → i < k → answers (n + i) ≡ printed [])
    → answers (n + k) ≡ printed (to_decimal pid ++ blank)
    → All (λ c. is_whitespace c ≡ true) blank
    → pid < 2 ^ 32
    → find_pid tries n answers ≡ ok pid
unfolding find_pid output
find_pid-printed zero n k pid answers blank h before there spaces range = absurd (omega arith)
find_pid-printed (suc tries) n zero pid answers blank h before there spaces range =
    let now : answers n ≡ printed (to_decimal pid ++ blank) = ap answers (omega arith) ∙ there in
    rw
      (
        now,
        printed_some pid blank,
        trim-append (to_decimal pid) blank (to_decimal-solid pid) spaces,
      )
      (number-to_decimal (2 ^ 32) pid bad_pid range (omega arith))
find_pid-printed (suc tries) n (suc k) pid answers blank h before there spaces range =
    let now : answers n ≡ printed [] = ap answers (omega arith) ∙ before 0 (omega arith) in
    rw now (
      find_pid-printed tries (suc n) k pid answers blank (omega arith)
        (λ i. λ lt. ap answers (omega arith) ∙ before (suc i) (omega arith))
        (ap answers (omega arith) ∙ there) spaces range)

-- Words are never without a first one.
first_word-words :
    (base : Text) (more : List Text)
    → (ssh : Text × List Text) × (first_word (words base more) ≡ ok ssh)
      × (words base more ≡ ssh.0 ∷ ssh.1)
unfolding first_word words
first_word-words base more =
    let (p, ps, e) = split-IsCons base b' ' in
    let whole = ap (λ (l : List Text). l ++ more) e in ((p, ps ++ more), ap first_word whole, whole)

-- What the first words of a plan are: those of its text, in order.
abbrev pub command_words : Args → Target → ℕ → ℕ → ℕ → List Text
command_words args target server_port server_pid local_port =
    split args.reconnecting_ssh_base b' '
    ++ (codes "-L localhost:"
        ++ (to_decimal local_port ++ (codes ":localhost:" ++ to_decimal server_port)))
      ∷ args.target_host
      ∷ (target.target_server_prog ++ (codes " check-server-pid " ++ to_decimal server_pid))
      ∷ []

-- If the server prints its port and nothing more, and the pid file holds its pid, with white space behind
-- it or not, at the k-th of the 20 tries and is empty before, the first bind gives a port, and the copy of
-- the program, when there is one, can be made: `main` succeeds, and the ssh that keeps the connection
-- forwards the bound port to the server's and checks the server's pid.
pub launch-printed :
    (args : Args) (out : Outside) (target : Target) (server_port server_pid local_port k : ℕ)
    (blank : Text)
    → server_target args out (
        server_arg_string args.target_port
          (make_pid_file_location out.user out.pid_sample args.copy_self_base).0)
      ≡ ok target
    → out.server ≡ printed (to_decimal server_port)
    → server_port < 2 ^ 16
    → k < 20
    → ((i : ℕ) → i < k → out.pids i ≡ printed [])
    → out.pids k ≡ printed (to_decimal server_pid ++ blank)
    → All (λ c. is_whitespace c ≡ true) blank
    → server_pid < 2 ^ 32
    → out.binds 0 ≡ some local_port
    → (p : Plan) × (launch args out ≡ ok p)
      × (p.local_port ≡ local_port)
      × (p.reconnecting_ssh_command ≡ command_words args target server_port server_pid local_port)
      × (p.server_command ≡ split args.ssh_base b' ' ++ args.target_host ∷ target.command ∷ [])
unfolding launch output get_available_port available_port plan words forward check_command
launch-printed args out target server_port server_pid local_port k blank copied says range tries
      before there spaces range' bound =
    let (ssh, first, whole) = first_word-words args.ssh_base (args.target_host ∷ []) in
    let port = number-to_decimal (2 ^ 16) server_port bad_port range (omega arith) in
    let pid =
      find_pid-printed 20 0 k server_pid out.pids blank tries
        (λ i. λ lt. ap out.pids (omega arith) ∙ before i lt) (ap out.pids (omega arith) ∙ there)
        spaces range' in
    (
      plan args ssh target server_port server_pid local_port,
      rw (first, copied, says, port, pid, bound) refl,
      refl,
      refl,
      ap (λ (l : List Text). l ++ (target.command ∷ [])) (sym whole)
          ∙ append_assoc (split args.ssh_base b' ') _ _,
    )

-- The words of the check, split at blanks, are arguments with which `main` checks the same pid, if the
-- program's name has no blank.
pub check_args-command :
    (prog : Text) (pid : ℕ)
    → All (λ c. c ≢ b' ') prog
    → pid < 2 ^ 32
    → check_args (split (check_command prog pid) b' ') ≡ some (prog, some pid)
unfolding check_args check_command
check_args-command prog pid h range =
    let word = codes "check-server-pid" in
    let plain : split word b' ' ≡ word ∷ [] = refl in
    let pid_plain = to_decimal-other b' ' pid (λ (low, high). absurd (omega arith)) in
    let parts : split (check_command prog pid) b' ' ≡ prog ∷ word ∷ to_decimal pid ∷ [] =
      split-append prog (word ++ (b' ' ∷ to_decimal pid)) b' '
      ∙ ap (◌++ split (word ++ (b' ' ∷ to_decimal pid)) b' ') (split-All prog b' ' h)
      ∙ ap (◌∷◌ prog) (
          split-append word (to_decimal pid) b' '
          ∙ ap (◌∷◌ word) (split-All (to_decimal pid) b' ' pid_plain)) in
    ap check_args parts
    ∙ ap (λ (o : Option ℕ). some (prog, o)) (parse-to_decimal (2 ^ 32) pid range (omega arith))

not_no_port : (o : Option ℕ) → or_err o bind_failed ≢ err no_free_port
not_no_port none = λ e. cc
not_no_port (some port) = λ e. cc

-- Only the first try to bind a port matters: if it fails, that is the result, and the error that no port
-- was found is never returned.
pub get_available_port-first :
    (binds others : ℕ → Option ℕ)
    → binds 0 ≡ others 0
    → (get_available_port binds ≡ get_available_port others)
      × (get_available_port binds ≢ err no_free_port)
unfolding get_available_port available_port
get_available_port-first binds others e = (ap (λ o. or_err o bind_failed) e, not_no_port (binds 0))
