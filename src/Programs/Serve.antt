-- ===== src/Programs/Serve.antt =====
-- src/lib/server.rs: `run_server`: it binds its port, kills older servers, tells its port, goes into the
-- background, and runs `tokio_main`.
pub mod Tells
mod Tests
use mobiletunnel.Prelude.{
  ℕ, ◌≡◌, List, [], ◌∷◌, ◌++◌, Bool, true, false, Option, none, some, Outcome, ok, err, panic,
  ◌>>=◌, if◌then◌else◌,
}
use mobiletunnel.Text.{Text, codes}
use mobiletunnel.Text.Decimal.{to_decimal}
use mobiletunnel.Stream.State.{StreamOptions, new}
use mobiletunnel.Programs.Processes.{Process}
use mobiletunnel.Programs.Host.{parse_ip_from_uri_host}
use mobiletunnel.Programs.KillOld.{MatchError, Match, find_match, kill_old}
use mobiletunnel.Programs.Join.{ServerMain, start_main}

pub record Args : Type 0 where
  pub bind_ip : Text
  pub bind_port : ℕ
  pub target_port : ℕ
  pub target_host : Text
  pub daemonize : Option Text
  pub kill_old : Bool
  pub logs_location : Text
  pub window : ℕ
  pub kill_old_base : Option Text

pub data ServeError : Type 0 where
  bad_address no_runtime cannot_bind no_current_pid cannot_daemonize no_tokio_listener : ServeError
  no_match : MatchError → ServeError

-- What `run_server` meets: `port` is that of the bound listener, and `log_created` whether the file for
-- stderr can be made.
pub record Outside : Type 0 where
  pub program_args : List Text
  pub has_runtime : Bool
  pub port : Option ℕ
  pub our_pid : Option ℕ
  pub our_uid : ℕ
  pub processes : List Process
  pub user : Option Text
  pub log_created : Bool
  pub daemonizes : Bool
  pub tokio_listens : Bool

-- `ok_or`, and a failure that `?` passes on.
abbrev pub or_error {ℓ} : {A : Type ℓ} → Option A → ServeError → Outcome ServeError A
or_error none e = err e
or_error (some x) e = ok x

abbrev pub check : Bool → ServeError → Outcome ServeError (Unit {0})
check holds e = if holds then ok tt else err e

abbrev pub matched : Outcome MatchError Match → Outcome ServeError Match
matched (ok m) = ok m
matched (err e) = err (no_match e)
matched panic = panic

-- With `--kill-old`: the pids that are killed.
unfoldable pub kill_phase : Args → Outside → Outcome ServeError (List ℕ)
unfolding find_match kill_old
kill_phase args out =
    let killed = (do
      m ← matched (find_match args.kill_old_base out.program_args)
      our_pid ← or_error out.our_pid no_current_pid
      ok (kill_old m our_pid out.our_uid out.processes)) in
    if args.kill_old then killed else ok []

-- What was said and made on the way into the background, and how that ended.
pub record Daemon : Type 0 where
  pub printed : Option Text
  pub stderr_log : Option Text
  pub end : Outcome ServeError (Unit {0})

abbrev says_nothing : Outcome ServeError (Unit {0}) → Daemon
says_nothing end = record { printed = none; stderr_log = none; end = end }

abbrev user_name : Option Text → Text
user_name none = codes "nouser"
user_name (some user) = user

unfoldable pub log_name : Args → Option Text → ℕ → Text
log_name args user our_pid =
    args.logs_location
    ++ (codes "_" ++ (user_name user ++ (codes "_" ++ (to_decimal our_pid ++ codes "_stderr.log"))))

-- With a path for the pid file. A log file that cannot be made is a panic.
unfoldable pub go_background : Args → Outside → ℕ → Option ℕ → Daemon
unfolding log_name
go_background args out port none = says_nothing (err no_current_pid)
go_background args out port (some our_pid) =
    if out.log_created
    then record {
      printed = some (to_decimal port);
      stderr_log = some (log_name args out.user our_pid);
      end = check out.daemonizes cannot_daemonize;
    }
    else says_nothing panic

unfoldable pub daemon_phase : Args → Outside → ℕ → Option Text → Daemon
unfolding go_background
daemon_phase args out port none = says_nothing (ok tt)
daemon_phase args out port (some path) = go_background args out port out.our_pid

-- The pids that were killed, what was printed, the file for stderr and the one for the pid, and the start
-- of `tokio_main`.
pub record Served : Type 0 where
  pub killed : List ℕ
  pub printed : Option Text
  pub stderr_log : Option Text
  pub end : Outcome ServeError ServerMain

abbrev pub fails : ServeError → Served
fails e = record { killed = []; printed = none; stderr_log = none; end = err e }

module _ {ℓ} {IpAddr : Type ℓ} (parse_ip : Text → Option IpAddr) where
  -- The start of `tokio_main`, which parses the address once more, at the id that is drawn.
  unfoldable pub serve_main : Args → Outside → ℕ → Outcome ServeError ServerMain
  unfolding start_main
  serve_main args out id = do
    listening ← check out.tokio_listens no_tokio_listener
    address ← or_error (parse_ip_from_uri_host parse_ip args.bind_ip) bad_address
    ok (start_main (new id (record { max_window = args.window })))

  unfoldable pub with_port : Args → Outside → ℕ → ℕ → Outcome ServeError (List ℕ) → Served
  unfolding daemon_phase serve_main
  with_port args out id port (err e) = fails e
  with_port args out id port panic = record {
    killed = [];
    printed = none;
    stderr_log = none;
    end = panic;
  }
  with_port args out id port (ok killed) =
      let daemon = daemon_phase args out port args.daemonize in
      record {
        killed = killed;
        printed = daemon.printed;
        stderr_log = daemon.stderr_log;
        end = daemon.end >>= λ done. serve_main args out id;
      }

  abbrev pub at_port : Args → Outside → ℕ → Option ℕ → Served
  at_port args out id none = fails cannot_bind
  at_port args out id (some port) = with_port args out id port (kill_phase args out)

  unfoldable pub at_address : Args → Outside → ℕ → Option IpAddr → Served
  unfolding with_port kill_phase
  at_address args out id none = fails bad_address
  at_address args out id (some address) =
      if out.has_runtime then at_port args out id out.port else fails no_runtime

  unfoldable pub run_server : Args → Outside → ℕ → Served
  unfolding at_address
  run_server args out id = at_address args out id (parse_ip_from_uri_host parse_ip args.bind_ip)
