-- ===== src/Programs/Serve/Tests.antt =====
-- src/lib/server.rs: `run_server` at a concrete input.
use mathlib.Core.List.{Memᴰ}
use mobiletunnel.Prelude.{
  ℕ, ◌^◌, ◌<◌, ◌≡◌, refl, [], ◌∷◌, true, false, Option, some, ok, ◌>>=◌, arith,
}
use mobiletunnel.Text.{Text, codes}
use mobiletunnel.Stream.State.{new}
use mobiletunnel.Programs.Processes.{Process}
use mobiletunnel.Programs.Host.{parse_ip_from_uri_host}
use mobiletunnel.Programs.KillOld.{find_match, kill_old, is_killed, exe_matches, is_match, is_user}
use mobiletunnel.Programs.Launch.{bad_port, output, number, printed}
use mobiletunnel.Programs.Join.{start_main}
use mobiletunnel.Programs.Serve.{
  Args, Outside, kill_phase, go_background, daemon_phase, serve_main, with_port, at_address,
  run_server,
}
use mobiletunnel.Programs.Serve.Tells.{run_server-read}

abbrev any_ip : Text → Option ℕ
any_ip text = some 1

abbrev args : Args
args = record {
  bind_ip = codes "127.0.0.1";
  bind_port = 0;
  target_port = 80;
  target_host = codes "localhost";
  daemonize = some (codes "/tmp/mobiletunnel_pid_ann_x");
  kill_old = true;
  logs_location = codes "/var/tmp/mobiletunnel";
  window = 1000;
  kill_old_base = some (codes "mobiletunnel_ann");
}

abbrev server : ℕ → Process
server pid = record {
  pid = pid;
  thread_kind = false;
  exe = some (some (codes "mobiletunnel_ann_a1"));
  user_id = some 1000;
}

abbrev out : Outside
out = record {
  program_args = [];
  has_runtime = true;
  port = some 4567;
  our_pid = some 5;
  our_uid = 1000;
  processes = server 5 ∷ server 7 ∷ [];
  user = some (codes "ann");
  log_created = true;
  daemonizes = true;
  tokio_listens = true;
}

comes_up :
    (run_server any_ip args out 3).end ≡ ok (start_main (new 3 (record { max_window = 1000 })))
unfolding run_server at_address with_port kill_phase find_match daemon_phase go_background
    serve_main parse_ip_from_uri_host
comes_up = refl

old_killed : (run_server any_ip args out 3).killed ≡ 7 ∷ []
unfolding run_server at_address with_port kill_phase find_match kill_old is_killed exe_matches
    is_match is_user parse_ip_from_uri_host
old_killed = refl

in_range : (port : ℕ) → out.port ≡ some port → port < 2 ^ 16
in_range port e = let same : 4567 ≡ port = cc in omega arith

run_server-read_example :
    (port : ℕ) × (text : Text) × (out.port ≡ some port)
    × ((run_server any_ip args out 3).printed ≡ some text)
    × ((output (printed text) >>= number (2 ^ 16) bad_port) ≡ ok port)
    × ((pid : ℕ) × (out.our_pid ≡ some pid) × ¬ (Memᴰ pid (run_server any_ip args out 3).killed))
run_server-read_example =
    run_server-read any_ip args out 3 (start_main (new 3 (record { max_window = 1000 })))
      (codes "/tmp/mobiletunnel_pid_ann_x") refl comes_up in_range
