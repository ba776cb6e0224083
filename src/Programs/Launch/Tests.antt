-- ===== src/Programs/Launch/Tests.antt =====
-- src/bin/mobiletunnel.rs: `main` at concrete inputs.
use mobiletunnel.Prelude.{
  ℕ, ◌≡◌, ◌≢◌, refl, [], ◌∷◌, ◌++◌, false, Option, none, some, ok, err, arith, ◌==◌, ◌<◌,
  if◌then◌else◌,
}
use mobiletunnel.Text.{Text, codes}
use mobiletunnel.Programs.Launch.{
  Args, Answer, printed, get_available_port, no_free_port, server_arg_string,
  make_pid_file_location,
}
use mobiletunnel.Programs.Launch.Main.{Outside, Target, server_target, Plan, launch}
use mobiletunnel.Programs.Launch.Commands.{command_words, launch-printed, get_available_port-first}

abbrev ann : Option Text
ann = some (codes "ann")

abbrev args : Args
args = record {
  target_port = 80;
  target_host = codes "host";
  server_command = codes "mobiletunnel_server";
  ssh_base = codes "ssh -q";
  reconnecting_ssh_base = codes "ssh -o ServerAliveInterval=2";
  scp_base = codes "scp";
  copy_self = false;
  copy_self_base = codes "/tmp/";
  window = 1000;
  debug_server = false;
}

abbrev answers : ℕ → Answer
answers n = if n == 0 then printed [] else printed (codes "42\n")

abbrev out : Outside
out = record {
  user = ann;
  pid_sample = codes "a1";
  self_sample = codes "b2";
  current_exe = none;
  copied = Answer.no_run;
  server = printed (codes "4567");
  pids = answers;
  binds = λ n. some 25000;
}

abbrev target : Target
target = record {
  target_server_prog = codes "mobiletunnel_server";
  command =
      codes "mobiletunnel_server "
      ++ server_arg_string 80 (make_pid_file_location ann (codes "a1") (codes "/tmp/")).0;
}

empty_before : (i : ℕ) → i < 1 → answers i ≡ printed []
empty_before i h = ground arith

launch-printed_example :
    (p : Plan) × (launch args out ≡ ok p)
    × (p.local_port ≡ 25000)
    × (p.reconnecting_ssh_command ≡ command_words args target 4567 42 25000)
    × (p.server_command ≡ codes "ssh" ∷ codes "-q" ∷ codes "host" ∷ target.command ∷ [])
unfolding server_target
launch-printed_example =
    launch-printed args out target 4567 42 25000 1 (codes "\n") refl refl (omega arith)
      (omega arith) empty_before refl (refl, tt) (omega arith) refl

get_available_port-first_example :
    (get_available_port out.binds ≡ get_available_port (λ n. if n == 0 then some 25000 else none))
    × (get_available_port out.binds ≢ err no_free_port)
get_available_port-first_example =
    get_available_port-first out.binds (λ n. if n == 0 then some 25000 else none) refl
