-- ===== src/Programs/Tests.antt =====
-- src/lib/server.rs, src/lib/server_check_port.rs and src/bin/mobiletunnel.rs: runs at concrete inputs.
use mathlib.Core.List.{Memᴰ}
use mobiletunnel.Prelude.{
  ℕ, ◌≡◌, ◌≢◌, ◌↔◌, refl, List, [], ◌∷◌, ◌++◌, true, false, Option, none, some, ok, map, All,
  All-map, arith, ◌==◌, if◌then◌else◌,
}
use mobiletunnel.Text.{Text, codes, equal}
use mobiletunnel.Programs.Host.{parse_ip_from_uri_host, parse_ip_from_uri_host-some}
use mobiletunnel.Programs.Processes.{Process}
use mobiletunnel.Programs.KillOld.{Match, find_match, kill_old, exe_matches}
use mobiletunnel.Programs.KillOld.Victims.{IsVictim, kill_old-IsVictim}
use mobiletunnel.Programs.Check.{
  run_check_server_port, check_server_port, process_matches, names_match, abs_path,
}
use mobiletunnel.Programs.Ssh.{
  line, exited, cancelled, ends, returned, server_died, run_ssh, SshRound, run_ssh_loop, finished,
}
use mobiletunnel.Programs.Ssh.Ends.{run_ssh-check, run_ssh_loop-restarts}
use mobiletunnel.Programs.Ssh.Deleted.{run_ssh-deleted}
use mobiletunnel.Programs.Launch.{make_self_location, make_location}
use mobiletunnel.Programs.Launch.Locations.{
  IsPlain, all_plain, IsPlain-All, in_place, make_self_location-IsVictim,
}
use mobiletunnel.Multiplexer.Flow.{taken}
use mobiletunnel.Multiplexer.Server.{from_channel, new_multiplexer, step, step_running}
use mobiletunnel.Stream.State.{StreamState, new}
use mobiletunnel.Stream.State.{make_hello, ack}
use mobiletunnel.Stream.Codec as Codec
use mobiletunnel.Stream.Session as Stream
use mobiletunnel.Stream.Wire.Joins.{breaks}
use mobiletunnel.Stream.Runner.{call, call_step, newest}
use mobiletunnel.Stream.Runner.Tasks.{
  joins, accepts, can_send, serves, in_stream, runner_cancelled, listen_cancelled, start_server,
  server_step, send_socket, on_recv, on_stream,
}
use mobiletunnel.Programs.Join.Held.{tokio_main_held}
use mobiletunnel.Programs.Join.{
  MainEvent, of_multiplexer, of_tasks, start_main, cancel_on_end, main_step, tokio_main,
  join_returns,
}
use mobiletunnel.Programs.Join.Stops.{one_ended, tokio_main-join_returns}

no_blank : (s : Text) → all_plain s ≡ true → All (λ c. c ≢ b' ') s
no_blank s h = All-map IsPlain (λ c. c ≢ b' ') s (λ c. λ p. p.1) (IsPlain-All s h)

abbrev ann : Option Text
ann = some (codes "ann")

-- The server that runs, one that an earlier run left, and a process of another user.
abbrev own : Process
own = record {
  pid = 5;
  thread_kind = false;
  exe = some (some (codes "mobiletunnel_ann_b2"));
  user_id = some 1000;
}

abbrev old : Process
old = record {
  pid = 7;
  thread_kind = false;
  exe = some (some (codes "mobiletunnel_ann_a1"));
  user_id = some 1000;
}

abbrev stranger : Process
stranger = record {
  pid = 8;
  thread_kind = false;
  exe = some (some (codes "bash"));
  user_id = some 1001;
}

abbrev processes : List Process
processes = stranger ∷ own ∷ old ∷ []

abbrev ann_match : Match
ann_match = record { match_str = codes "mobiletunnel_ann"; match_whole = false }

kill_old-IsVictim_example :
    Memᴰ 7 (kill_old ann_match 5 1000 processes)
    ↔ ((p : Process) × Memᴰ p processes × (p.pid ≡ 7) × IsVictim ann_match 5 1000 p)
kill_old-IsVictim_example = kill_old-IsVictim ann_match 5 1000 7 processes

make_self_location-IsVictim_example :
    (m : Match) × (find_match (some (make_self_location ann (codes "b2") (codes "/tmp/")).1) []
      ≡ ok m)
    × Memᴰ 7 (kill_old m 5 1000 processes)
unfolding make_self_location make_location
make_self_location-IsVictim_example =
    make_self_location-IsVictim ann (codes "a1") (codes "/tmp/") (codes "b2") (codes "/tmp/") [] 5
      1000 old processes (IsPlain-All (codes "ann") refl) (IsPlain-All (codes "a1") refl)
      (in_place (codes "mobiletunnel_ann_a1") refl refl) (λ e. absurd (omega arith)) refl refl
      (Memᴰ.tail (Memᴰ.tail (Memᴰ.head refl)))

-- The server is there in the first round, and not in the second one.
abbrev rounds : List (List Process)
rounds = processes ∷ (stranger ∷ []) ∷ []

run_ssh-check_example :
    run_ssh (map line (run_check_server_port (codes "/tmp/mobiletunnel_ann_b2") 5 0 rounds))
    ≡ ends (returned server_died)
unfolding check_server_port process_matches names_match abs_path
run_ssh-check_example = run_ssh-check (codes "/tmp/mobiletunnel_ann_b2") 5 0 rounds

abbrev replaced : Process
replaced = record own { exe = some (some (codes "mobiletunnel_ann_b2 (deleted)")) }

run_ssh-deleted_example :
    (exe_matches
        (record { match_str = codes "mobiletunnel_ann_b2"; match_whole = true })
        replaced.exe
      ≡ true)
    × (run_ssh (
          map line (
            run_check_server_port
              (codes "./mobiletunnel_ann_b2")
              5
              3
              ((stranger ∷ replaced ∷ old ∷ []) ∷ [])))
        ≡ ends (returned server_died))
run_ssh-deleted_example =
    run_ssh-deleted (codes "./mobiletunnel_ann_b2") (codes "mobiletunnel_ann_b2") 3 (stranger ∷ [])
      (old ∷ []) replaced (no_blank (codes "mobiletunnel_ann_b2") refl) refl refl
      ((λ e. absurd (omega arith)), tt)

-- The token is cancelled in the second round: ssh is killed and ends.
abbrev ssh_dies : SshRound
ssh_dies = record { is_cancelled = false; events = cancelled ∷ exited ∷ []; respawn = true }

abbrev stop : SshRound
stop = record { is_cancelled = true; events = []; respawn = true }

run_ssh_loop-restarts_example :
    run_ssh_loop true (ssh_dies ∷ stop ∷ []) ≡ record { spawned = 2; loop_end = finished }
unfolding run_ssh
run_ssh_loop-restarts_example =
    run_ssh_loop-restarts (ssh_dies ∷ []) stop
      (record { going_on = refl; died = refl; restarts = refl }, tt) refl

-- A parser that takes one address.
abbrev parse_one : Text → Option ℕ
parse_one [] = none
parse_one (c ∷ s) =
    if c == b'[' then none else (if equal (c ∷ s) (codes "::1") then some 1 else none)

parse_ip_from_uri_host-some_example :
    (parse_ip_from_uri_host parse_one (codes "::1") ≡ some 1)
    × (parse_ip_from_uri_host parse_one (codes "[::1]") ≡ some 1)
parse_ip_from_uri_host-some_example =
    parse_ip_from_uri_host-some parse_one (λ s. refl) (codes "::1") 1 refl

-- Two sockets, and the end of the other application's channel.
abbrev main_events : List MainEvent
main_events =
    of_tasks (accepts 1)
    ∷ of_tasks can_send
    ∷ of_tasks (accepts 2)
    ∷ of_multiplexer (from_channel none (λ n. taken))
    ∷ []

abbrev state : StreamState
state = new 1 (record { max_window = 100 })

main_events-ended : one_ended (tokio_main (start_main state) main_events) ≡ true
unfolding tokio_main main_step cancel_on_end start_main start_server new_multiplexer step
    step_running server_step send_socket
main_events-ended = refl

tokio_main-join_returns_example :
    ((tokio_main (start_main state) main_events).interrupt ≡ true)
    × ((later : List MainEvent) × (join_returns
            (tokio_main (start_main state) (main_events ++ later))
          ≡ true))
tokio_main-join_returns_example = tokio_main-join_returns state main_events main_events-ended

-- A peer says hello twice; then the multiplexer ends, and the token is cancelled.
abbrev its_hello : Stream.Event
its_hello = Stream.tcp_rx (some (Codec.hello (record { sender_id = 2; sender_last_rx = 0 })))

abbrev greeted : Stream.Session
greeted = Stream.step (Stream.start true state) its_hello

abbrev hello_twice : List MainEvent
hello_twice =
    of_tasks (accepts 1)
    ∷ of_tasks can_send
    ∷ of_tasks (serves true)
    ∷ of_tasks (in_stream its_hello)
    ∷ of_tasks (in_stream its_hello)
    ∷ []

abbrev behind_break : Stream.Session
behind_break = Stream.step greeted its_hello

hello_twice-joins : (tokio_main (start_main state) hello_twice).tasks.runner ≡ joins behind_break
unfolding tokio_main main_step cancel_on_end start_main start_server new_multiplexer server_step
    send_socket on_recv on_stream call call_step newest breaks Stream.start Stream.step
    Stream.step_in Stream.step_waiting Stream.step_looping Stream.on_first Stream.on_hello
    Stream.is_stranger Stream.on_tcp Stream.resend Stream.leave make_hello ack new
hello_twice-joins = refl

abbrev cancelling : List MainEvent
cancelling =
    of_multiplexer (from_channel none (λ n. taken))
    ∷ of_tasks runner_cancelled
    ∷ of_tasks listen_cancelled
    ∷ []

tokio_main_held_example :
    ((tokio_main (tokio_main (start_main state) hello_twice) cancelling).tasks.runner
      ≡ joins behind_break)
    × (join_returns (tokio_main (tokio_main (start_main state) hello_twice) cancelling) ≡ false)
tokio_main_held_example =
    tokio_main_held behind_break (tokio_main (start_main state) hello_twice) cancelling
      hello_twice-joins (λ e. cc, (λ e. cc, (λ e. cc, tt)))
