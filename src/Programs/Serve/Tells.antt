-- ===== src/Programs/Serve/Tells.antt =====
-- src/lib/server.rs and src/bin/mobiletunnel.rs: what a server in the background has told and killed, and the
-- port that `main` reads of it.
use mathlib.Core.List.{Memᴰ}
use mathlib.Core.List.Memᴰ
use mathlib.Core.Path.{subst}
use mobiletunnel.Prelude.{
  ℕ, ◌^◌, ◌<◌, ◌≡◌, refl, sym, inl, inr, List, [], Option, none, some, Outcome, ok, err, panic,
  ◌>>=◌, arith, Bool-cases,
}
use mobiletunnel.Text.{Text}
use mobiletunnel.Text.Decimal.{to_decimal}
use mobiletunnel.Programs.KillOld.{MatchError, Match, find_match, kill_old}
use mobiletunnel.Programs.KillOld.Victims.{kill_old-IsVictim}
use mobiletunnel.Programs.Join.{ServerMain}
use mobiletunnel.Programs.Launch.{bad_port, output, number, printed}
use mobiletunnel.Programs.Launch.Commands.{number-to_decimal}
use mobiletunnel.Programs.Serve.{
  Args, Outside, ServeError, no_current_pid, no_runtime, at_address, at_port, or_error, matched,
  kill_phase, go_background, daemon_phase, Served, with_port, run_server, serve_main,
}

abbrev failing : ServeError → Outcome ServeError ServerMain
failing e = err e

abbrev killing : List ℕ → Outcome ServeError (List ℕ)
killing pids = ok pids

module _ (args : Args) (out : Outside) where
  kill_from : Outcome MatchError Match → Outcome ServeError (List ℕ)
  kill_from r = do
    m ← matched r
    our_pid ← or_error out.our_pid no_current_pid
    ok (kill_old m our_pid out.our_uid out.processes)

  -- The own pid is not among the victims.
  not_killed :
      (r : Outcome MatchError Match) (pid : ℕ) (killed : List ℕ)
      → out.our_pid ≡ some pid
      → kill_from r ≡ ok killed
      → Memᴰ pid killed
      → ⊥
  unfolding kill_from
  not_killed (err e) pid killed own h there = cc
  not_killed panic pid killed own h there = cc
  not_killed (ok m) pid killed own h there =
      let same : killing (kill_old m pid out.our_uid out.processes) ≡ killing killed =
        rw own at h in
      let list : kill_old m pid out.our_uid out.processes ≡ killed = cc in
      let (p, inside, e, v) =
        (kill_old-IsVictim m pid out.our_uid pid out.processes).0
          (subst (Memᴰ pid) (sym list) there) in
      v.other e

  kill_phase-own :
      (pid : ℕ) (killed : List ℕ)
      → out.our_pid ≡ some pid
      → kill_phase args out ≡ ok killed
      → Memᴰ pid killed
      → ⊥
  unfolding kill_phase
  kill_phase-own pid killed own h there = elim (Bool-cases args.kill_old) [
    | inl on ↦
        not_killed (find_match args.kill_old_base out.program_args) pid killed own
          (unfold kill_from in (rw on at h)) there
    | inr off ↦
        let none_killed : killing [] ≡ killing killed = rw off at h in
        let empty : [] ≡ killed = cc in Memᴰ.not-nil (subst (Memᴰ pid) (sym empty) there)
  ]

  -- Into the background only with the port printed, by a process that knows its pid.
  go_background-printed :
      (port : ℕ) (o : Option ℕ) (f : Unit {0} → Outcome ServeError ServerMain) (start : ServerMain)
      → (go_background args out port o).end >>= f ≡ ok start
      → ((go_background args out port o).printed ≡ some (to_decimal port))
        × ((pid : ℕ) × (o ≡ some pid))
  unfolding go_background
  go_background-printed port none f start h = cc
  go_background-printed port (some pid) f start h = elim (Bool-cases out.log_created) [
    | inl on ↦ (rw on refl, (pid, refl))
    | inr off ↦ absurd (let no_start : panic ≡ ok start = rw off at h in cc)
  ]

-- The server runs in the background behind `tokio_main`'s start.
abbrev pub Told : Outside → ℕ → Served → Type 0
Told out port served =
    (served.printed ≡ some (to_decimal port))
    × ((pid : ℕ) × (out.our_pid ≡ some pid) × ¬ (Memᴰ pid served.killed))

module _ {ℓ} {IpAddr : Type ℓ} (parse_ip : Text → Option IpAddr) (args : Args) (out : Outside)
    (id : ℕ) (start : ServerMain) (path : Text) (in_background : args.daemonize ≡ some path) where
  with_port-Told :
      (port : ℕ) (k : Outcome ServeError (List ℕ))
      → kill_phase args out ≡ k
      → (with_port parse_ip args out id port k).end ≡ ok start
      → Told out port (with_port parse_ip args out id port k)
  unfolding with_port
  with_port-Told port (err e) p h = cc
  with_port-Told port panic p h = cc
  with_port-Told port (ok killed) p h =
      let started = rw in_background at h in
      let (said, (pid, own)) =
        go_background-printed args out port out.our_pid (λ done. serve_main parse_ip args out id)
          start (unfold daemon_phase in started) in
      (
        rw in_background (unfold daemon_phase in said),
        (pid, own, kill_phase-own args out pid killed own p),
      )

  -- What `main` reads of what was printed.
  port_read :
      (port : ℕ) (served : Served)
      → port < 2 ^ 16
      → Told out port served
      → (text : Text) × (served.printed ≡ some text)
        × ((output (printed text) >>= number (2 ^ 16) bad_port) ≡ ok port)
  unfolding output
  port_read port served range (said, own) =
      (to_decimal port, said, number-to_decimal (2 ^ 16) port bad_port range (omega arith))

  at_port-Told :
      (o : Option ℕ)
      → (at_port parse_ip args out id o).end ≡ ok start
      → (port : ℕ) × (o ≡ some port) × Told out port (at_port parse_ip args out id o)
  at_port-Told none h = cc
  at_port-Told (some port) h = (port, refl, with_port-Told port (kill_phase args out) refl h)

  at_address-Told :
      (o : Option IpAddr)
      → (at_address parse_ip args out id o).end ≡ ok start
      → (port : ℕ) × (out.port ≡ some port) × Told out port (at_address parse_ip args out id o)
  unfolding at_address
  at_address-Told none h = cc
  at_address-Told (some address) h = elim (Bool-cases out.has_runtime) [
    | inl on ↦ rw on (at_port-Told out.port (rw on at h))
    | inr off ↦ absurd (let no_start : failing no_runtime ≡ ok start = rw off at h in cc)
  ]

  -- A server that comes to `tokio_main` with a path for its pid file, over any parser of addresses: it has
  -- bound a port and printed it, so that `main`, which is given the print, reads this very port; and it is
  -- not among the processes that it killed.
  pub run_server-read :
      (run_server parse_ip args out id).end ≡ ok start
      → ((port : ℕ) → out.port ≡ some port → port < 2 ^ 16)
      → (port : ℕ) × (text : Text) × (out.port ≡ some port)
        × ((run_server parse_ip args out id).printed ≡ some text)
        × ((output (printed text) >>= number (2 ^ 16) bad_port) ≡ ok port)
        × ((pid : ℕ) × (out.our_pid ≡ some pid)
            × ¬ (Memᴰ pid (run_server parse_ip args out id).killed))
  unfolding run_server
  run_server-read end range =
      let (port, there, (said, own)) = at_address-Told _ end in
      let (text, said', read) =
        port_read port (run_server parse_ip args out id) (range port there) (said, own) in
      (port, text, there, said', read, own)
