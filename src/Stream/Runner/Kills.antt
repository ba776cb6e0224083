-- ===== src/Stream/Runner/Kills.antt =====
-- src/lib/reconnecting_stream.rs: what the cancelled token does to a call of `run_stream`.
use mobiletunnel.Prelude.{◌≡◌, refl, true, false}
use mobiletunnel.Stream.Session.{
  Session, Phase, awaiting_hello, looping, returned, crashed, killed, step, step_in, step_waiting,
  step_looping, leave,
}
use mobiletunnel.Stream.Runner.{Call, inside, in_joins, left, panicked, call_in, call_step}

-- A session that is killed leaves `run_stream` without a join.
abbrev pub Leaves : Call → Type 0
Leaves (inside s) = true ≡ false
Leaves (in_joins s) = true ≡ false
Leaves (left state) = Unit {0}
Leaves panicked = Unit {0}

pub killed-Leaves : (s : Session) → Leaves (call_step s killed)
unfolding call_step step step_in step_waiting step_looping leave
killed-Leaves s = by_phase s.phase refl
  where
    by_phase :
        (p : Phase)
        → s.phase ≡ p
        → Leaves (call_in s killed (step_in p s killed) (step_in p s killed).phase)
    by_phase awaiting_hello e = rw e tt
    by_phase looping e = rw e tt
    by_phase returned e = rw e tt
    by_phase crashed e = rw e tt
