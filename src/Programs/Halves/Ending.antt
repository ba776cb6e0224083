-- ===== src/Programs/Halves/Ending.antt =====
-- src/lib/client.rs: how `run_client` ends when its token is cancelled.
use mobiletunnel.Prelude.{◌≡◌, ◌≢◌, ◌∙◌, refl, sym, ap, List, [], ◌∷◌, Bool, true, false, ok}
use mobiletunnel.Stream.State.{StreamState}
use mobiletunnel.Stream.Session.{killed}
use mobiletunnel.Stream.Runner.{
  cancelled, wait_step, Call, inside, in_joins, left, panicked, call_step,
}
use mobiletunnel.Stream.Runner.Kills.{Leaves, killed-Leaves}
use mobiletunnel.Multiplexer.Server.{
  client, Multiplexer, Status, stopped_ok, crashed, out_of_fuel, stopped_err, interrupted, step,
  step_in, step_running,
}
use mobiletunnel.Multiplexer.Server as Server
use mobiletunnel.Programs.Client.{
  ClientError, ClientMain, ClientEvent, cancels, of_multiplexer, of_stream, StreamTask, at_top,
  waiting, done, within, joining, turns, in_stream, tasks_end, in_wait, task_after, on_turn,
  on_wait, stream_step, client_step, client_result, wait_for,
}
use mobiletunnel.Programs.Client as Client
use mobiletunnel.Programs.Halves.{client_ended, is_some}

-- With the token cancelled, the multiplexer ends, and then the stream's task: the token ends a call of
-- `run_stream`, but where that is in its joins the tasks of the connection must end; it ends the wait; and the
-- task returns at the top of its loop.
abbrev pub client_stops : List ClientEvent
client_stops =
    cancels
    ∷ of_multiplexer interrupted
    ∷ of_stream (in_stream killed)
    ∷ of_stream tasks_end
    ∷ of_stream (in_wait cancelled)
    ∷ of_stream (turns false false)
    ∷ []

abbrev behind_call : ClientMain → ClientMain
behind_call c =
    client_step (client_step (client_step c (of_stream tasks_end)) (of_stream (in_wait cancelled)))
      (of_stream (turns false false))

abbrev pub client_stopped : ClientMain → ClientMain
client_stopped c = behind_call (
    client_step (client_step (client_step c cancels) (of_multiplexer interrupted))
      (of_stream (in_stream killed)))

-- The stream's task has returned or panicked, with this multiplexer.
abbrev is_over : StreamTask → Bool
is_over at_top = false
is_over waiting = false
is_over (within s) = false
is_over (joining s) = false
is_over done = true
is_over Client.broken = true

abbrev Over : Multiplexer → ClientMain → Type 0
Over m c = (c.multiplexer ≡ m) × (is_over c.task ≡ true)

abbrev told : Multiplexer → StreamState → StreamTask → ClientMain
told m state task = record { multiplexer = m; stream = state; task = task; interrupt = true }

behind_call-Over :
    (m : Multiplexer) (state : StreamState) (task : StreamTask) (c : Call)
    → Leaves c
    → Over m (behind_call (task_after (told m state task) c))
unfolding client_step stream_step on_wait wait_step on_turn
behind_call-Over m state task (inside s) h = absurd cc
behind_call-Over m state task (in_joins s) h = absurd cc
behind_call-Over m state task (left state') h = (refl, refl)
behind_call-Over m state task panicked h = (refl, refl)

task-Over :
    (m : Multiplexer) (state : StreamState) (task : StreamTask)
    → Over m (behind_call (client_step (told m state task) (of_stream (in_stream killed))))
unfolding client_step stream_step on_wait wait_step on_turn
task-Over m state at_top = (refl, refl)
task-Over m state waiting = (refl, refl)
task-Over m state done = (refl, refl)
task-Over m state Client.broken = (refl, refl)
task-Over m state (joining s) = (refl, refl)
task-Over m state (within s) =
    behind_call-Over m state (within s) (call_step s killed) (killed-Leaves s)

task_ended :
    (s : Status) (k : StreamTask)
    → s ≢ Server.running
    → is_over k ≡ true
    → is_some (client_result s k) ≡ true
unfolding client_result
task_ended Server.running k h e = absurd (h refl)
task_ended crashed k h e = refl
task_ended out_of_fuel k h e = refl
task_ended (stopped_err x) k h e = refl
task_ended stopped_ok done h e = refl
task_ended stopped_ok Client.broken h e = refl
task_ended stopped_ok at_top h e = absurd cc
task_ended stopped_ok waiting h e = absurd cc
task_ended stopped_ok (within s) h e = absurd cc
task_ended stopped_ok (joining s) h e = absurd cc

interrupted-ended : (m : Multiplexer) → (step client m interrupted).status ≢ Server.running
unfolding step step_running
interrupted-ended m = by_status m.status refl
  where
    by_status :
        (s : Status) → m.status ≡ s → (step_in s client m interrupted).status ≢ Server.running
    by_status Server.running e = λ h. cc
    by_status stopped_ok e = λ h. cc
    by_status crashed e = λ h. cc
    by_status out_of_fuel e = λ h. cc
    by_status (stopped_err x) e = λ h. cc

pub client_stopped-ended : (c : ClientMain) → client_ended (ok (client_stopped c)) ≡ true
unfolding client_step
client_stopped-ended c =
    let m = step client c.multiplexer interrupted in
    let (same, over) = task-Over m c.stream c.task in
    let v = client_stopped c in
    task_ended v.multiplexer.status v.task
      (λ h. interrupted-ended c.multiplexer (sym (ap (λ (n : Multiplexer). n.status) same) ∙ h))
      over
