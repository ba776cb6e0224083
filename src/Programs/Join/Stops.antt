-- ===== src/Programs/Join/Stops.antt =====
-- src/lib/server.rs and src/lib/reconnecting_stream.rs: when one half of the server ends, both do.
use mobiletunnel.Prelude.{
  ◌≡◌, ◌∙◌, refl, ap, List, [], ◌∷◌, Bool, true, false, ◌&&◌, ◌||◌, not, if◌then◌else◌,
  Option-cases, map, ◌++◌, Bool-cases, inl, inr,
}
use mobiletunnel.Stream.State.{StreamState}
use mobiletunnel.Stream.Session.{killed}
use mobiletunnel.Stream.Runner.Kills.{Leaves, killed-Leaves}
use mobiletunnel.Stream.Runner.{Call, inside, in_joins, left, panicked, call_step}
use mobiletunnel.Stream.Runner.Tasks.{
  ServerEvent, listen_cancelled, can_send, runner_cancelled, tasks_end, Place, waits, gone, serving,
  joins, is_gone, ServerTasks, start_server, send_socket, runner_to, on_stream, on_cancel,
  server_step, server_tasks,
}
use mobiletunnel.Multiplexer.Server.{
  server, Multiplexer, new_multiplexer, Status, running, stopped_ok, crashed, out_of_fuel,
  stopped_err, Event, interrupted, step, step_in, step_running,
}
use mobiletunnel.Programs.Join.{
  ServerMain, has_ended, tasks_ended, MainEvent, of_multiplexer, of_tasks, start_main,
  cancel_on_end, main_step, tokio_main, join_returns, is_cancel, is_interrupt,
}

-- The cancelled token ends the multiplexer.
interrupted-ended : (m : Multiplexer) → has_ended (step server m interrupted).status ≡ true
unfolding step step_running
interrupted-ended m = by_status m.status refl
  where
    by_status :
        (s : Status) → m.status ≡ s → has_ended (step_in s server m interrupted).status ≡ true
    by_status running e = refl
    by_status stopped_ok e = ap has_ended e
    by_status crashed e = ap has_ended e
    by_status out_of_fuel e = ap has_ended e
    by_status (stopped_err x) e = ap has_ended e

-- The steps that end the two tasks, from any state, also when the listener waits for room in the channel:
-- where the runner is in a call of `run_stream`, the token ends that; where it waits in the joins of one, the
-- tasks of the connection must end.
abbrev runner_stops : List ServerEvent
runner_stops = runner_cancelled ∷ tasks_end ∷ runner_cancelled ∷ []

abbrev listener_stops : List ServerEvent
listener_stops = can_send ∷ listen_cancelled ∷ []

runner_stops-gone : (t : ServerTasks) → is_gone (server_tasks t runner_stops).runner ≡ true
unfolding server_tasks server_step on_stream
runner_stops-gone t = by_place t.runner refl
  where
    cancelled : ServerTasks → ServerTasks
    cancelled u = server_step (server_step u tasks_end) runner_cancelled

    by_call : (c : Call) → Leaves c → is_gone (cancelled (runner_to t c)).runner ≡ true
    by_call (inside s) h = absurd cc
    by_call (in_joins s) h = absurd cc
    by_call (left state) h = refl
    by_call panicked h = refl

    by_place : (p : Place) → t.runner ≡ p → is_gone (cancelled (on_cancel t p)).runner ≡ true
    by_place waits e = refl
    by_place gone e = rw e refl
    by_place (serving s) e = by_call (call_step s killed) (killed-Leaves s)
    by_place (joins s) e = rw e refl

listener_stops-ended :
    (t : ServerTasks) → is_gone t.runner ≡ true → tasks_ended (server_tasks t listener_stops) ≡ true
unfolding server_tasks server_step send_socket
listener_stops-ended t off = elim (Option-cases t.sending) [
  | inl e ↦ elim (Bool-cases t.listening) [
    | inl l ↦ rw (e, l, off) refl
    | inr l ↦ rw (e, l, off) refl
  ]
  | inr (socket, e) ↦ elim (Bool-cases t.listening) [
    | inl l ↦ rw (e, l, off) off
    | inr l ↦ rw (e, l, off) off
  ]
]

abbrev stops : List ServerEvent
stops = runner_stops ++ listener_stops

server_tasks-stops : (t : ServerTasks) → tasks_ended (server_tasks t stops) ≡ true
unfolding server_tasks
server_tasks-stops t = listener_stops-ended (server_tasks t runner_stops) (runner_stops-gone t)

allowed : (c i : Bool) (s t : ServerMain) → i ≡ true → (if c && not i then s else t) ≡ t
allowed true true s t e = refl
allowed false true s t e = refl
allowed c false s t e = absurd cc

or_true : (b c : Bool) → b ≡ true → (b || c) ≡ true
or_true true c e = refl
or_true false c e = absurd cc

or_right : (b c : Bool) → c ≡ true → (b || c) ≡ true
or_right true c e = refl
or_right false c e = e

main_step-task :
    (s : ServerMain) (e : ServerEvent)
    → s.interrupt ≡ true
    → main_step s (of_tasks e) ≡ cancel_on_end (record s { tasks = server_step s.tasks e })
unfolding main_step
main_step-task s e now = allowed (is_cancel e) s.interrupt s _ now

main_step-multiplexer :
    (s : ServerMain) (e : Event)
    → s.interrupt ≡ true
    → main_step s (of_multiplexer e)
      ≡ cancel_on_end (record s { multiplexer = step server s.multiplexer e })
unfolding main_step
main_step-multiplexer s e now = allowed (is_interrupt e) s.interrupt s _ now

-- With the token cancelled, the events of the tasks are theirs alone.
tokio_main-tasks :
    (s : ServerMain) (es : List ServerEvent)
    → s.interrupt ≡ true
    → ((tokio_main s (map of_tasks es)).tasks ≡ server_tasks s.tasks es)
      × ((tokio_main s (map of_tasks es)).multiplexer ≡ s.multiplexer)
unfolding tokio_main server_tasks cancel_on_end
tokio_main-tasks s [] now = (refl, refl)
tokio_main-tasks s (e ∷ es) now =
    let next : ServerMain = cancel_on_end (record s { tasks = server_step s.tasks e }) in
    let (tasks, multiplexer) = tokio_main-tasks next es (or_true s.interrupt _ now) in
    let same : main_step s (of_tasks e) ≡ next = main_step-task s e now in
    let run = ap (λ (t : ServerMain). tokio_main t (map of_tasks es)) same in
    (
      ap (λ (t : ServerMain). t.tasks) run ∙ tasks,
      ap (λ (t : ServerMain). t.multiplexer) run ∙ multiplexer,
    )

tokio_main-append :
    (s : ServerMain) (es fs : List MainEvent)
    → tokio_main s (es ++ fs) ≡ tokio_main (tokio_main s es) fs
unfolding tokio_main
tokio_main-append s [] fs = refl
tokio_main-append s (e ∷ es) fs = tokio_main-append (main_step s e) es fs

-- The end of the multiplexer, then that of the two tasks.
abbrev last_events : List MainEvent
last_events = of_multiplexer interrupted ∷ map of_tasks stops

last_events-join_returns :
    (s : ServerMain) → s.interrupt ≡ true → join_returns (tokio_main s last_events) ≡ true
unfolding tokio_main cancel_on_end
last_events-join_returns s now =
    let next : ServerMain =
      cancel_on_end (record s { multiplexer = step server s.multiplexer interrupted }) in
    let (tasks, multiplexer) = tokio_main-tasks next stops (or_true s.interrupt _ now) in
    let same : main_step s (of_multiplexer interrupted) ≡ next =
      main_step-multiplexer s interrupted now in
    let ended : join_returns (tokio_main next (map of_tasks stops)) ≡ true =
      rw (multiplexer, tasks, interrupted-ended s.multiplexer, server_tasks-stops s.tasks) refl in
    ap (λ (t : ServerMain). join_returns (tokio_main t (map of_tasks stops))) same ∙ ended

-- A half that has ended.
abbrev pub one_ended : ServerMain → Bool
one_ended s = has_ended s.multiplexer.status || tasks_ended s.tasks

-- Behind the end of a half the token is cancelled.
abbrev Told : ServerMain → Type 0
Told s = one_ended s ≡ true → s.interrupt ≡ true

cancel_on_end-Told : (s : ServerMain) → Told (cancel_on_end s)
unfolding cancel_on_end
cancel_on_end-Told s h = or_right s.interrupt (one_ended s) h

either_main : (b : Bool) (s t : ServerMain) → Told s → Told t → Told (if b then s else t)
either_main true s t p q = p
either_main false s t p q = q

main_step-Told : (s : ServerMain) (e : MainEvent) → Told s → Told (main_step s e)
unfolding main_step
main_step-Told s (of_multiplexer e) p =
    let next : ServerMain = record s { multiplexer = step server s.multiplexer e } in
    either_main (is_interrupt e && not s.interrupt) s (cancel_on_end next) p
      (cancel_on_end-Told next)
main_step-Told s (of_tasks e) p =
    let next : ServerMain = record s { tasks = server_step s.tasks e } in
    either_main (is_cancel e && not s.interrupt) s (cancel_on_end next) p (cancel_on_end-Told next)

tokio_main-Told : (s : ServerMain) (es : List MainEvent) → Told s → Told (tokio_main s es)
unfolding tokio_main
tokio_main-Told s [] p = p
tokio_main-Told s (e ∷ es) p = tokio_main-Told (main_step s e) es (main_step-Told s e p)

start_main-Told : (state : StreamState) → Told (start_main state)
unfolding start_main start_server new_multiplexer
start_main-Told state h = absurd cc

-- From the start, after any events of the two halves: once the multiplexer or the stream of the server has
-- ended, for whatever reason, the token is cancelled, and there are events after which both have ended and
-- `join` returns, also when the listener waits for room in the channel of sockets, when the runner is in the
-- loop of `run_stream`, and when it waits in its joins, where the end of the two tasks of the connection is
-- one of these events.
pub tokio_main-join_returns :
    (state : StreamState) (es : List MainEvent)
    → one_ended (tokio_main (start_main state) es) ≡ true
    → ((tokio_main (start_main state) es).interrupt ≡ true)
      × ((later : List MainEvent) × (join_returns (tokio_main (start_main state) (es ++ later))
            ≡ true))
tokio_main-join_returns state es h =
    let now = tokio_main-Told (start_main state) es (start_main-Told state) h in
    (
      now,
      (
        last_events,
        ap join_returns (tokio_main-append (start_main state) es last_events)
            ∙ last_events-join_returns (tokio_main (start_main state) es) now,
      ),
    )
