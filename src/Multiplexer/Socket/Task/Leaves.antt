-- ===== src/Multiplexer/Socket/Task/Leaves.antt =====
-- src/lib/stream_multiplexer.rs: how a stream's task ends when one of the two tasks that it spawned has ended.
use mathlib.Core.Path.{subst}
use mobiletunnel.Prelude.{
  inl, inr, ℕ, ◌≡◌, refl, sym, ap, ◌∙◌, List, [], ◌∷◌, ◌++◌, Bool, true, false, ◌&&◌, ◌||◌, not,
  if◌then◌else◌,
}
use mobiletunnel.Multiplexer.Message.{disconnect}
use mobiletunnel.Multiplexer.Socket.{
  cut_off, Place, at_top, waits_resume, reads, over, ReadTask, turn, stopped, step_top, step_waits,
  step_reads, step_at, read_task_step,
}
use mobiletunnel.Multiplexer.Socket.Task.{
  Stage, connecting, inside, leaving, gone, StreamTask, TaskEvent, connected, interrupts, selects,
  aborts, write_stops, of_read, of_write, write_cancelled, disconnects, counts, new_task,
  on_connected, is_stopped, on_read, on_write, is_over, on_select, on_disconnect, task_step,
  stream_task,
}
use mobiletunnel.Multiplexer.Socket.Task.Adds.{closings, closings-append}
use mobiletunnel.Multiplexer.Socket.Task.Speaks.{Speaks}
use mobiletunnel.Multiplexer.Socket.Task.Steps.{stream_task_on, stream_task-Speaks}

-- Inside `run_internal_stream`, both tasks are spawned.
abbrev IsSpawned : StreamTask → Type 0
IsSpawned t = t.stage ≡ inside → t.spawned ≡ true

-- `select!` ends, the guard is dropped, and both tasks see their token.
abbrev pub winding : List TaskEvent
winding = selects ∷ of_read turn ∷ of_read stopped ∷ write_stops ∷ []

-- `u` is the end of a task that was at `t`: DISCONNECT is sent, once, and all three are over; they have sent
-- no more data, and have taken no more bytes from the socket and given it none.
pub record HasLeft (id : ℕ) (t u : StreamTask) : Type 0 where
  pub says : closings u.to_channel ≡ disconnect id ∷ []
  pub all_over : (u.stage ≡ gone) × (u.read.place ≡ over) × (u.writing.running ≡ false)
  pub sent : u.read.sent ≡ t.read.sent
  pub incoming : u.read.incoming ≡ t.read.incoming
  pub outgoing : u.writing.outgoing ≡ t.writing.outgoing

module _ (id : ℕ) where
  either-IsSpawned :
      (b : Bool) (t u : StreamTask) → IsSpawned t → IsSpawned u → IsSpawned (if b then t else u)
  either-IsSpawned true t u p q = p
  either-IsSpawned false t u p q = q

  on_connected-IsSpawned :
      (t : StreamTask) (s : Stage) (connects : Bool)
      → IsSpawned t
      → IsSpawned (on_connected t s connects)
  on_connected-IsSpawned t connecting true p = λ e. refl
  on_connected-IsSpawned t connecting false p = λ e. absurd cc
  on_connected-IsSpawned t inside connects p = p
  on_connected-IsSpawned t leaving connects p = p
  on_connected-IsSpawned t gone connects p = p

  on_select-IsSpawned : (t : StreamTask) (s : Stage) → IsSpawned t → IsSpawned (on_select t s)
  on_select-IsSpawned t connecting p = p
  on_select-IsSpawned t inside p =
      either-IsSpawned (is_over t.read.place || not t.writing.running)
        (record t { stage = leaving; cancelled = true }) t (λ e. absurd cc) p
  on_select-IsSpawned t leaving p = p
  on_select-IsSpawned t gone p = p

  on_disconnect-IsSpawned :
      (t : StreamTask) (s : Stage) (delivered : Bool)
      → IsSpawned t
      → IsSpawned (on_disconnect id t s delivered)
  on_disconnect-IsSpawned t connecting delivered p = p
  on_disconnect-IsSpawned t inside delivered p = p
  on_disconnect-IsSpawned t leaving delivered p = λ e. absurd cc
  on_disconnect-IsSpawned t gone delivered p = p

  task_step-IsSpawned :
      (t : StreamTask) (e : TaskEvent) → IsSpawned t → IsSpawned (task_step id t e)
  unfolding task_step on_read on_write
  task_step-IsSpawned t (connected connects) p = on_connected-IsSpawned t t.stage connects p
  task_step-IsSpawned t interrupts p = p
  task_step-IsSpawned t (of_read e) p =
      either-IsSpawned (t.spawned && (t.cancelled || not (is_stopped e))) (on_read id t e) t p p
  task_step-IsSpawned t (of_write m answer) p =
      either-IsSpawned (t.spawned && t.writing.running) (on_write id t m answer) t p p
  task_step-IsSpawned t (write_cancelled m n) p =
      either-IsSpawned ((t.spawned && t.cancelled) && t.writing.running)
        (on_write id t m (cut_off n)) t p p
  task_step-IsSpawned t write_stops p =
      either-IsSpawned t.spawned (record t { writing = record (t.writing) { running = false } }) t p
        p
  task_step-IsSpawned t selects p = on_select-IsSpawned t t.stage p
  task_step-IsSpawned t (disconnects delivered) p = on_disconnect-IsSpawned t t.stage delivered p
  task_step-IsSpawned t aborts p = λ e. absurd cc
  task_step-IsSpawned t (counts answer) p = p

  stream_task-IsSpawned :
      (t : StreamTask) (es : List TaskEvent) → IsSpawned t → IsSpawned (stream_task id t es)
  unfolding stream_task
  stream_task-IsSpawned t [] p = p
  stream_task-IsSpawned t (e ∷ es) p =
      stream_task-IsSpawned (task_step id t e) es (task_step-IsSpawned t e p)

  -- A read task that sees a cancelled token, wherever it stands.
  abbrev Ended : ReadTask → ReadTask → Type 0
  Ended r r' = (r'.place ≡ over) × (r'.sent ≡ r.sent) × (r'.incoming ≡ r.incoming)

  from_top :
      (b : Bool) (r : ReadTask)
      → let p = if b then waits_resume else reads in
        Ended r (step_at id p (record r { place = p }) stopped)
  unfolding step_at step_waits step_reads
  from_top true r = (refl, refl, refl)
  from_top false r = (refl, refl, refl)

  from_place :
      (p : Place) (r : ReadTask)
      → r.place ≡ p
      → let r' = step_at id p r turn in Ended r (step_at id r'.place r' stopped)
  unfolding step_at step_top step_waits step_reads
  from_place at_top r e = from_top r.flow.read_paused r
  from_place waits_resume r e = rw e (refl, refl, refl)
  from_place reads r e = rw e (refl, refl, refl)
  from_place over r e = rw e (refl, refl, refl)

  read_ends : (r : ReadTask) → Ended r (read_task_step id (read_task_step id r turn) stopped)
  unfolding read_task_step
  read_ends r = from_place r.place r refl

  abbrev guarded : StreamTask → StreamTask
  guarded t = record t { stage = leaving; cancelled = true }

  abbrev wound : StreamTask → StreamTask
  wound t = record (on_read id (on_read id (guarded t) turn) stopped) {
    writing = record (t.writing) { running = false };
  }

  task_winds :
      (t : StreamTask)
      → t.stage ≡ inside
      → t.spawned ≡ true
      → (is_over t.read.place || not t.writing.running) ≡ true
      → stream_task id t winding ≡ wound t
  unfolding stream_task task_step on_read
  task_winds t e s ends = rw e (rw ends (rw s refl))

  word_sent :
      (t : StreamTask)
      → t.stage ≡ leaving
      → task_step id t (disconnects true)
        ≡ record t { stage = gone; to_channel = t.to_channel ++ (disconnect id ∷ []) }
  unfolding task_step
  word_sent t e = rw e refl

  not_said : (t : StreamTask) → t.stage ≡ leaving → Speaks id t → closings t.to_channel ≡ []
  not_said t e s = elim s.says [
    | inl quiet ↦ quiet
    | inr (said_it, g) ↦ let both : leaving ≡ gone = sym e ∙ g in absurd cc
  ]

  -- A stream's task, wherever it stands behind any events, when it is in `run_internal_stream` and one of the
  -- two tasks there has ended: `select!`, then the cancelled token for both tasks, and a channel that takes
  -- the message bring it to its end. It sends DISCONNECT, once, and all three tasks are over. No more is read
  -- or sent, and no more is written: when the read task has met the end of its half of the socket, messages
  -- that wait for the other half are left where they are.
  pub stream_task_leaves :
      (incoming : List ℕ) (es : List TaskEvent)
      → let t = stream_task id (new_task incoming) es in
        t.stage ≡ inside
        → (is_over t.read.place || not t.writing.running) ≡ true
        → HasLeft id t (task_step id (stream_task id t winding) (disconnects true))
  unfolding new_task on_read
  stream_task_leaves incoming es e ends =
      let t = stream_task id (new_task incoming) es in
      let spawned = stream_task-IsSpawned (new_task incoming) es (λ h. absurd cc) e in
      let ended = task_winds t e spawned ends in
      let (place, sent, unread) = read_ends t.read in
      let v = wound t in
      let speaks =
        subst (Speaks id) ended (stream_task_on id t winding (stream_task-Speaks id incoming es)) in
      let quiet = not_said v refl speaks in
      subst (λ (u : StreamTask). HasLeft id t u)
        (sym (ap (λ (u : StreamTask). task_step id u (disconnects true)) ended ∙ word_sent v refl))
        (record {
          says =
              closings-append v.to_channel (disconnect id ∷ [])
              ∙ ap (◌++ (disconnect id ∷ [])) quiet;
          all_over = (refl, place, refl);
          sent = sent;
          incoming = unread;
          outgoing = refl;
        })
