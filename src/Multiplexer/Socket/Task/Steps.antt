-- ===== src/Multiplexer/Socket/Task/Steps.antt =====
-- src/lib/stream_multiplexer.rs: what a stream's three tasks send to the multiplexer, over any events.
use mobiletunnel.Prelude.{
  inl, inr, ℕ, ◌≡◌, ◌≢◌, refl, sym, ap, ◌∙◌, List, [], ◌∷◌, ◌++◌, Bool, true, false, ◌&&◌, ◌||◌,
  not, append-nil,
}
use mobiletunnel.Multiplexer.Message.{disconnect}
use mobiletunnel.Multiplexer.Flow.{count_in}
use mobiletunnel.Multiplexer.Server.Delivery.{for_stream}
use mobiletunnel.Multiplexer.Server.Payloads.{for_stream-append}
use mobiletunnel.Multiplexer.Socket.{cut_off}
use mobiletunnel.Multiplexer.Socket.Task.{
  on_connected, on_select, on_disconnect, is_over, Stage, connecting, inside, leaving, gone,
  StreamTask, TaskEvent, connected, interrupts, selects, aborts, write_stops, of_read, of_write,
  write_cancelled, disconnects, counts, new_task, is_stopped, on_read, on_write, task_step,
  stream_task,
}
use mobiletunnel.Multiplexer.Socket.Task.Adds.{closings, closings-append}
use mobiletunnel.Multiplexer.Socket.Task.Speaks.{
  Speaks, is_ending, either-Speaks, on_read-Speaks, on_write-Speaks, moves,
}

not_both : {s : Stage} → s ≡ connecting → s ≢ gone
not_both e = λ g. let both : connecting ≡ gone = sym e ∙ g in cc

inside_gone : inside ≢ gone
inside_gone = λ e. cc

leaving_gone : leaving ≢ gone
leaving_gone = λ e. cc

unspawned : {b : Bool} → b ≡ false → b ≢ true
unspawned e = λ h. let both : false ≡ true = sym e ∙ h in cc

module _ (id : ℕ) where
  connected-Speaks :
      (t : StreamTask) (stage : Stage) (connects : Bool)
      → t.stage ≡ stage
      → Speaks id t
      → Speaks id (on_connected t stage connects)
  connected-Speaks t connecting true e s =
      moves id t (record t { stage = inside; spawned = true }) refl refl
        (λ g. absurd (not_both e g)) (λ h. cc) (λ h. cc) s
  connected-Speaks t connecting false e s =
      moves id t (record t { stage = leaving }) refl refl (λ g. absurd (not_both e g))
        (λ h. absurd (unspawned (s.alone e) h)) (λ h. s.alone e) s
  connected-Speaks t inside connects e s = s
  connected-Speaks t leaving connects e s = s
  connected-Speaks t gone connects e s = s

  select-Speaks :
      (t : StreamTask) (stage : Stage)
      → t.stage ≡ stage
      → Speaks id t
      → Speaks id (on_select t stage)
  select-Speaks t connecting e s = s
  select-Speaks t inside e s =
      either-Speaks id (is_over t.read.place || not t.writing.running)
        (record t { stage = leaving; cancelled = true }) t
        (moves id t (record t { stage = leaving; cancelled = true }) refl refl
          (λ g. absurd (inside_gone (sym e ∙ g))) (λ h. refl) (λ h. cc) s)
        s
  select-Speaks t leaving e s = s
  select-Speaks t gone e s = s

  disconnect-Speaks :
      (t : StreamTask) (stage : Stage) (delivered : Bool)
      → t.stage ≡ stage
      → Speaks id t
      → Speaks id (on_disconnect id t stage delivered)
  disconnect-Speaks t connecting delivered e s = s
  disconnect-Speaks t inside delivered e s = s
  disconnect-Speaks t leaving true e s = record {
    data_sent =
        for_stream-append id t.to_channel (disconnect id ∷ [])
        ∙ append-nil (for_stream id t.to_channel)
        ∙ s.data_sent;
    says = elim s.says [
      | inl quiet ↦ inr (
        closings-append t.to_channel (disconnect id ∷ []) ∙ ap (◌++ (disconnect id ∷ [])) quiet,
        refl,
      )
      | inr (said_it, g) ↦ absurd (leaving_gone (sym e ∙ g))
    ];
    told = λ h. s.told (ap (λ (x : Stage). is_ending x && t.spawned) e ∙ h);
    alone = λ h. cc;
  }
  disconnect-Speaks t leaving false e s = record {
    data_sent = ap (for_stream id) (append-nil t.to_channel) ∙ s.data_sent;
    says = elim s.says [
      | inl quiet ↦ inl (ap closings (append-nil t.to_channel) ∙ quiet)
      | inr (said_it, g) ↦ absurd (leaving_gone (sym e ∙ g))
    ];
    told = λ h. s.told (ap (λ (x : Stage). is_ending x && t.spawned) e ∙ h);
    alone = λ h. cc;
  }
  disconnect-Speaks t gone delivered e s = s

  task_step-Speaks : (t : StreamTask) (e : TaskEvent) → Speaks id t → Speaks id (task_step id t e)
  unfolding task_step
  task_step-Speaks t (connected connects) s = connected-Speaks t t.stage connects refl s
  task_step-Speaks t interrupts s =
      moves id t (record t { cancelled = true }) refl refl (λ g. g) (λ h. refl) s.alone s
  task_step-Speaks t (of_read e) s =
      either-Speaks id (t.spawned && (t.cancelled || not (is_stopped e))) (on_read id t e) t
        (on_read-Speaks id t e s) s
  task_step-Speaks t (of_write m answer) s =
      either-Speaks id (t.spawned && t.writing.running) (on_write id t m answer) t
        (on_write-Speaks id t m answer s) s
  task_step-Speaks t (write_cancelled m n) s =
      either-Speaks id ((t.spawned && t.cancelled) && t.writing.running)
        (on_write id t m (cut_off n)) t (on_write-Speaks id t m (cut_off n) s) s
  task_step-Speaks t write_stops s =
      let stopped_writing : StreamTask = record t {
        writing = record (t.writing) { running = false };
      } in
      either-Speaks id t.spawned stopped_writing t
        (moves id t stopped_writing refl refl (λ g. g) s.told s.alone s) s
  task_step-Speaks t selects s = select-Speaks t t.stage refl s
  task_step-Speaks t (disconnects delivered) s = disconnect-Speaks t t.stage delivered refl s
  task_step-Speaks t aborts s =
      moves id t (record t { stage = gone; cancelled = true }) refl refl (λ g. refl) (λ h. refl)
        (λ h. cc) s
  task_step-Speaks t (counts answer) s =
      moves id t (record t { read = record (t.read) { flow = (count_in t.read.flow answer).0 } })
        refl refl (λ g. g) s.told s.alone s

  new_task-Speaks : (incoming : List ℕ) → Speaks id (new_task incoming)
  unfolding new_task
  new_task-Speaks incoming = record {
    data_sent = refl;
    says = inl refl;
    told = λ h. cc;
    alone = λ h. refl;
  }

  pub stream_task_on :
      (t : StreamTask) (es : List TaskEvent) → Speaks id t → Speaks id (stream_task id t es)
  unfolding stream_task
  stream_task_on t [] s = s
  stream_task_on t (e ∷ es) s = stream_task_on (task_step id t e) es (task_step-Speaks t e s)

  -- A stream's task from its start, over any events, with the two tasks that it spawns: of all that the three
  -- have sent to the multiplexer, the DATA messages of the stream are exactly what the read task sent, in
  -- their order; DISCONNECT is sent once at most, and only by a task that is over, an aborted one included;
  -- and when it is about to be sent, the token of the read and the write task is cancelled, unless the
  -- connection could not be made, and they do not exist.
  pub stream_task-Speaks :
      (incoming : List ℕ) (es : List TaskEvent) → Speaks id (stream_task id (new_task incoming) es)
  stream_task-Speaks incoming es = stream_task_on (new_task incoming) es (new_task-Speaks incoming)
