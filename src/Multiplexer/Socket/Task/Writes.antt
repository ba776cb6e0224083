-- ===== src/Multiplexer/Socket/Task/Writes.antt =====
-- src/lib/stream_multiplexer.rs: the bytes that a stream's task gives its socket, over its whole life.
use mobiletunnel.Prelude.{
  ◌⊎◌, inl, inr, ℕ, ◌≡◌, refl, sym, ap, ◌∙◌, List, [], ◌∷◌, ◌++◌, Bool, true, false, ◌&&◌, ◌||◌,
  not, if◌then◌else◌, append-nil, append_assoc, take, IsFront, IsFront-trans, IsFront-prepend,
  take-IsFront,
}
use mobiletunnel.Multiplexer.Message.{ChannelMessage}
use mobiletunnel.Multiplexer.Flow.{write_message}
use mobiletunnel.Multiplexer.Socket.{WriteTask, WriteAnswer, all_written, cut_off, body, write_step}
use mobiletunnel.Multiplexer.Socket.Chunks.{bytes_of, bytes_of-append}
use mobiletunnel.Multiplexer.Socket.Writer.{on_wrote-outgoing, cut_off-over}
use mobiletunnel.Multiplexer.Socket.Task.{
  Stage, connecting, inside, leaving, gone, StreamTask, TaskEvent, connected, interrupts, selects,
  aborts, write_stops, of_read, of_write, write_cancelled, disconnects, counts, on_connected,
  is_stopped, on_read, on_write, is_over, on_select, on_disconnect, task_step, stream_task,
}

-- The messages that the write task takes out of its channel.
abbrev pub takes : StreamTask → TaskEvent → List ChannelMessage
takes t (of_write m answer) = if t.spawned && t.writing.running then m ∷ [] else []
takes t (write_cancelled m n) =
    if (t.spawned && t.cancelled) && t.writing.running then m ∷ [] else []
takes t (connected connects) = []
takes t interrupts = []
takes t selects = []
takes t aborts = []
takes t write_stops = []
takes t (of_read e) = []
takes t (disconnects delivered) = []
takes t (counts answer) = []

unfoldable pub taken_out : ℕ → StreamTask → List TaskEvent → List ChannelMessage
unfolding task_step
taken_out id t [] = []
taken_out id t (e ∷ es) = takes t e ++ taken_out id (task_step id t e) es

-- A step that writes all bytes of what it takes, or some of them, behind which the write task has ended.
abbrev pub Writes : WriteTask → List ChannelMessage → WriteTask → Type 0
Writes w ms w' =
    (w'.outgoing ≡ w.outgoing ++ bytes_of ms)
    ⊎ ((w'.running ≡ false) × IsFront w'.outgoing (w.outgoing ++ bytes_of ms))

abbrev pub Stays : WriteTask → WriteTask → Type 0
Stays w w' = (w'.running ≡ w.running) × (w'.outgoing ≡ w.outgoing)

Stays-Writes : (w w' : WriteTask) → w'.outgoing ≡ w.outgoing → Writes w [] w'
Stays-Writes w w' e = inl (e ∙ sym (append-nil w.outgoing))

module _ (id : ℕ) where
  write_step-Writes :
      (w : WriteTask) (m : ChannelMessage) (answer : WriteAnswer)
      → Writes w (m ∷ []) (write_step w m answer)
  unfolding write_step
  write_step-Writes w m (all_written delivered) = inl (
      on_wrote-outgoing w (body m) (write_message m true delivered w.flow)
      ∙ ap (◌++◌ w.outgoing) (sym (append-nil (body m))))
  write_step-Writes w m (cut_off n) =
      let some_bytes =
        IsFront-trans _ (body m) (body m ++ []) (take-IsFront n (body m)) ([], refl) in
      let (back, e) = IsFront-prepend w.outgoing (take n (body m)) (body m ++ []) some_bytes in
      let written = on_wrote-outgoing w (take n (body m)) (write_message m false false w.flow) in
      inr (cut_off-over w m n, (back, e ∙ ap (◌++ back) (sym written)))

  -- A message that the write task takes, or does not.
  taken-Writes :
      (b : Bool) (t : StreamTask) (m : ChannelMessage) (answer : WriteAnswer)
      → Writes t.writing
          (if b then m ∷ [] else [])
          (if b then on_write id t m answer else t).writing
  unfolding on_write
  taken-Writes true t m answer =
      write_step-Writes (record (t.writing) { flow = t.read.flow }) m answer
  taken-Writes false t m answer = Stays-Writes t.writing t.writing refl

  on_connected-Stays :
      (t : StreamTask) (s : Stage) (connects : Bool)
      → Stays t.writing (on_connected t s connects).writing
  on_connected-Stays t connecting true = (refl, refl)
  on_connected-Stays t connecting false = (refl, refl)
  on_connected-Stays t inside connects = (refl, refl)
  on_connected-Stays t leaving connects = (refl, refl)
  on_connected-Stays t gone connects = (refl, refl)

  either-Stays :
      (b : Bool) (t u : StreamTask)
      → Stays t.writing u.writing
      → Stays t.writing (if b then u else t).writing
  either-Stays true t u p = p
  either-Stays false t u p = (refl, refl)

  on_select-Stays : (t : StreamTask) (s : Stage) → Stays t.writing (on_select t s).writing
  on_select-Stays t connecting = (refl, refl)
  on_select-Stays t inside =
      either-Stays (is_over t.read.place || not t.writing.running) t
        (record t { stage = leaving; cancelled = true }) (refl, refl)
  on_select-Stays t leaving = (refl, refl)
  on_select-Stays t gone = (refl, refl)

  on_disconnect-Stays :
      (t : StreamTask) (s : Stage) (delivered : Bool)
      → Stays t.writing (on_disconnect id t s delivered).writing
  on_disconnect-Stays t connecting delivered = (refl, refl)
  on_disconnect-Stays t inside delivered = (refl, refl)
  on_disconnect-Stays t leaving delivered = (refl, refl)
  on_disconnect-Stays t gone delivered = (refl, refl)

  stops-outgoing :
      (b : Bool) (t : StreamTask)
      → (if b
          then record t { writing = record (t.writing) { running = false } }
          else t).writing.outgoing
        ≡ t.writing.outgoing
  stops-outgoing true t = refl
  stops-outgoing false t = refl

  pub task_step-Writes :
      (t : StreamTask) (e : TaskEvent) → Writes t.writing (takes t e) (task_step id t e).writing
  unfolding task_step on_read
  task_step-Writes t (connected connects) =
      Stays-Writes t.writing (task_step id t (connected connects)).writing
        (on_connected-Stays t t.stage connects).1
  task_step-Writes t interrupts = Stays-Writes t.writing (task_step id t interrupts).writing refl
  task_step-Writes t (of_read e) =
      Stays-Writes t.writing (task_step id t (of_read e)).writing
        (either-Stays (t.spawned && (t.cancelled || not (is_stopped e))) t (on_read id t e)
          (refl, refl)).1
  task_step-Writes t (of_write m answer) = taken-Writes (t.spawned && t.writing.running) t m answer
  task_step-Writes t (write_cancelled m n) =
      taken-Writes ((t.spawned && t.cancelled) && t.writing.running) t m (cut_off n)
  task_step-Writes t write_stops =
      Stays-Writes t.writing (task_step id t write_stops).writing (stops-outgoing t.spawned t)
  task_step-Writes t selects =
      Stays-Writes t.writing (task_step id t selects).writing (on_select-Stays t t.stage).1
  task_step-Writes t (disconnects delivered) =
      Stays-Writes t.writing (task_step id t (disconnects delivered)).writing
        (on_disconnect-Stays t t.stage delivered).1
  task_step-Writes t aborts = Stays-Writes t.writing (task_step id t aborts).writing refl
  task_step-Writes t (counts answer) =
      Stays-Writes t.writing (task_step id t (counts answer)).writing refl

  -- A write task that has ended writes nothing more.
  ended-Stays :
      (b : Bool) (t : StreamTask) (m : ChannelMessage) (answer : WriteAnswer)
      → t.writing.running ≡ false
      → Stays t.writing (if b && t.writing.running then on_write id t m answer else t).writing
  ended-Stays true t m answer e = rw e (refl, refl)
  ended-Stays false t m answer e = (refl, refl)

  stops-Stays :
      (b : Bool) (t : StreamTask)
      → t.writing.running ≡ false
      → Stays t.writing
          (if b then record t { writing = record (t.writing) { running = false } } else t).writing
  stops-Stays true t e = (sym e, refl)
  stops-Stays false t e = (refl, refl)

  task_step-Stays :
      (t : StreamTask) (e : TaskEvent)
      → t.writing.running ≡ false
      → Stays t.writing (task_step id t e).writing
  unfolding task_step on_read
  task_step-Stays t (connected connects) h = on_connected-Stays t t.stage connects
  task_step-Stays t interrupts h = (refl, refl)
  task_step-Stays t (of_read e) h =
      either-Stays (t.spawned && (t.cancelled || not (is_stopped e))) t (on_read id t e)
        (refl, refl)
  task_step-Stays t (of_write m answer) h = ended-Stays t.spawned t m answer h
  task_step-Stays t (write_cancelled m n) h =
      ended-Stays (t.spawned && t.cancelled) t m (cut_off n) h
  task_step-Stays t write_stops h = stops-Stays t.spawned t h
  task_step-Stays t selects h = on_select-Stays t t.stage
  task_step-Stays t (disconnects delivered) h = on_disconnect-Stays t t.stage delivered
  task_step-Stays t aborts h = (refl, refl)
  task_step-Stays t (counts answer) h = (refl, refl)

  pub stream_task-Stays :
      (t : StreamTask) (es : List TaskEvent)
      → t.writing.running ≡ false
      → Stays t.writing (stream_task id t es).writing
  unfolding stream_task
  stream_task-Stays t [] h = (refl, refl)
  stream_task-Stays t (e ∷ es) h =
      let (running, outgoing) = task_step-Stays t e h in
      let (running', outgoing') = stream_task-Stays (task_step id t e) es (running ∙ h) in
      (running' ∙ running, outgoing' ∙ outgoing)

  -- From wherever a stream's task stands, over any events: the socket is given a front of the bytes of the
  -- messages that the write task takes out of its channel, behind what it was given before.
  pub stream_task-written :
      (t : StreamTask) (es : List TaskEvent)
      → IsFront
          (stream_task id t es).writing.outgoing
          (t.writing.outgoing ++ bytes_of (taken_out id t es))
  unfolding stream_task taken_out
  stream_task-written t [] = ([], refl)
  stream_task-written t (e ∷ es) =
      let u = task_step id t e in
      let later = taken_out id u es in
      let apart =
        ap (◌++◌ t.writing.outgoing) (bytes_of-append (takes t e) later)
        ∙ sym (append_assoc t.writing.outgoing (bytes_of (takes t e)) (bytes_of later)) in
      elim (task_step-Writes t e) [
        | inl all ↦
            let (back, f) = stream_task-written u es in
            (back, apart ∙ ap (◌++ bytes_of later) (sym all) ∙ f)
        | inr (stopped, (back, f)) ↦
            let same = (stream_task-Stays u es stopped).1 in
            (
              back ++ bytes_of later,
              apart
                  ∙ ap (◌++ bytes_of later) f
                  ∙ append_assoc u.writing.outgoing back (bytes_of later)
                  ∙ ap (◌++ (back ++ bytes_of later)) (sym same),
            )
      ]
