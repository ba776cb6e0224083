-- ===== src/Multiplexer/Socket/Task/Gives.antt =====
-- src/lib/stream_multiplexer.rs: the bytes that a stream's task gives its socket while its write task runs.
use mobiletunnel.Prelude.{
  ℕ, ◌≡◌, refl, sym, ap, ◌∙◌, List, [], ◌∷◌, ◌++◌, true, false, inl, inr, append-nil, append_assoc,
  All, map,
}
use mobiletunnel.Multiplexer.Message.{ChannelMessage}
use mobiletunnel.Multiplexer.Socket.{body}
use mobiletunnel.Multiplexer.Socket.Chunks.{bytes_of, bytes_of-append}
use mobiletunnel.Multiplexer.Socket.Writer.{IsData, done, done-running, done-outgoing}
use mobiletunnel.Multiplexer.Socket.Task.{
  StreamTask, TaskEvent, of_write, on_write, task_step, stream_task,
}
use mobiletunnel.Multiplexer.Socket.Task.Writes.{
  takes, taken_out, task_step-Writes, stream_task-Stays,
}

-- A message that is written, with the channel to the multiplexer open.
abbrev pub whole : ChannelMessage → TaskEvent
whole m = of_write m (done m)

module _ (id : ℕ) where
  -- While the write task runs, all that it took is written.
  pub stream_task-all :
      (t : StreamTask) (es : List TaskEvent)
      → (stream_task id t es).writing.running ≡ true
      → (stream_task id t es).writing.outgoing ≡ t.writing.outgoing ++ bytes_of (taken_out id t es)
  unfolding stream_task taken_out
  stream_task-all t [] on = sym (append-nil t.writing.outgoing)
  stream_task-all t (e ∷ es) on =
      let u = task_step id t e in
      let later = taken_out id u es in
      elim (task_step-Writes id t e) [
        | inl all ↦
            stream_task-all u es on
            ∙ ap (◌++ bytes_of later) all
            ∙ append_assoc t.writing.outgoing (bytes_of (takes t e)) (bytes_of later)
            ∙ ap (◌++◌ t.writing.outgoing) (sym (bytes_of-append (takes t e) later))
        | inr (stopped, f) ↦
            let never : true ≡ false = sym on ∙ (stream_task-Stays id u es stopped).0 ∙ stopped in
            absurd cc
      ]

  whole-step :
      (t : StreamTask) (m : ChannelMessage)
      → t.spawned ≡ true
      → t.writing.running ≡ true
      → task_step id t (whole m) ≡ on_write id t m (done m)
  unfolding task_step
  whole-step t m spawned on = rw spawned (rw on refl)

  -- DATA alone, with no error of the socket and no cancellation: all bytes are written, and the task goes on.
  pub stream_task-gives :
      (t : StreamTask) (ms : List ChannelMessage)
      → t.spawned ≡ true
      → t.writing.running ≡ true
      → All IsData ms
      → ((stream_task id t (map whole ms)).writing.outgoing ≡ t.writing.outgoing ++ bytes_of ms)
        × ((stream_task id t (map whole ms)).writing.running ≡ true)
  unfolding stream_task on_write
  stream_task-gives t [] spawned on typed = (sym (append-nil t.writing.outgoing), on)
  stream_task-gives t (m ∷ ms) spawned on (typed, all) =
      let u = on_write id t m (done m) in
      let w = record (t.writing) { flow = t.read.flow } in
      let next =
        ap (λ (v : StreamTask). stream_task id v (map whole ms)) (whole-step t m spawned on) in
      let (out, runs) = stream_task-gives u ms spawned (done-running w m typed ∙ on) all in
      (
        ap (λ (v : StreamTask). v.writing.outgoing) next
            ∙ out
            ∙ ap (◌++ bytes_of ms) (done-outgoing w m)
            ∙ append_assoc t.writing.outgoing (body m) (bytes_of ms),
        ap (λ (v : StreamTask). v.writing.running) next ∙ runs,
      )
