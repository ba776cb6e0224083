-- ===== src/Multiplexer/Socket/Task/Reads.antt =====
-- src/lib/stream_multiplexer.rs: what becomes of the bytes of the socket, over the life of a stream's task.
use mobiletunnel.Prelude.{
  ℕ, refl, List, [], ◌∷◌, Bool, true, false, ◌&&◌, ◌||◌, not, if◌then◌else◌, inr,
}
use mobiletunnel.Multiplexer.Flow.{StreamFlowControl}
use mobiletunnel.Multiplexer.Socket.{cut_off, ReadTask}
use mobiletunnel.Multiplexer.Socket.Chunks.{Reading}
use mobiletunnel.Multiplexer.Socket.Reader.{moved, read_task_step-Reading}
use mobiletunnel.Multiplexer.Socket.Task.{
  Stage, connecting, inside, leaving, gone, StreamTask, TaskEvent, connected, interrupts, selects,
  aborts, write_stops, of_read, of_write, write_cancelled, disconnects, counts, new_task,
  on_connected, is_stopped, on_read, on_write, is_over, on_select, on_disconnect, task_step,
  stream_task,
}

module _ (id : ℕ) (whole : List ℕ) where
  either :
      (b : Bool) (t u : StreamTask)
      → Reading id whole t.read
      → Reading id whole u.read
      → Reading id whole (if b then t else u).read
  either true t u p q = p
  either false t u p q = q

  -- The flow control is not the reading.
  other_flow :
      (t : ReadTask) (flow : StreamFlowControl)
      → Reading id whole t
      → Reading id whole (record t { flow = flow })
  other_flow t flow r = moved id whole t t.place flow (λ o. o) r

  on_connected-Reading :
      (t : StreamTask) (s : Stage) (connects : Bool)
      → Reading id whole t.read
      → Reading id whole (on_connected t s connects).read
  on_connected-Reading t connecting true r = r
  on_connected-Reading t connecting false r = r
  on_connected-Reading t inside connects r = r
  on_connected-Reading t leaving connects r = r
  on_connected-Reading t gone connects r = r

  on_select-Reading :
      (t : StreamTask) (s : Stage) → Reading id whole t.read → Reading id whole (on_select t s).read
  on_select-Reading t connecting r = r
  on_select-Reading t inside r =
      either (is_over t.read.place || not t.writing.running)
        (record t { stage = leaving; cancelled = true }) t r r
  on_select-Reading t leaving r = r
  on_select-Reading t gone r = r

  on_disconnect-Reading :
      (t : StreamTask) (s : Stage) (delivered : Bool)
      → Reading id whole t.read
      → Reading id whole (on_disconnect id t s delivered).read
  on_disconnect-Reading t connecting delivered r = r
  on_disconnect-Reading t inside delivered r = r
  on_disconnect-Reading t leaving delivered r = r
  on_disconnect-Reading t gone delivered r = r

  task_step-Reading :
      (t : StreamTask) (e : TaskEvent)
      → Reading id whole t.read
      → Reading id whole (task_step id t e).read
  unfolding task_step on_read on_write
  task_step-Reading t (connected connects) r = on_connected-Reading t t.stage connects r
  task_step-Reading t interrupts r = r
  task_step-Reading t (of_read e) r =
      either (t.spawned && (t.cancelled || not (is_stopped e))) (on_read id t e) t
        (read_task_step-Reading id whole t.read e r) r
  task_step-Reading t (of_write m answer) r =
      either (t.spawned && t.writing.running) (on_write id t m answer) t (other_flow t.read _ r) r
  task_step-Reading t (write_cancelled m n) r =
      either ((t.spawned && t.cancelled) && t.writing.running) (on_write id t m (cut_off n)) t
        (other_flow t.read _ r) r
  task_step-Reading t write_stops r =
      either t.spawned (record t { writing = record (t.writing) { running = false } }) t r r
  task_step-Reading t selects r = on_select-Reading t t.stage r
  task_step-Reading t (disconnects delivered) r = on_disconnect-Reading t t.stage delivered r
  task_step-Reading t aborts r = r
  task_step-Reading t (counts answer) r = other_flow t.read _ r

  stream_task_on-Reading :
      (t : StreamTask) (es : List TaskEvent)
      → Reading id whole t.read
      → Reading id whole (stream_task id t es).read
  unfolding stream_task
  stream_task_on-Reading t [] r = r
  stream_task_on-Reading t (e ∷ es) r =
      stream_task_on-Reading (task_step id t e) es (task_step-Reading t e r)

-- Whatever a stream's task meets: the bytes that it has sent, those of a message that the channel did not
-- take, and those that it has not read are together those that the socket yields, in order.
pub stream_task-Reading :
    (id : ℕ) (incoming : List ℕ) (es : List TaskEvent)
    → Reading id incoming (stream_task id (new_task incoming) es).read
unfolding new_task
stream_task-Reading id incoming es =
    stream_task_on-Reading id incoming (new_task incoming) es
      (record { lost = []; split = refl; ends = inr refl; chunks = tt })
