-- ===== src/Multiplexer/Socket/Tests.antt =====
-- src/lib/stream_multiplexer.rs: the read task of `run_internal_stream` at concrete inputs.
use mobiletunnel.Prelude.{ℕ, ◌≡◌, ◌≢◌, refl, List, [], ◌∷◌, ◌++◌, true, All, length, ◌≤◌}
use mobiletunnel.Multiplexer.Message.{data_msg, disconnect}
use mobiletunnel.Multiplexer.Flow.{new_flow, write_message, count_out}
use mobiletunnel.Multiplexer.Socket.{
  ReadTask, SocketEvent, at_top, turn, ready, told_pause, told_resume, notified, reads, failed,
  read_task, read_task_step, step_at, step_top, step_reads, on_ready, on_bytes, all_written,
  write_step, on_wrote,
}
use mobiletunnel.Multiplexer.Socket.Task.{
  TaskEvent, connected, of_read, of_write, selects, disconnects, new_task, on_read, on_write,
  task_step, stream_task,
}
use mobiletunnel.Multiplexer.Socket.Task.Leaves.{winding, HasLeft, stream_task_leaves}
use mobiletunnel.Multiplexer.Socket.Task.Speaks.{Speaks}
use mobiletunnel.Multiplexer.Socket.Task.Steps.{stream_task-Speaks}
use mobiletunnel.Multiplexer.Socket.Chunks.{Reading}
use mobiletunnel.Multiplexer.Socket.Paused.{read_task-paused}
use mobiletunnel.Multiplexer.Socket.Reader.{read_task-Reading_start}

abbrev hi : List ℕ
hi = b'h' ∷ b'i' ∷ []

-- The near end: a read that is interrupted, and one that yields two bytes.
abbrev near : ReadTask
near = record { place = at_top; flow = new_flow; incoming = hi ++ (b'!' ∷ []); sent = [] }

abbrev near_events : List SocketEvent
near_events = turn ∷ failed true ∷ turn ∷ ready 2 true ∷ told_pause ∷ turn ∷ []

read_task-Reading_start_example : Reading 1 near.incoming (read_task 1 near near_events)
read_task-Reading_start_example = read_task-Reading_start 1 near near_events refl

-- The task reads when PAUSE arrives; a RESUME that was left over wakes it once.
abbrev paused_events : List SocketEvent
paused_events = ready 1 true ∷ turn ∷ notified ∷ turn ∷ notified ∷ ready 1 true ∷ []

not_resumed : All (λ (e : SocketEvent). e ≢ told_resume) paused_events
not_resumed = (λ e. cc, (λ e. cc, (λ e. cc, (λ e. cc, (λ e. cc, (λ e. cc, tt))))))

abbrev reading : ReadTask
reading = record near { place = reads; flow = record new_flow { resume_permit = true } }

read_task-paused_example : length (read_task 1 reading (told_pause ∷ paused_events)).sent ≤ 1
read_task-paused_example = read_task-paused 1 reading paused_events not_resumed

-- A stream's task connects; its read task sends two bytes and meets the end of the socket; DISCONNECT follows.
abbrev task_events : List TaskEvent
task_events =
    connected true
    ∷ of_read turn
    ∷ of_read (ready 2 true)
    ∷ of_write (data_msg 1 hi) (all_written true)
    ∷ of_read turn
    ∷ of_read (ready 1 true)
    ∷ selects
    ∷ disconnects true
    ∷ []

all_told : (stream_task 1 (new_task hi) task_events).to_channel ≡ data_msg 1 hi ∷ disconnect 1 ∷ []
unfolding stream_task task_step new_task on_read on_write read_task_step step_at step_top step_reads
    on_ready on_bytes write_step on_wrote write_message count_out new_flow
all_told = refl

stream_task-Speaks_example : Speaks 1 (stream_task 1 (new_task hi) task_events)
stream_task-Speaks_example = stream_task-Speaks 1 hi task_events

-- The read task has met the end of its half of the socket, and the write task has written nothing yet.
abbrev half_closed : List TaskEvent
half_closed =
    connected true
    ∷ of_read turn
    ∷ of_read (ready 2 true)
    ∷ of_read turn
    ∷ of_read (ready 1 true)
    ∷ []

stream_task_leaves_example :
    let t = stream_task 1 (new_task hi) half_closed in
    HasLeft 1 t (task_step 1 (stream_task 1 t winding) (disconnects true))
unfolding stream_task task_step new_task on_read read_task_step step_at step_top step_reads on_ready
    on_bytes new_flow
stream_task_leaves_example = stream_task_leaves 1 hi half_closed refl refl
