-- ===== src/Multiplexer/Socket/Task.antt =====
-- src/lib/stream_multiplexer.rs: the task that `new_stream` spawns for a stream: it connects, runs
-- `run_internal_stream`, which spawns the read task and the write task and waits for the first of them to
-- end, and sends DISCONNECT. The two tasks go on until they see their token.
pub mod Adds
pub mod Gives
pub mod Leaves
pub mod Speaks
pub mod Steps
pub mod Reads
pub mod Writes
use mobiletunnel.Prelude.{
  ℕ, List, [], ◌∷◌, ◌++◌, Bool, true, false, ◌&&◌, ◌||◌, not, if◌then◌else◌, drop, length,
}
use mobiletunnel.Multiplexer.Message.{ChannelMessage, disconnect, resume}
use mobiletunnel.Multiplexer.Flow.{
  StreamFlowControl, new_flow, TrySend, count_in, Wrote, went_on, resumed, ended, write_message,
}
use mobiletunnel.Multiplexer.Socket.{
  Place, at_top, waits_resume, reads, over, ReadTask, SocketEvent, stopped, read_task_step,
  WriteTask, WriteAnswer, all_written, cut_off, write_step,
}

-- Where the task stands: it connects, it is in the `select!` of `run_internal_stream`, it is about to send
-- DISCONNECT, or it is over.
pub data Stage : Type 0 where
  connecting inside leaving gone : Stage

-- `read.flow` is the flow control that all of them share, `cancelled` is whether `done` or the interrupt is
-- cancelled, and `to_channel` lists what went to the multiplexer, of all three tasks.
pub record StreamTask : Type 0 where
  pub stage : Stage
  pub spawned : Bool
  pub read : ReadTask
  pub writing : WriteTask
  pub cancelled : Bool
  pub to_channel : List ChannelMessage

-- The task connects, or cannot; the interrupt; what the read task meets; a message that the write task
-- takes, with what it meets; one at which it meets the cancelled token, when so many bytes are written; the
-- end of the write task without a message: a cancelled token, or a closed
-- channel; `select!`; the send of DISCONNECT, with whether the channel takes it; `abort`; and the
-- multiplexer that counts in a message.
pub data TaskEvent : Type 0 where
  connected : Bool → TaskEvent
  interrupts selects aborts write_stops : TaskEvent
  of_read : SocketEvent → TaskEvent
  of_write : ChannelMessage → WriteAnswer → TaskEvent
  write_cancelled : ChannelMessage → ℕ → TaskEvent
  disconnects : Bool → TaskEvent
  counts : TrySend → TaskEvent

-- `incoming` is what the socket will yield.
unfoldable pub new_task : List ℕ → StreamTask
new_task incoming = record {
  stage = connecting;
  spawned = false;
  read = record { place = at_top; flow = new_flow; incoming = incoming; sent = [] };
  writing = record { flow = new_flow; outgoing = []; running = true };
  cancelled = false;
  to_channel = [];
}

-- With a stream that is accepted there is nothing to connect, and with an address `connect` can fail.
abbrev pub on_connected : StreamTask → Stage → Bool → StreamTask
on_connected t connecting connects =
    if connects then record t { stage = inside; spawned = true } else record t { stage = leaving }
on_connected t inside connects = t
on_connected t leaving connects = t
on_connected t gone connects = t

abbrev pub is_stopped : SocketEvent → Bool
is_stopped stopped = true
is_stopped e = false

-- One event of the read task, and what it sent at it.
unfoldable pub on_read : ℕ → StreamTask → SocketEvent → StreamTask
unfolding read_task_step
on_read id t e =
    let read = read_task_step id t.read e in
    record t { read = read; to_channel = t.to_channel ++ drop (length t.read.sent) read.sent }

-- A RESUME of the write task.
abbrev pub resume_of : ℕ → Wrote → List ChannelMessage
resume_of id went_on = []
resume_of id resumed = resume id ∷ []
resume_of id ended = []

abbrev pub said : ℕ → ChannelMessage → WriteAnswer → StreamFlowControl → List ChannelMessage
said id message (all_written delivered) flow =
    resume_of id (write_message message true delivered flow).1
said id message (cut_off n) flow = []

unfoldable pub on_write : ℕ → StreamTask → ChannelMessage → WriteAnswer → StreamTask
unfolding write_step
on_write id t message answer =
    let write = write_step (record (t.writing) { flow = t.read.flow }) message answer in
    record t {
      read = record (t.read) { flow = write.flow };
      writing = write;
      to_channel = t.to_channel ++ said id message answer t.read.flow;
    }

abbrev pub is_over : Place → Bool
is_over at_top = false
is_over waits_resume = false
is_over reads = false
is_over over = true

-- The first end of the two tasks; the guard that is dropped cancels `done`.
abbrev pub on_select : StreamTask → Stage → StreamTask
on_select t connecting = t
on_select t inside =
    if is_over t.read.place || not t.writing.running
    then record t { stage = leaving; cancelled = true }
    else t
on_select t leaving = t
on_select t gone = t

abbrev pub on_disconnect : ℕ → StreamTask → Stage → Bool → StreamTask
on_disconnect id t connecting delivered = t
on_disconnect id t inside delivered = t
on_disconnect id t leaving delivered = record t {
  stage = gone;
  to_channel = t.to_channel ++ (if delivered then disconnect id ∷ [] else []);
}
on_disconnect id t gone delivered = t

unfoldable pub task_step : ℕ → StreamTask → TaskEvent → StreamTask
unfolding on_read on_write count_in
task_step id t (connected connects) = on_connected t t.stage connects
task_step id t interrupts = record t { cancelled = true }
task_step id t (of_read e) =
    if t.spawned && (t.cancelled || not (is_stopped e)) then on_read id t e else t
task_step id t (of_write message answer) =
    if t.spawned && t.writing.running then on_write id t message answer else t
task_step id t (write_cancelled message n) =
    if (t.spawned && t.cancelled) && t.writing.running then on_write id t message (cut_off n) else t
task_step id t write_stops =
    if t.spawned then record t { writing = record (t.writing) { running = false } } else t
task_step id t selects = on_select t t.stage
task_step id t (disconnects delivered) = on_disconnect id t t.stage delivered
task_step id t aborts = record t { stage = gone; cancelled = true }
task_step id t (counts answer) = record t {
  read = record (t.read) { flow = (count_in t.read.flow answer).0 };
}

unfoldable pub stream_task : ℕ → StreamTask → List TaskEvent → StreamTask
unfolding task_step
stream_task id t [] = t
stream_task id t (e ∷ es) = stream_task id (task_step id t e) es
