-- ===== src/Multiplexer/Socket.antt =====
-- src/lib/stream_multiplexer.rs: `run_internal_stream`, the two tasks between a stream's tcp socket and
-- the multiplexer. The read task is a step function over what its two `select!`s can pick, and the write
-- task one over the messages of its channel.
pub mod Chunks
pub mod Paused
pub mod Reader
pub mod Writer
pub mod Task
mod Tests
use mobiletunnel.Prelude.{
  ℕ, List, [], ◌∷◌, ◌++◌, Bool, true, false, if◌then◌else◌, take, drop, length,
}
use mobiletunnel.Multiplexer.Message.{
  ChannelMessage, connect, data_msg, disconnect, error_msg, pause, resume,
}
use mobiletunnel.Multiplexer.Flow.{
  StreamFlowControl, stop_reading, go_on_reading, Wrote, went_on, resumed, ended, write_message,
}

-- The size of the buffer that the read task reads into.
abbrev pub rx_bytes_len : ℕ
rx_bytes_len = 4096

-- Where the read task stands: before the test of `read_paused`, in the `select!` that waits for RESUME,
-- in the one that reads, or it has ended.
pub data Place : Type 0 where
  at_top waits_resume reads over : Place

-- `incoming` is what the socket will yield, and `sent` what went to the multiplexer.
pub record ReadTask : Type 0 where
  pub place : Place
  pub flow : StreamFlowControl
  pub incoming : List ℕ
  pub sent : List ChannelMessage

-- The events: a turn of the loop, a cancelled token (of `done` or of the interrupt), the notification,
-- what `read` answers, and the peer's PAUSE and RESUME, which `process_channel_rx` handles beside it.
-- `ready n delivered` is a read of `n` bytes at most, with whether the channel takes the message;
-- `failed interrupted` is an error, with whether its kind is `Interrupted`.
pub data SocketEvent : Type 0 where
  turn stopped notified told_pause told_resume : SocketEvent
  ready : ℕ → Bool → SocketEvent
  failed : Bool → SocketEvent

abbrev pub at : ReadTask → Place → ReadTask
at t place = record t { place = place }

-- `Ok(n)`: no byte is the end of the stream.
unfoldable pub on_bytes : ℕ → ReadTask → List ℕ → List ℕ → Bool → ReadTask
on_bytes id t [] rest delivered = at t over
on_bytes id t (x ∷ xs) rest delivered =
    if delivered
    then record t { place = at_top; incoming = rest; sent = t.sent ++ (data_msg id (x ∷ xs) ∷ []) }
    else record t { place = over; incoming = rest }

-- The answer of `read`, which fills the buffer at most.
unfoldable pub on_ready : ℕ → ReadTask → ℕ → Bool → ReadTask
unfolding on_bytes
on_ready id t n delivered =
    let room = take rx_bytes_len (take n t.incoming) in
    on_bytes id t room (drop (length room) t.incoming) delivered

unfoldable pub step_top : ReadTask → SocketEvent → ReadTask
step_top t turn = at t (if t.flow.read_paused then waits_resume else reads)
step_top t e = t

-- `notified` takes the permit, if there is one.
unfoldable pub on_notified : ReadTask → ReadTask
on_notified t =
    if t.flow.resume_permit
    then record t { place = at_top; flow = record (t.flow) { resume_permit = false } }
    else t

unfoldable pub step_waits : ReadTask → SocketEvent → ReadTask
unfolding on_notified
step_waits t stopped = at t over
step_waits t notified = on_notified t
step_waits t e = t

unfoldable pub step_reads : ℕ → ReadTask → SocketEvent → ReadTask
unfolding on_ready
step_reads id t stopped = at t over
step_reads id t (ready n delivered) = on_ready id t n delivered
step_reads id t (failed interrupted) = at t (if interrupted then at_top else over)
step_reads id t e = t

unfoldable pub step_at : ℕ → Place → ReadTask → SocketEvent → ReadTask
unfolding step_top step_waits step_reads
step_at id at_top t e = step_top t e
step_at id waits_resume t e = step_waits t e
step_at id reads t e = step_reads id t e
step_at id over t e = t

-- A message of the peer changes the flow control, wherever the task stands.
unfoldable pub read_task_step : ℕ → ReadTask → SocketEvent → ReadTask
unfolding step_at
read_task_step id t told_pause = record t { flow = stop_reading t.flow }
read_task_step id t told_resume = record t { flow = go_on_reading t.flow }
read_task_step id t e = step_at id t.place t e

unfoldable pub read_task : ℕ → ReadTask → List SocketEvent → ReadTask
unfolding read_task_step
read_task id t [] = t
read_task id t (e ∷ es) = read_task id (read_task_step id t e) es

-- What the write task meets at one message: a write of all bytes, with whether the channel takes a
-- RESUME if one is due, or the end of the task after some bytes: an error, or a cancelled token.
pub data WriteAnswer : Type 0 where
  all_written : Bool → WriteAnswer
  cut_off : ℕ → WriteAnswer

-- What the socket was given, and the flow control.
pub record WriteTask : Type 0 where
  pub flow : StreamFlowControl
  pub outgoing : List ℕ
  pub running : Bool

unfoldable pub on_wrote : WriteTask → List ℕ → StreamFlowControl × Wrote → WriteTask
on_wrote t bytes (flow, went_on) = record t { flow = flow; outgoing = t.outgoing ++ bytes }
on_wrote t bytes (flow, resumed) = record t { flow = flow; outgoing = t.outgoing ++ bytes }
on_wrote t bytes (flow, ended) = record {
  flow = flow;
  outgoing = t.outgoing ++ bytes;
  running = false;
}

-- The bytes of a message that the socket is given.
abbrev pub body : ChannelMessage → List ℕ
body (data_msg id to_send) = to_send
body (connect id) = []
body (disconnect id) = []
body (error_msg id message) = []
body (pause id) = []
body (resume id) = []

unfoldable pub write_step : WriteTask → ChannelMessage → WriteAnswer → WriteTask
unfolding on_wrote write_message
write_step t message (all_written delivered) =
    on_wrote t (body message) (write_message message true delivered t.flow)
write_step t message (cut_off n) =
    on_wrote t (take n (body message)) (write_message message false false t.flow)
