-- ===== src/Multiplexer/Socket/Writer.antt =====
-- src/lib/stream_multiplexer.rs: the write task of `run_internal_stream`, and the bytes that its socket
-- is given.
use mobiletunnel.Prelude.{ℕ, ◌≡◌, refl, List, ◌++◌, Bool, true, false, if◌then◌else◌}
use mobiletunnel.Multiplexer.Message.{
  ChannelMessage, connect, data_msg, disconnect, error_msg, pause, resume,
}
use mobiletunnel.Multiplexer.Flow.{
  StreamFlowControl, Wrote, went_on, resumed, ended, write_message, count_out,
}
use mobiletunnel.Multiplexer.Socket.{
  WriteAnswer, all_written, cut_off, WriteTask, on_wrote, body, write_step,
}

pub on_wrote-outgoing :
    (t : WriteTask) (bytes : List ℕ) (got : StreamFlowControl × Wrote)
    → (on_wrote t bytes got).outgoing ≡ t.outgoing ++ bytes
unfolding on_wrote
on_wrote-outgoing t bytes (flow, went_on) = refl
on_wrote-outgoing t bytes (flow, resumed) = refl
on_wrote-outgoing t bytes (flow, ended) = refl

-- A write that is cut off ends the task.
pub cut_off-over :
    (t : WriteTask) (m : ChannelMessage) (n : ℕ) → (write_step t m (cut_off n)).running ≡ false
unfolding write_step on_wrote write_message
cut_off-over t (connect id) n = refl
cut_off-over t (data_msg id bytes) n = refl
cut_off-over t (disconnect id) n = refl
cut_off-over t (error_msg id message) n = refl
cut_off-over t (pause id) n = refl
cut_off-over t (resume id) n = refl

-- A message that carries bytes for the socket.
abbrev pub IsData : ChannelMessage → Type 0
IsData m = (id : ℕ) × (bytes : List ℕ) × (m ≡ data_msg id bytes)

-- The answer of a write that is done, with the channel to the multiplexer open.
abbrev pub done : ChannelMessage → WriteAnswer
done m = all_written true

written-running :
    (t : WriteTask) (bytes : List ℕ) (counted : StreamFlowControl × Bool)
    → (on_wrote t bytes (if counted.1 then (counted.0, resumed) else (counted.0, went_on))).running
      ≡ t.running
unfolding on_wrote
written-running t bytes (flow, true) = refl
written-running t bytes (flow, false) = refl

-- The task goes on behind a write that is done.
pub done-running :
    (t : WriteTask) (m : ChannelMessage) → IsData m → (write_step t m (done m)).running ≡ t.running
unfolding write_step write_message
done-running t m (id, bytes, e) = rw e (written-running t bytes (count_out t.flow))

pub done-outgoing :
    (t : WriteTask) (m : ChannelMessage) → (write_step t m (done m)).outgoing ≡ t.outgoing ++ body m
unfolding write_step
done-outgoing t m = on_wrote-outgoing t (body m) (write_message m true true t.flow)
