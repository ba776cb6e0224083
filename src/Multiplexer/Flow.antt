-- ===== src/Multiplexer/Flow.antt =====
-- src/lib/stream_multiplexer.rs: `StreamFlowControl`, and the two tasks of `run_internal_stream` that
-- use it with `OngoingStreamTracker::data`: the write task, and the read task. The counters are
-- `usize`, and wrap.
pub mod Pauses
pub mod Races
pub mod Reads
use mobiletunnel.Prelude.{
  ℕ, ◌+◌, ◌-◌, ◌%◌, ◌^◌, List, [], ◌∷◌, ◌++◌, Bool, true, false, ◌&&◌, not, ltb, leb, if◌then◌else◌,
}
use mobiletunnel.Multiplexer.Message.{
  ChannelMessage, connect, data_msg, disconnect, error_msg, pause, resume,
}

abbrev pub backpressure_high_water : ℕ
backpressure_high_water = 64

abbrev pub backpressure_low_water : ℕ
backpressure_low_water = 16

-- `resume_permit` is the permit that `Notify::notify_one` leaves for the next `notified`.
pub record StreamFlowControl : Type 0 where
  pub pending : ℕ
  pub sent_pause : Bool
  pub read_paused : Bool
  pub resume_permit : Bool

unfoldable pub new_flow : StreamFlowControl
new_flow = record { pending = 0; sent_pause = false; read_paused = false; resume_permit = false }

-- A stream of the tracker: the messages in its unbounded channel, whether its write task still holds
-- the other end of that channel, and its flow control.
pub record OngoingStreamState : Type 0 where
  pub into_stream : List ChannelMessage
  pub alive : Bool
  pub flow : StreamFlowControl

-- What the bounded channel answers to `try_send`.
pub data TrySend : Type 0 where
  taken full closed : TrySend

-- What counting a new message asks for: nothing, a PAUSE, or a PAUSE that finds the channel closed.
pub data Counted : Type 0 where
  counted pause_sent pause_failed : Counted

-- `fetch_add`, and the test that crosses the high-water mark.
unfoldable pub count_in : StreamFlowControl → TrySend → StreamFlowControl × Counted
count_in flow answer =
    let pending = (flow.pending + 1) % 2 ^ 64 in
    let more = record flow { pending = pending } in
    if leb backpressure_high_water pending && not flow.sent_pause
    then elim answer [
      | taken ↦ (record more { sent_pause = true }, pause_sent)
      | full ↦ (record more { sent_pause = false }, counted)
      | closed ↦ (record more { sent_pause = true }, pause_failed)
    ]
    else (more, counted)

-- `fetch_sub`, and the test that crosses the low-water mark: the flag says whether a RESUME is due, which the
-- write task puts into the tracker's channel.
unfoldable pub count_out : StreamFlowControl → StreamFlowControl × Bool
count_out flow =
    let prev = flow.pending in
    let less = record flow { pending = (prev + 2 ^ 64 - 1) % 2 ^ 64 } in
    if leb prev backpressure_low_water && flow.sent_pause
    then (record less { sent_pause = false }, true)
    else (less, false)

-- What the write task does next: go on, go on after sending RESUME, or end.
pub data Wrote : Type 0 where
  went_on resumed ended : Wrote

-- One message in the write task; `written` says whether `write_all` succeeds, and `delivered` whether
-- the channel to the multiplexer takes the RESUME.
unfoldable pub write_message :
    ChannelMessage → Bool → Bool → StreamFlowControl → StreamFlowControl × Wrote
unfolding count_out
write_message (data_msg id to_send) written delivered flow =
    if written
    then (let (less, resuming) = count_out flow in
        if resuming
        then (if delivered then (less, resumed) else (less, ended))
        else (less, went_on))
    else (flow, ended)
write_message (connect id) written delivered flow = (flow, ended)
write_message (disconnect id) written delivered flow = (flow, ended)
write_message (error_msg id message) written delivered flow = (flow, ended)
write_message (pause id) written delivered flow = (flow, ended)
write_message (resume id) written delivered flow = (flow, ended)

-- `pause_read` and `resume_read` on a stream that is there.
unfoldable pub stop_reading : StreamFlowControl → StreamFlowControl
stop_reading flow = record flow { read_paused = true }

pub go_on_reading : StreamFlowControl → StreamFlowControl
go_on_reading flow = record flow { read_paused = false; resume_permit = true }

-- What the read task does at the top of its loop: read from the socket, look at the flag again after a
-- notification, or wait.
pub data Reading : Type 0 where
  reads_socket looks_again blocked : Reading

pub read_round : StreamFlowControl → StreamFlowControl × Reading
read_round flow =
    if flow.read_paused
    then (if flow.resume_permit
        then (record flow { resume_permit = false }, looks_again)
        else (flow, blocked))
    else (flow, reads_socket)
