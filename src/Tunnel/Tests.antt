-- ===== src/Tunnel/Tests.antt =====
-- src/lib/reconnecting_stream.rs and src/lib/stream_multiplexer.rs together: runs at concrete inputs.
mod Late
use mathlib.Core.Path.{subst}
use mobiletunnel.Prelude.{
  ℕ, ◌≡◌, ◌≢◌, refl, ap, ◌∙◌, List, [], ◌∷◌, ◌++◌, true, none, some, map, IsFront, append-nil, sym,
}
use mobiletunnel.Bytes.{to_le_bytes}
use mobiletunnel.Stream.Codec.{StreamCodecMessage, hello, data_msg}
use mobiletunnel.Stream.Codec as Codec
use mobiletunnel.Stream.State.{
  StreamOptions, new, enqueue, is_full, make_hello, ack, received_one_message,
}
use mobiletunnel.Stream.Session.{
  step, step_in, step_waiting, step_looping, on_first, on_hello, on_tcp, on_data, resend, write,
  start, is_stranger, tcp_rx,
}
use mobiletunnel.Stream.Delivery.{
  World, Reach, here, next, left_moves, right_moves, reads, joins, queues, begin, greeting, after,
  hear, acted,
}
use mobiletunnel.Stream.Delivery.Moves.{initial}
use mobiletunnel.Multiplexer.Message.{ChannelMessage, connect, disconnect, encode, frame}
use mobiletunnel.Multiplexer.Message as Message
use mobiletunnel.Multiplexer.Flow.{TrySend, taken, closed, new_flow, OngoingStreamState}
use mobiletunnel.Multiplexer.Tracker.{fresh_stream}
use mobiletunnel.Multiplexer.Server.{
  client, handle, Multiplexer, Event, from_stream, running, step_running,
}
use mobiletunnel.Multiplexer.Server as Server
use mobiletunnel.Multiplexer.Server.Sends.Runs.{sent_messages, forwarded}
use mobiletunnel.Multiplexer.Server.Payloads.{Arrival, arrive, payloads_in_order}
use mobiletunnel.Multiplexer.Socket.{
  turn, ready, told_pause, reads, failed, read_task_step, step_at, step_top, step_reads, on_ready,
  on_bytes, WriteTask, cut_off,
}
use mobiletunnel.Multiplexer.Socket.Task.{
  StreamTask, TaskEvent, connected, of_read, of_write, selects, new_task, on_read, task_step,
  stream_task,
}
use mobiletunnel.Multiplexer.Server.Delivery.{Holds, for_stream}

abbrev pub hi : List ℕ
hi = b'h' ∷ b'i' ∷ []

-- The near end: a read that is interrupted, and one that yields two bytes.
abbrev pub incoming : List ℕ
incoming = hi ++ (b'!' ∷ [])

abbrev pub near_events : List TaskEvent
near_events =
    connected true
    ∷ of_read turn
    ∷ of_read (failed true)
    ∷ of_read turn
    ∷ of_read (ready 2 true)
    ∷ of_read told_pause
    ∷ of_read turn
    ∷ []

abbrev pub near_task : StreamTask
near_task = stream_task 1 (new_task incoming) near_events

abbrev pub earlier : List ChannelMessage
earlier = connect 1 ∷ []

abbrev pub sent : List ChannelMessage
sent = Message.data_msg 1 hi ∷ disconnect 2 ∷ []

-- The client's multiplexer, which has opened the stream, forwards the bytes, and the end of another stream.
abbrev pub opener : Multiplexer
opener = record {
  parser = record { buffer = [] };
  streams = (1, fresh_stream) ∷ [];
  frames = map encode earlier;
  stream_id = 2;
  status = running;
}

abbrev pub near_turns : List Event
near_turns =
    from_stream (some (Message.data_msg 1 hi)) true ∷ from_stream (some (disconnect 2)) true ∷ []

pub from_task :
    for_stream 1 (forwarded client opener near_turns) ≡ for_stream 1 near_task.to_channel
unfolding stream_task task_step new_task on_read read_task_step step_at step_top step_reads on_ready
    on_bytes new_flow forwarded Server.step step_running
from_task = refl

all_sent : sent_messages client opener near_turns ≡ sent
unfolding sent_messages Server.step step_running
all_sent = refl

-- Between: the near endpoint queues the three messages.
abbrev pub options : StreamOptions
options = record { max_window = 100 }

abbrev pub w0 : World
w0 = initial 1 2 options options

abbrev queueing : World → List ℕ → World
queueing w bytes = record w {
  left = record (w.left) {
    session = record (w.left.session) { state = enqueue w.left.session.state bytes };
    queued = w.left.queued ++ (bytes ∷ []);
  };
}

abbrev pub w3 : World
w3 =
    queueing (queueing (queueing w0 (encode (connect 1))) (encode (Message.data_msg 1 hi)))
      (encode (disconnect 2))

pub r3 : Reach w0 w3
unfolding new is_full enqueue encode frame to_le_bytes
r3 =
    next (next (next here (left_moves (queues _ refl refl))) (left_moves (queues _ refl refl)))
      (left_moves (queues _ refl refl))

-- The far end, with the stream open.
abbrev pub serving : Multiplexer
serving = record {
  parser = record { buffer = [] };
  streams = (1, fresh_stream) ∷ [];
  frames = [];
  stream_id = 1;
  status = running;
}

abbrev pub always_taken : ℕ → TrySend
always_taken n = taken

pub taken_is_open : (n : ℕ) → always_taken n ≢ closed
taken_is_open n = λ e. cc

abbrev arrivals : List Arrival
arrivals = map (λ bytes. (bytes, always_taken)) (map encode sent)

-- The far task has connected, and has written nothing yet.
abbrev far_events : List TaskEvent
far_events = connected true ∷ of_read turn ∷ []
