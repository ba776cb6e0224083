-- ===== src/Tunnel/Tests/Late.antt =====
-- src/lib/reconnecting_stream.rs and src/lib/stream_multiplexer.rs together: runs in which a connection of both
-- has brought a part of what was sent.
use mathlib.Core.Path.{subst}
use mobiletunnel.Prelude.{
  ◌≡◌, refl, ap, ◌∙◌, List, [], ◌∷◌, ◌++◌, true, none, some, map, arith, IsFront, append-nil, sym,
}
use mobiletunnel.Bytes.{to_le_bytes}
use mobiletunnel.Stream.Codec.{StreamCodecMessage, hello, data_msg}
use mobiletunnel.Stream.Codec as Codec
use mobiletunnel.Stream.State.{new, enqueue, make_hello, ack, received_one_message}
use mobiletunnel.Stream.Session.{
  step, step_in, step_waiting, step_looping, on_first, on_hello, on_tcp, on_data, resend, write,
  start, is_stranger, tcp_rx,
}
use mobiletunnel.Stream.Delivery.{
  World, Reach, next, left_moves, right_moves, reads, joins, begin, greeting, after, hear, acted,
}
use mobiletunnel.Stream.Delivery.Moves.{Bounded}
use mobiletunnel.Multiplexer.Message.{ChannelMessage, connect, disconnect, encode, frame}
use mobiletunnel.Multiplexer.Message as Message
use mobiletunnel.Multiplexer.Flow.{taken, OngoingStreamState}
use mobiletunnel.Multiplexer.Tracker.{fresh_stream, get}
use mobiletunnel.Multiplexer.Server.{
  server, client, handle, Multiplexer, Event, from_stream, running, run, step_running,
}
use mobiletunnel.Multiplexer.Server as Server
use mobiletunnel.Multiplexer.Server.Sends.Runs.{sent_messages}
use mobiletunnel.Multiplexer.Server.Payloads.{Arrival, arrive, payloads_in_order}
use mobiletunnel.Multiplexer.Socket.{reads, cut_off}
use mobiletunnel.Multiplexer.Socket.Task.{
  StreamTask, TaskEvent, write_cancelled, connected, of_write, selects, new_task, task_step,
  stream_task,
}
use mobiletunnel.Multiplexer.Socket.Task.Writes.{taken_out}
use mobiletunnel.Tunnel.Bytes.{tunnel_bytes}
use mobiletunnel.Tunnel.Channel.{queue_of}
use mobiletunnel.Tunnel.Loss.{task_behind, bytes_can_be_lost}
use mobiletunnel.Multiplexer.Server.Delivery.{Holds, for_stream}
use mobiletunnel.Tunnel.Tests.{
  hi, incoming, near_events, near_task, earlier, sent, opener, near_turns, from_task, options, w0,
  w3, r3, serving, always_taken, taken_is_open,
}

-- On a connection of both, the left endpoint reads the hello, and the right one the hello and two of the
-- three messages.
abbrev w4 : World
w4 = record {
  left = begin w3.left (greeting w3.right);
  right = begin w3.right (greeting w3.left);
  joined = true;
}

abbrev left_reads : World → StreamCodecMessage → List StreamCodecMessage → World
left_reads w m rest = record {
  left = after w.left (tcp_rx (some m)) rest;
  right = hear true w.right (acted w.left (tcp_rx (some m))).written;
  joined = true;
}

abbrev right_reads : World → StreamCodecMessage → List StreamCodecMessage → World
right_reads w m rest = record {
  left = hear true w.left (acted w.right (tcp_rx (some m))).written;
  right = after w.right (tcp_rx (some m)) rest;
  joined = true;
}

abbrev to_write : List StreamCodecMessage
to_write = map Codec.data_msg (map encode (earlier ++ sent))

abbrev w5 : World
w5 = left_reads w4 (hello (make_hello w3.right.session.state)) []

abbrev w6 : World
w6 = right_reads w5 (hello (make_hello w3.left.session.state)) to_write

abbrev w7 : World
w7 = right_reads w6 (data_msg (encode (connect 1))) (map Codec.data_msg (map encode sent))

abbrev w8 : World
w8 =
    right_reads w7 (data_msg (encode (Message.data_msg 1 hi)))
      (map Codec.data_msg (map encode (disconnect 2 ∷ [])))

r5 : Reach w0 w5
unfolding new start enqueue
r5 = next (next r3 (left_moves (joins refl refl))) (left_moves (reads _ [] refl refl))

r6 : Reach w0 w6
unfolding new start step step_in step_waiting on_first on_hello is_stranger ack resend write
    make_hello enqueue Codec.encode encode frame to_le_bytes
r6 = next r5 (right_moves (reads _ to_write refl refl))

r8 : Reach w0 w8
unfolding new start step step_in step_waiting step_looping on_first on_hello on_tcp on_data
    received_one_message is_stranger ack resend write make_hello enqueue Codec.encode encode frame
    to_le_bytes
r8 = next (next r6 (right_moves (reads _ _ refl refl))) (right_moves (reads _ _ refl refl))

w8-Bounded : Bounded w8
w8-Bounded = record { left = omega arith; right = omega arith }

received :
    IsFront
      (map encode earlier ++ (encode (Message.data_msg 1 hi) ∷ []))
      w8.right.session.state.sender
unfolding new start step step_in step_waiting step_looping on_first on_hello on_tcp on_data
    received_one_message is_stranger ack resend write make_hello enqueue Codec.encode encode frame
    to_le_bytes
received = ([], refl)

accepted_all : IsFront w8.left.queued (run client opener near_turns).frames
unfolding new start step step_in step_waiting step_looping on_first on_hello on_tcp on_data
    received_one_message is_stranger ack resend write make_hello enqueue Codec.encode encode frame
    to_le_bytes run Server.step step_running
accepted_all = ([], refl)

abbrev early : List Arrival
early = (encode (Message.data_msg 1 hi), always_taken) ∷ []

-- The far task connects, and its write task is cut off after one byte.
abbrev far_events : List TaskEvent
far_events = connected true ∷ of_write (Message.data_msg 1 hi) (cut_off 1) ∷ selects ∷ []

takes_queue :
    IsFront
      (taken_out 1 (new_task []) far_events)
      (queue_of (get 1 (run server serving (map arrive early)).streams))
unfolding taken_out task_step new_task encode frame to_le_bytes get fresh_stream
takes_queue =
    let (on, (stream, there, alive, e)) =
      payloads_in_order server 1 serving (Message.data_msg 1 hi ∷ []) early [] (refl, refl) refl
        (omega arith, tt) (taken_is_open, tt) ((refl, refl), tt) (fresh_stream, refl, refl, refl) in
    subst (IsFront (taken_out 1 (new_task []) far_events)) (sym (ap queue_of there ∙ e)) ([], refl)

tunnel_bytes_example :
    ((stream : OngoingStreamState) × (get 1 (run server serving (map arrive early)).streams
        ≡ some stream))
    × IsFront (stream_task 1 (new_task []) far_events).writing.outgoing incoming
unfolding new enqueue encode frame to_le_bytes get fresh_stream sent_messages Server.step
    step_running
tunnel_bytes_example =
    tunnel_bytes 1 incoming near_events client opener near_turns earlier refl
      (subst (λ (l : List ChannelMessage). IsFront l (for_stream 1 near_task.to_channel))
        (sym from_task) ([], sym (append-nil _)))
      (omega arith, (omega arith, tt)) 1 2 options options r8 w8-Bounded accepted_all
      (encode (Message.data_msg 1 hi) ∷ []) received server serving early (refl, refl) refl
      (taken_is_open, tt) ((refl, refl), ((refl, refl), tt)) (fresh_stream, refl, refl, refl) []
      far_events takes_queue

-- The far task has connected; then its write task is cut off when it has written one of two bytes.
abbrev far_start : StreamTask
far_start = stream_task 1 (new_task []) (connected true ∷ [])

bytes_can_be_lost_example :
    let m = Message.data_msg 1 hi in
    let held = handle server m taken serving.streams in
    let told = task_behind 1 held far_start in
    let left = handle server (disconnect 1) taken held.streams in
    let cut = task_step 1 (task_behind 1 left told) (write_cancelled m 1) in
    Holds 1 (m ∷ []) held.streams
    × (task_step 1 told (write_cancelled m 1) ≡ told)
    × (get 1 left.streams ≡ none)
    × (cut.writing.outgoing ≡ b'h' ∷ [])
    × ((stream_task 1 cut (selects ∷ [])).writing.outgoing ≡ cut.writing.outgoing)
unfolding get fresh_stream stream_task task_step new_task
bytes_can_be_lost_example =
    bytes_can_be_lost server 1 hi taken taken serving.streams [] far_start 1 (selects ∷ [])
      (fresh_stream, refl, refl, refl) refl refl refl
