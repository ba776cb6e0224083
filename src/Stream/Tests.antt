-- ===== src/Stream/Tests.antt =====
-- src/lib/reconnecting_stream.rs: runs at concrete inputs.
use mobiletunnel.Prelude.{ℕ, ◌≡◌, refl, List, [], ◌∷◌, ◌++◌, true, some, arith}
use mobiletunnel.Stream.Codec.{StreamCodecMessage, hello, data_msg, ack_msg, encode}
use mobiletunnel.Stream.State.{
  StreamOptions, new, enqueue, is_full, make_hello, ack, received_one_message,
}
use mobiletunnel.Stream.Session.{
  step, step_in, step_waiting, step_looping, on_first, on_hello, on_tcp, on_data, resend, write,
  start, is_stranger, tcp_rx,
}
use mobiletunnel.Stream.Delivery.{
  World, Reach, here, next, left_moves, right_moves, reads, joins, queues, begin, greeting, after,
  hear, acted,
}
use mobiletunnel.Stream.Delivery.Moves.{initial, Bounded}
use mobiletunnel.Stream.Delivery.Guarantees.{
  FrontOf, Kept, delivered_in_order, nothing_dropped, IsAccepted, reads-IsAccepted,
}

abbrev options : StreamOptions
options = record { max_window = 100 }

abbrev greeting_bytes : List ℕ
greeting_bytes = b'h' ∷ b'i' ∷ []

-- Two endpoints; the left one queues a message, both get a connection, and all of it is read.
abbrev w0 : World
w0 = initial 1 2 options options

abbrev w1 : World
w1 = record w0 {
  left = record (w0.left) {
    session = record (w0.left.session) { state = enqueue w0.left.session.state greeting_bytes };
    queued = w0.left.queued ++ (greeting_bytes ∷ []);
  };
}

r1 : Reach w0 w1
unfolding new is_full
r1 = next here (left_moves (queues greeting_bytes refl refl))

abbrev w2 : World
w2 = record {
  left = begin w1.left (greeting w1.right);
  right = begin w1.right (greeting w1.left);
  joined = true;
}

r2 : Reach w0 w2
unfolding new
r2 = next r1 (left_moves (joins refl refl))

-- The left endpoint reads the right one's hello, and writes its queue.
abbrev left_hello : StreamCodecMessage
left_hello = hello (make_hello w1.right.session.state)

abbrev w3 : World
w3 = record {
  left = after w2.left (tcp_rx (some left_hello)) [];
  right = hear true w2.right (acted w2.left (tcp_rx (some left_hello))).written;
  joined = true;
}

r3 : Reach w0 w3
unfolding new start
r3 = next r2 (left_moves (reads left_hello [] refl refl))

-- The right endpoint reads the left one's hello, and then the message.
abbrev right_hello : StreamCodecMessage
right_hello = hello (make_hello w1.left.session.state)

abbrev right_rest : List StreamCodecMessage
right_rest = data_msg greeting_bytes ∷ []

abbrev w4 : World
w4 = record {
  left = hear true w3.left (acted w3.right (tcp_rx (some right_hello))).written;
  right = after w3.right (tcp_rx (some right_hello)) right_rest;
  joined = true;
}

r4 : Reach w0 w4
unfolding new start step step_in step_waiting on_first on_hello is_stranger ack resend write
    make_hello enqueue encode
r4 = next r3 (right_moves (reads right_hello right_rest refl refl))

abbrev w5 : World
w5 = record {
  left = hear true w4.left (acted w4.right (tcp_rx (some (data_msg greeting_bytes)))).written;
  right = after w4.right (tcp_rx (some (data_msg greeting_bytes))) [];
  joined = true;
}

r5 : Reach w0 w5
unfolding new start step step_in step_waiting on_first on_hello is_stranger ack resend write
    make_hello enqueue encode
r5 = next r4 (right_moves (reads (data_msg greeting_bytes) [] refl refl))

w5-Bounded : Bounded w5
w5-Bounded = record { left = omega arith; right = omega arith }

received_once : w5.right.session.state.sender ≡ greeting_bytes ∷ []
unfolding new start step step_in step_waiting on_first on_hello is_stranger ack resend write
    make_hello enqueue encode step_looping on_tcp on_data received_one_message
received_once = refl

delivered_in_order_example :
    FrontOf w5.right.session.state.sender w5.left.queued
    × FrontOf w5.left.session.state.sender w5.right.queued
delivered_in_order_example = delivered_in_order 1 2 options options r5 w5-Bounded

nothing_dropped_example : Kept w5.left w5.right × Kept w5.right w5.left
nothing_dropped_example = nothing_dropped 1 2 options options r5 w5-Bounded

w5_inbox : w5.left.inbox ≡ ack_msg 1 ∷ []
unfolding new start step step_in step_waiting on_first on_hello is_stranger ack resend write
    make_hello enqueue encode step_looping on_tcp on_data received_one_message
w5_inbox = refl

reads-IsAccepted_example : IsAccepted w5.left.session.state (ack_msg 1)
reads-IsAccepted_example =
    reads-IsAccepted 1 2 options options r5 w5-Bounded (ack_msg 1) [] w5_inbox
