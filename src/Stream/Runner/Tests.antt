-- ===== src/Stream/Runner/Tests.antt =====
-- src/lib/reconnecting_stream.rs: the client's and the server's loop at concrete inputs.
use mobiletunnel.Prelude.{◌≡◌, refl, List, [], ◌∷◌, true, false, some, Option}
use mobiletunnel.Stream.Codec.{hello, data_msg}
use mobiletunnel.Stream.State.{StreamState, StreamOptions, new, is_full, enqueue}
use mobiletunnel.Stream.Session.{returned, tcp_rx}
use mobiletunnel.Stream.Delivery.{World, Reach}
use mobiletunnel.Stream.Delivery.Moves.{unconnected}
use mobiletunnel.Stream.Runner.{
  WaitEvent, app_waits, slept, run_unconnected_stream, ClientRound, run_client,
}
use mobiletunnel.Stream.Runner.Tasks.{
  ServerEvent, accepts, can_send, serves, in_stream, start_server, server_tasks,
}
use mobiletunnel.Stream.Runner.Tasks.Sockets.{InOrder, server_tasks-InOrder}
use mobiletunnel.Stream.Runner.Waiting.{wait_reaches}
use mobiletunnel.Stream.Runner.Client.{peer_is_pinned}

abbrev options : StreamOptions
options = record { max_window = 100 }

abbrev waiting_events : List WaitEvent
waiting_events = app_waits (some (b'h' ∷ b'i' ∷ [])) ∷ slept ∷ []

wait_reaches_example :
    (w : World) × Reach
      (record { left = unconnected 1 options; right = unconnected 2 options; joined = false })
      w
    × (w.left.session.state ≡ run_unconnected_stream (new 1 options) waiting_events)
    × (w.left.session.phase ≡ returned)
    × (w.right ≡ unconnected 2 options)
    × (w.joined ≡ false)
    × (w.left.queued ≡ (b'h' ∷ b'i' ∷ []) ∷ [])
    × ((run_unconnected_stream (new 1 options) waiting_events).sent_unacked
        ≡ (b'h' ∷ b'i' ∷ []) ∷ [])
unfolding new is_full enqueue
wait_reaches_example =
    wait_reaches (unconnected 1 options) (unconnected 2 options) false waiting_events refl

-- A peer greets, sends a message, and is gone; then another one greets.
abbrev rounds : List ClientRound
rounds =
    record {
      is_cancelled = false;
      connects = true;
      wrote = true;
      events =
          tcp_rx (some (hello (record { sender_id = 2; sender_last_rx = 0 })))
          ∷ tcp_rx (some (data_msg (b'h' ∷ [])))
          ∷ tcp_rx Option.none
          ∷ [];
      joined = true;
      waits = waiting_events;
    }
    ∷ record {
      is_cancelled = false;
      connects = true;
      wrote = true;
      events = tcp_rx (some (hello (record { sender_id = 3; sender_last_rx = 0 }))) ∷ [];
      joined = false;
      waits = [];
    }
    ∷ []

abbrev friend_of_two : StreamState
friend_of_two = record {
  id = 1;
  remote_id = some 2;
  options = options;
  sent_unacked = [];
  base_offset = 0;
  sender = [];
  app_open = true;
  received_seq = 0;
}

peer_is_pinned_example : (run_client friend_of_two rounds).remote_id ≡ some 2
peer_is_pinned_example = peer_is_pinned friend_of_two rounds 2 refl

-- Three sockets, of which the second one is served first, since the first one is older.
abbrev socket_events : List ServerEvent
socket_events =
    accepts 1
    ∷ can_send
    ∷ accepts 2
    ∷ can_send
    ∷ serves true
    ∷ in_stream (tcp_rx Option.none)
    ∷ accepts 3
    ∷ []

server_tasks-InOrder_example : InOrder (server_tasks (start_server (new 1 options)) socket_events)
server_tasks-InOrder_example = server_tasks-InOrder (new 1 options) socket_events
