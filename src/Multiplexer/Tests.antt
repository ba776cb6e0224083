-- ===== src/Multiplexer/Tests.antt =====
-- src/lib/stream_multiplexer.rs: runs at concrete inputs.
use mobiletunnel.Prelude.{
  ◌+◌, ℕ, zero, suc, ◌≡◌, ◌≢◌, refl, ◌≤◌, ◌⊎◌, List, [], ◌∷◌, ◌++◌, true, false, some, none, ok,
  arith, length, map,
}
use mobiletunnel.Bytes.{to_le_bytes}
use mobiletunnel.Framing as Framing
use mobiletunnel.Framing.{feed, waits}
use mobiletunnel.Stream.Codec
use mobiletunnel.Multiplexer.Message.{
  ChannelMessage, connect, data_msg, disconnect, pause, MultiplexerError, encode, parse, frame,
}
use mobiletunnel.Multiplexer.Message.RoundTrip.{feed-messages, encode_size}
use mobiletunnel.Multiplexer.Flow.{TrySend, taken, closed, new_flow, count_in, count_out}
use mobiletunnel.Multiplexer.Flow.Pauses.{
  FlowEvent, arrives, leaves, forwards, flow_run, flow_step, leave_step, forward_step, flow_start,
  pauses, resumings, may_send, resumed_when_drained, pause_can_be_overtaken,
}
use mobiletunnel.Multiplexer.Tracker.{Streams, fresh_stream, get, new_stream}
use mobiletunnel.Multiplexer.Server.{
  server, client, handle, Multiplexer, new_multiplexer, running, accepted, step, step_running,
  on_accept, run, process_channel_rx, ChannelMessageParser, waiting, failed,
}
use mobiletunnel.Multiplexer.Server.Handling.{handle_others}
use mobiletunnel.Multiplexer.Server.Delivery.{Holds}
use mobiletunnel.Multiplexer.Server.Loop.{finish, handle_all, process-refines}
use mobiletunnel.Multiplexer.Server.Settles.{process_settles}
use mobiletunnel.Multiplexer.Server.Payloads.{Arrival, arrive, IsRunning, payloads_in_order}
use mobiletunnel.Multiplexer.Server.Ids.{accepts_fresh_id}

abbrev hi : List ℕ
hi = b'h' ∷ b'i' ∷ []

abbrev messages : List ChannelMessage
messages = data_msg 1 hi ∷ pause 2 ∷ []

-- The bytes of `messages`, in two chunks.
abbrev chunks : List (List ℕ)
chunks =
    (2 ∷ 15 ∷ 0 ∷ 0 ∷ [])
    ∷ (0 ∷ 1 ∷ 0 ∷ 0 ∷ 0 ∷ 0 ∷ 0 ∷ 0 ∷ 0 ∷ b'h' ∷ b'i' ∷ 5 ∷ 13 ∷ 0 ∷ 0 ∷ 0 ∷ 2 ∷ 0 ∷ 0 ∷ 0 ∷ 0 ∷ 0
        ∷ 0 ∷ 0 ∷ [])
    ∷ []

feed-messages_example : feed parse [] chunks ≡ (messages, waits [])
unfolding encode frame to_le_bytes
feed-messages_example = feed-messages messages chunks (omega arith, (omega arith, tt)) refl

encode_size_example :
    (13 ≤ length (encode (data_msg 1 hi)))
    × ((bytes : List ℕ) × (Codec.encode (Codec.data_msg (encode (data_msg 1 hi))) ≡ some bytes))
encode_size_example = encode_size (data_msg 1 hi)

-- The flow control of a stream: the high-water mark is crossed, all but fifteen messages are written, and
-- the RESUME is sent on.
abbrev times : ℕ → FlowEvent → List FlowEvent
times zero e = []
times (suc n) e = e ∷ times n e

abbrev drained_events : List FlowEvent
drained_events = times 64 (arrives true) ++ (times 49 leaves ++ (forwards ∷ []))

resumed_when_drained_example :
    let r = flow_run flow_start drained_events in
    (r.flow.sent_pause ≡ false) × (may_send r.told ≡ true) × (pauses r.told ≡ resumings r.told)
unfolding flow_run flow_step leave_step forward_step count_in count_out new_flow
resumed_when_drained_example = resumed_when_drained drained_events (omega arith) (omega arith) refl

-- The RESUME is not sent on before the mark is crossed again.
abbrev crossing_events : List FlowEvent
crossing_events = times 64 (arrives true) ++ (times 49 leaves ++ times 48 (arrives true))

pause_can_be_overtaken_example :
    let r = flow_run flow_start crossing_events in
    let after = flow_run r (arrives true ∷ forwards ∷ []) in
    (after.told ≡ false ∷ true ∷ r.told)
    × (after.flow.sent_pause ≡ true)
    × (after.waiting ≡ r.waiting + 1)
    × (after.resumes ≡ 0)
unfolding flow_run flow_step leave_step forward_step count_in count_out new_flow
pause_can_be_overtaken_example =
    pause_can_be_overtaken crossing_events (omega arith) refl refl (omega arith)

abbrev many : ℕ → List FlowEvent
many zero = []
many (suc n) = arrives false ∷ many n

-- Two streams at the server.
abbrev two_streams : Streams
two_streams = (1, fresh_stream) ∷ (2, fresh_stream) ∷ []

handle_others_example :
    get 2 (handle server (disconnect 1) taken two_streams).streams ≡ get 2 two_streams
handle_others_example = handle_others server (disconnect 1) taken two_streams 2 (omega arith)

abbrev always_taken : ℕ → TrySend
always_taken n = taken

abbrev empty_parser : ChannelMessageParser
empty_parser = record { buffer = [] }

process-refines_example :
    process_channel_rx server always_taken empty_parser (encode (pause 2)) two_streams
    ≡ finish
        (handle_all server always_taken 0
          (Framing.run parse ([] ++ encode (pause 2))).0
          two_streams)
        (Framing.run parse ([] ++ encode (pause 2))).1
process-refines_example =
    process-refines server always_taken empty_parser (encode (pause 2)) two_streams

process_settles_example :
    ((rest : List ℕ) × ((process_channel_rx server always_taken empty_parser hi two_streams).left
        ≡ waiting (record { buffer = rest }))
      × (parse rest ≡ ok none))
    ⊎ ((e : MultiplexerError) × ((process_channel_rx server always_taken empty_parser hi
            two_streams).left
          ≡ failed e))
process_settles_example = process_settles server always_taken empty_parser hi two_streams

abbrev serving : Multiplexer
serving = record {
  parser = empty_parser;
  streams = two_streams;
  frames = [];
  stream_id = 1;
  status = running;
}

abbrev arrivals : List Arrival
arrivals = map (λ c. (c, always_taken)) chunks

taken_is_open : (n : ℕ) → always_taken n ≢ closed
taken_is_open n = λ e. cc

payloads_in_order_example :
    IsRunning [] (run server serving (map arrive arrivals))
    × Holds 1 (data_msg 1 hi ∷ []) (run server serving (map arrive arrivals)).streams
unfolding encode frame to_le_bytes get fresh_stream
payloads_in_order_example =
    payloads_in_order server 1 serving messages arrivals [] (refl, refl) refl
      (omega arith, (omega arith, tt)) (taken_is_open, (taken_is_open, tt))
      ((refl, refl), ((refl, refl), tt)) (fresh_stream, refl, refl, refl)

still_running : (run client new_multiplexer (accepted true true ∷ [])).status ≡ running
unfolding run step step_running on_accept new_multiplexer get new_stream
still_running = refl

accepts_fresh_id_example :
    let m = run client new_multiplexer (accepted true true ∷ []) in
    let m' = step client m (accepted true true) in
    (get m.stream_id m.streams ≡ none)
    × (get m.stream_id m'.streams ≡ some fresh_stream)
    × (m'.frames ≡ m.frames ++ (encode (connect m.stream_id) ∷ []))
    × (m'.status ≡ running)
accepts_fresh_id_example = accepts_fresh_id (accepted true true ∷ []) (omega arith) still_running
