-- ===== src/Multiplexer/Server.antt =====
-- src/lib/stream_multiplexer.rs: `ChannelMessageParser`, `StreamMultiplexerServer` and
-- `StreamMultiplexerClient`: the messages of the other end, and the run loops, as step functions over
-- the events that the `select!`s can pick.
pub mod Handling
pub mod Delivery
pub mod Loop
pub mod Payloads
pub mod Ids
pub mod Settles
pub mod Sends
use mobiletunnel.Prelude.{
  ℕ, zero, suc, ◌+◌, ◌%◌, ◌^◌, List, [], ◌∷◌, ◌++◌, Option, none, some, Bool, true, false,
  if◌then◌else◌, length, Outcome, ok, err, panic,
}
use mobiletunnel.Framing as Framing
use mobiletunnel.Multiplexer.Message.{
  ChannelMessage, connect, data_msg, disconnect, error_msg, pause, resume, MultiplexerError,
  client_got_connect, rx_channel_died, tracker_channel_died, send_error, accept_error, parse,
  encode,
}
use mobiletunnel.Multiplexer.Flow.{TrySend}
use mobiletunnel.Multiplexer.Tracker.{
  Streams, Handled, quietly, failing, removing, stream_data, pause_read, resume_read, new_stream,
}

-- `ChannelMessageParser`, with its `add` and `next`.
pub record ChannelMessageParser : Type 0 where
  pub buffer : List ℕ

pub add : ChannelMessageParser → List ℕ → ChannelMessageParser
add p bytes = record { buffer = p.buffer ++ bytes }

unfoldable pub next :
    ChannelMessageParser → Outcome MultiplexerError (Option (ChannelMessage × ChannelMessageParser))
next p = elim (Framing.next parse p.buffer) [
  | ok none ↦ ok none
  | ok (some (msg, rest)) ↦ ok (some (msg, record { buffer = rest }))
  | err e ↦ err e
  | panic ↦ panic
]

-- Which of the two programs runs the loop.
pub data Side : Type 0 where
  server client : Side

-- The server's `new_stream` whose error is only logged.
abbrev pub swallow : Handled → Handled
swallow r = elim r.result [ ok done ↦ r | err e ↦ quietly r.streams | panic ↦ r ]

pub on_connect : Side → ℕ → Streams → Handled
on_connect server id streams = swallow (new_stream id streams)
on_connect client id streams = failing streams client_got_connect

-- The match on a message of the other end.
unfoldable pub handle : Side → ChannelMessage → TrySend → Streams → Handled
unfolding on_connect removing
handle side (error_msg id message) answer streams = removing id streams
handle side (connect id) answer streams = on_connect side id streams
handle side (data_msg id to_send) answer streams = stream_data id to_send answer streams
handle side (disconnect id) answer streams = removing id streams
handle side (pause id) answer streams = quietly (pause_read id streams)
handle side (resume id) answer streams = quietly (resume_read id streams)

-- How the loop of `process_channel_rx` is left: with the rest of the buffer, an error, or a panic.
-- `spent` is no state of the program: the loop ran out of fuel.
pub data Left : Type 0 where
  waiting : ChannelMessageParser → Left
  failed : MultiplexerError → Left
  panicked : Left
  spent : Left

pub record Processed : Type 0 where
  pub streams : Streams
  pub frames : List (List ℕ)
  pub aborted : List ℕ
  pub left : Left

abbrev pub stopped : Streams → Left → Processed
stopped streams left = record { streams = streams; frames = []; aborted = []; left = left }

abbrev pub halted : Handled → Left → Processed
halted r left = record { streams = r.streams; frames = r.frames; aborted = r.aborted; left = left }

-- What an earlier message sent and aborted stands before that of a later one.
abbrev pub with_earlier : Handled → Processed → Processed
with_earlier r rest = record rest {
  frames = r.frames ++ rest.frames;
  aborted = r.aborted ++ rest.aborted;
}

module _ (side : Side) (answer : ℕ → TrySend) where
  -- The loop. `answer n` is what `try_send` would say at the n-th message of this call.
  pub process_loop : ℕ → ℕ → ChannelMessageParser → Streams → Processed
  unfolding next handle
  process_loop zero n p streams = stopped streams spent
  process_loop (suc fuel) n p streams = elim (next p) [
    | ok none ↦ stopped streams (waiting p)
    | err e ↦ stopped streams (failed e)
    | panic ↦ stopped streams panicked
    | ok (some (msg, p')) ↦
        let r = handle side msg (answer n) streams in
        elim r.result [
          | ok done ↦ with_earlier r (process_loop fuel (suc n) p' r.streams)
          | err e ↦ halted r (failed e)
          | panic ↦ halted r panicked
        ]
  ]

  -- Each round takes a byte of the buffer at least, so this fuel is enough.
  pub process_channel_rx : ChannelMessageParser → List ℕ → Streams → Processed
  unfolding add process_loop
  process_channel_rx p bytes streams =
      let p' = add p bytes in process_loop (suc (length p'.buffer)) 0 p' streams

-- How `run` stands: in its loop, returned with `Ok` or an error, or crashed.
pub data Status : Type 0 where
  running stopped_ok crashed out_of_fuel : Status
  stopped_err : MultiplexerError → Status

-- One end of the multiplexer: `frames` lists all that went into the channel to the other end, and
-- `stream_id` is the client's counter.
pub record Multiplexer : Type 0 where
  pub parser : ChannelMessageParser
  pub streams : Streams
  pub frames : List (List ℕ)
  pub stream_id : ℕ
  pub status : Status

unfoldable pub new_multiplexer : Multiplexer
new_multiplexer = record {
  parser = record { buffer = [] };
  streams = [];
  frames = [];
  stream_id = 1;
  status = running;
}

-- What a `select!` can pick. `accepted` is the client's listener, with whether `accept` and then the
-- send of CONNECT succeed; `from_stream` carries whether the channel takes the frame. `none` is a
-- closed channel.
pub data Event : Type 0 where
  interrupted : Event
  accepted : Bool → Bool → Event
  from_channel : Option (List ℕ) → (ℕ → TrySend) → Event
  from_stream : Option ChannelMessage → Bool → Event

abbrev pub stop : Multiplexer → MultiplexerError → Multiplexer
stop m e = record m { status = stopped_err e }

-- `self.into_channel_tx.send(...)` of a frame.
abbrev pub send : Multiplexer → List ℕ → Bool → Multiplexer
send m bytes delivered =
    if delivered then record m { frames = m.frames ++ (bytes ∷ []) } else stop m send_error

-- What `new_stream(...).await?` makes of the client.
abbrev pub opened : Multiplexer → Handled → Multiplexer
opened m r = elim r.result [
  | ok done ↦ record m { streams = r.streams }
  | err e ↦ stop (record m { streams = r.streams }) e
  | panic ↦ record m { streams = r.streams; status = crashed }
]

-- A stream is opened only behind a CONNECT that was sent.
abbrev pub open_stream : Multiplexer → ℕ → Bool → Multiplexer
open_stream m id delivered = if delivered then opened m (new_stream id m.streams) else m

-- A new connection at the client's listener; the server has none.
unfoldable pub on_accept : Side → Multiplexer → Bool → Bool → Multiplexer
on_accept server m accepts delivered = m
on_accept client m accepts delivered =
    if accepts
    then (let this_id = m.stream_id in
        let m' = record m { stream_id = (this_id + 1) % 2 ^ 64 } in
        open_stream (send m' (encode (connect this_id)) delivered) this_id delivered)
    else stop m accept_error

abbrev pub status_of : Left → Status
status_of (waiting p) = running
status_of (failed e) = stopped_err e
status_of panicked = crashed
status_of spent = out_of_fuel

abbrev pub parser_of : ChannelMessageParser → Left → ChannelMessageParser
parser_of old (waiting p) = p
parser_of old (failed e) = old
parser_of old panicked = old
parser_of old spent = old

pub on_channel : Side → Multiplexer → List ℕ → (ℕ → TrySend) → Multiplexer
unfolding process_channel_rx
on_channel side m bytes answer =
    let r = process_channel_rx side answer m.parser bytes m.streams in
    record m {
      parser = parser_of m.parser r.left;
      streams = r.streams;
      frames = m.frames ++ r.frames;
      status = status_of r.left;
    }

unfoldable pub step_running : Side → Multiplexer → Event → Multiplexer
unfolding on_accept on_channel
step_running side m interrupted = record m { status = stopped_ok }
step_running side m (accepted accepts delivered) = on_accept side m accepts delivered
step_running side m (from_channel none answer) = stop m rx_channel_died
step_running side m (from_channel (some bytes) answer) = on_channel side m bytes answer
step_running side m (from_stream none delivered) = stop m tracker_channel_died
step_running side m (from_stream (some message) delivered) = send m (encode message) delivered

-- Once `run` has returned nothing happens any more.
abbrev pub step_in : Status → Side → Multiplexer → Event → Multiplexer
step_in running side m e = step_running side m e
step_in stopped_ok side m e = m
step_in crashed side m e = m
step_in out_of_fuel side m e = m
step_in (stopped_err x) side m e = m

unfoldable pub step : Side → Multiplexer → Event → Multiplexer
unfolding step_running
step side m e = step_in m.status side m e

-- `run` over the events of one session.
unfoldable pub run : Side → Multiplexer → List Event → Multiplexer
unfolding step
run side m [] = m
run side m (e ∷ es) = run side (step side m e) es
