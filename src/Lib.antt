-- ===== src/Lib.antt =====
-- Mobiletunnel: a tcp tunnel that survives network changes, with many tcp streams over one connection.
--
-- The program has two layers. src/lib/reconnecting_stream.rs keeps a message stream alive over any number
-- of tcp connections: each message waits in a queue until the peer acknowledges it, and a new connection
-- starts with a hello that says how many messages have arrived, so that the rest is sent again.
-- src/lib/stream_multiplexer.rs runs many tcp streams over that stream: a client opens a stream for each
-- connection it accepts, the server connects to the target, and both carry DATA, with PAUSE and RESUME for
-- each stream.
--
-- Which file models what:
--   Prelude      names of the libraries, Boolean tests, lists, and `Outcome`: a Rust function's value,
--                error or panic
--   Bytes        slices, indexing and little-endian numbers, with the panic of a bad range
--   Framing      the buffer loop that both codecs share, over any parser (`StreamCodec::decode` under
--                `FramedRead`; `ChannelMessageParser` under `process_channel_rx`)
--   Stream       src/lib/reconnecting_stream.rs
--     Codec      `StreamCodecMessage::parse` and `encode`, `StreamCodec`
--     State      `StreamState`: `enqueue`, `ack`, `received_one_message`, `make_hello`, `is_full`, `new`
--     Session    `run_stream`: one step for each event that a `select!` can pick
--     Wire       its writer task and its framed reader task, with the bytes between two ends, and the
--                joins behind its loop
--     Delivery   two endpoints, and connections that are lost at any moment
--     Runner     `run_unconnected_stream`, `run_client`, and, in Runner/Tasks, both tasks of `run_server`,
--                with the runner inside `run_stream` event by event, its joins included
--   Multiplexer  src/lib/stream_multiplexer.rs
--     Message    `ChannelMessage::parse` and `encode`; a `String` is the list of its UTF-8 bytes
--     Flow       `StreamFlowControl`: counting in and out, and PAUSE and RESUME on their two ways out
--     Socket     `run_internal_stream`: the write task and the read task, with the bytes of their socket;
--                Socket/Task is the task of a stream, which connects, runs both, and sends DISCONNECT
--     Tracker    `OngoingStreamTracker`; the `HashMap` is an association list, and an operation says
--                which tasks of streams it aborts
--     Server     `process_channel_rx` and `run` of `StreamMultiplexerServer` and `StreamMultiplexerClient`
--   Tunnel       both layers together: the tasks of a stream at both ends, the two multiplexers and the two
--                streams, for one tcp connection
--   Text         what the programs use of Rust's `str` and `Path`: prefixes, `replace`, `split`, `join`,
--                `trim`, decimal numbers, file names; a text is the list of its chars
--   Programs     src/lib/server.rs, src/lib/client.rs, src/lib/server_check_port.rs, src/bin/mobiletunnel.rs
--     Host       `parse_ip_from_uri_host`, over any parser of addresses
--     KillOld    the loop of `run_server` that kills older servers
--     Check      `check_server_port`, `run_check_server_port`
--     Serve      `run_server`: its port, the servers that it kills, what it prints
--     Client     `run_client` of src/lib/client.rs
--     Halves     `mk_ssh`, and the end of `main`: the client beside the loop of ssh
--     Join       `tokio_main`: the multiplexer and the stream, and what the end of one does to the other
--     Ssh        `run_ssh` and `run_ssh_loop`
--     Launch     `make_location`, `get_available_port`, and `main`
--
-- Numbers are native; a u64 counter and a `usize` (64 bits) wrap as in a release build, and a u32 length
-- is written out in bytes. What the runtime answers is an argument or an event: whether the application
-- still holds its channel, whether a write succeeds, what `try_send` says, which branch a `select!` picks.
-- In Delivery, a message that is written stands in the peer's inbox at once, and the loss of a connection
-- is the peer's session ending with messages unread; an endpoint may also start on a connection that the
-- peer never served or has given up, and may queue messages without a connection, as the client does while it
-- waits. The bound there is fewer than 2^64 messages on either side, so that no counter wraps.
--
-- Fuel: the buffer loop has the buffer's length plus one, since each round takes a byte at least.
--
-- `to_decimal` has 20 digits, which a u64 fits.
--
-- Processes, children and ports are the system's: what they answer is an argument. A path of a program that
-- is not UTF-8 has no text.
--
-- `FramedRead` of tokio_util is a parameter of Stream/Wire: it calls `decode` on its buffer until that wants
-- more bytes, and an end of the transport with bytes left, an error of it and one of `decode` are errors.
--
-- Not modelled: the shutdown of a stream's socket, and what a task that is aborted leaves half done inside a
-- system call; argument parsing, with the branch of `main` that splits its arguments for the server, logging,
-- and what the daemon and signal calls do, which are calls of libraries and of the system; src/lib/util.rs,
-- src/lib/process_helper.rs, src/bin/client.rs and src/bin/server.rs, which only make such calls.
pub mod Prelude
pub mod Text
pub mod Bytes
pub mod Framing
pub mod Stream
pub mod Multiplexer
pub mod Tunnel
pub mod Programs
