-- ===== src/Multiplexer/Message.antt =====
-- src/lib/stream_multiplexer.rs: `ChannelMessage` and its frames. A `String` is the list of its UTF-8
-- bytes, and `usize` has 64 bits.
pub mod Utf8
pub mod Laws
pub mod Frames
pub mod RoundTrip
use mobiletunnel.Prelude.{
  ℕ, ◌+◌, ◌^◌, List, [], ◌∷◌, ◌++◌, Option, none, some, ltb, ◌==◌, if◌then◌else◌, length, Outcome,
  ok, err, panic, ◌>>=◌,
}
use mobiletunnel.Bytes.{slice, index, to_le_bytes, from_le_bytes}
use Utf8.{is_utf8}

-- The messages' fields are a stream id (a u64) each, and the bytes of `to_send` or of `message`.
pub data ChannelMessage : Type 0 where
  connect : ℕ → ChannelMessage
  data_msg : ℕ → List ℕ → ChannelMessage
  disconnect : ℕ → ChannelMessage
  error_msg : ℕ → List ℕ → ChannelMessage
  pause : ℕ → ChannelMessage
  resume : ℕ → ChannelMessage

-- A `MultiplexerError` holds a text; here it is a name for each text.
pub data MultiplexerError : Type 0 where
  frame_too_small : MultiplexerError
  expected_8_len : MultiplexerError
  expected_8_len_for_disconnect : MultiplexerError
  unable_to_decode_string : MultiplexerError
  expected_13_len_for_pause : MultiplexerError
  expected_13_len_for_resume : MultiplexerError
  unknown_msg_id : ℕ → MultiplexerError
  channel_closed : MultiplexerError
  already_had_this_connection_id : MultiplexerError
  client_got_connect : MultiplexerError
  rx_channel_died : MultiplexerError
  tracker_channel_died : MultiplexerError
  send_error : MultiplexerError
  accept_error : MultiplexerError

abbrev pub connect_msg_id : ℕ
connect_msg_id = 1

abbrev pub data_msg_id : ℕ
data_msg_id = 2

abbrev pub error_msg_id : ℕ
error_msg_id = 3

abbrev pub disconnect_msg_id : ℕ
disconnect_msg_id = 4

abbrev pub pause_msg_id : ℕ
pause_msg_id = 5

abbrev pub resume_msg_id : ℕ
resume_msg_id = 6

-- The match on the type byte, for a frame of `len` bytes with `body` behind its header.
pub parse_msg : ℕ → ℕ → ℕ → List ℕ → Outcome MultiplexerError ChannelMessage
parse_msg kind len id body =
    if kind == connect_msg_id
    then (if len == 13 then ok (connect id) else err expected_8_len)
    else if kind == disconnect_msg_id
    then (if len == 13 then ok (disconnect id) else err expected_8_len_for_disconnect)
    else if kind == data_msg_id
    then ok (data_msg id body)
    else if kind == error_msg_id
    then (if is_utf8 body then ok (error_msg id body) else err unable_to_decode_string)
    else if kind == pause_msg_id
    then (if len == 13 then ok (pause id) else err expected_13_len_for_pause)
    else if kind == resume_msg_id
    then (if len == 13 then ok (resume id) else err expected_13_len_for_resume)
    else err (unknown_msg_id kind)

-- The frame behind its header fields.
pub parse_frame : ℕ → ℕ → ℕ → List ℕ → Outcome MultiplexerError (Option (ChannelMessage × ℕ))
parse_frame kind len id bytes =
    if ltb len 13
    then err frame_too_small
    else if ltb (length bytes) len
    then ok none
    else (do body ← slice 13 len bytes; msg ← parse_msg kind len id body; ok (some (msg, len)))

unfoldable pub parse : List ℕ → Outcome MultiplexerError (Option (ChannelMessage × ℕ))
parse bytes = if ltb (length bytes) 13 then ok none else (do
  header ← slice 0 13 bytes
  len_part ← slice 1 5 header
  connection_id_part ← slice 5 13 header
  type_part ← index header 0
  parse_frame type_part (from_le_bytes len_part) (from_le_bytes connection_id_part) bytes)

-- The four parts of a frame, in the order in which `encode` appends them.
unfoldable pub frame : ℕ → ℕ → ℕ → List ℕ → List ℕ
frame kind len id body = kind ∷ (to_le_bytes 4 len ++ (to_le_bytes 8 id ++ body))

-- "Bad data size".
abbrev pub bad_data_size : List ℕ
bad_data_size =
    b'B' ∷ b'a' ∷ b'd' ∷ 0x20 ∷ b'd' ∷ b'a' ∷ b't' ∷ b'a' ∷ 0x20 ∷ b's' ∷ b'i' ∷ b'z' ∷ b'e' ∷ []

-- "Bad error data size".
abbrev pub bad_error_data_size : List ℕ
bad_error_data_size =
    b'B' ∷ b'a' ∷ b'd' ∷ 0x20 ∷ b'e' ∷ b'r' ∷ b'r' ∷ b'o' ∷ b'r' ∷ 0x20 ∷ b'd' ∷ b'a' ∷ b't' ∷ b'a'
    ∷ 0x20 ∷ b's' ∷ b'i' ∷ b'z' ∷ b'e' ∷ []

-- A message whose frame does not fit a u32 length is replaced by an error message for its stream.
unfoldable pub encode : ChannelMessage → List ℕ
unfolding frame
encode (connect id) = frame connect_msg_id 13 id []
encode (disconnect id) = frame disconnect_msg_id 13 id []
encode (data_msg id to_send) =
    if ltb (13 + length to_send) (2 ^ 32)
    then frame data_msg_id (13 + length to_send) id to_send
    else frame error_msg_id (13 + length bad_data_size) id bad_data_size
encode (error_msg id message) =
    if ltb (13 + length message) (2 ^ 32)
    then frame error_msg_id (13 + length message) id message
    else frame error_msg_id (13 + length bad_error_data_size) id bad_error_data_size
encode (pause id) = frame pause_msg_id 13 id []
encode (resume id) = frame resume_msg_id 13 id []
