-- ===== src/Multiplexer/Message/RoundTrip.antt =====
-- src/lib/stream_multiplexer.rs: `ChannelMessage::encode` against `ChannelMessage::parse`.
use mathlib.Core.Path.{subst}
use mobiletunnel.Prelude.{
  ℕ, ◌+◌, ◌^◌, ◌≤◌, ◌<◌, ◌≡◌, refl, List, [], ◌∷◌, ◌++◌, arith, none, some, length, true, inl, inr,
  flatten, map, All, append-nil, ok, ltb, ltb→lt, if◌then◌else◌, Bool-cases,
}
use mobiletunnel.Framing.{waits, feed}
use mobiletunnel.Framing.Messages.{feed-encoded, parse_front}
use mobiletunnel.Stream.Codec
use mobiletunnel.Stream.Codec.RoundTrip.{encode-InRange}
use mobiletunnel.Multiplexer.Message.{
  ChannelMessage, connect, data_msg, disconnect, error_msg, pause, resume, parse, parse_msg, encode,
  connect_msg_id, data_msg_id, error_msg_id, disconnect_msg_id, pause_msg_id, resume_msg_id,
  bad_data_size, bad_error_data_size,
}
use mobiletunnel.Multiplexer.Message.Utf8.{is_utf8}
use mobiletunnel.Multiplexer.Message.Laws.{parse_message-IsFraming}
use mobiletunnel.Multiplexer.Message.Frames.{length-frame, parse-frame, parse-error_frame}

-- The message that the other side reads: one that is too long for a frame arrives as an error message.
abbrev pub carried : ChannelMessage → ChannelMessage
carried (connect id) = connect id
carried (data_msg id to_send) =
    if ltb (13 + length to_send) (2 ^ 32) then data_msg id to_send else error_msg id bad_data_size
carried (disconnect id) = disconnect id
carried (error_msg id message) =
    if ltb (13 + length message) (2 ^ 32)
    then error_msg id message
    else error_msg id bad_error_data_size
carried (pause id) = pause id
carried (resume id) = resume id

-- What Rust's types say of a message: its id is a u64, and a `String` is UTF-8.
abbrev pub IsTyped : ChannelMessage → Type 0
IsTyped (connect id) = id < 2 ^ 64
IsTyped (data_msg id to_send) = id < 2 ^ 64
IsTyped (disconnect id) = id < 2 ^ 64
IsTyped (error_msg id message) = (id < 2 ^ 64) × (is_utf8 message ≡ true)
IsTyped (pause id) = id < 2 ^ 64
IsTyped (resume id) = id < 2 ^ 64

-- Every message is read back from its encoding, whatever bytes follow, with the size that was written;
-- a data or error message that does not fit a frame is read as the error message that says so.
pub parse-encode_message :
    (m : ChannelMessage) (rest : List ℕ)
    → IsTyped m
    → parse (encode m ++ rest) ≡ ok (some (carried m, length (encode m)))
unfolding encode
parse-encode_message (connect id) rest h =
    parse-frame connect_msg_id id [] rest (connect id) (omega arith) h (unfold parse_msg in refl)
parse-encode_message (disconnect id) rest h =
    parse-frame disconnect_msg_id id [] rest (disconnect id) (omega arith) h
      (unfold parse_msg in refl)
parse-encode_message (pause id) rest h =
    parse-frame pause_msg_id id [] rest (pause id) (omega arith) h (unfold parse_msg in refl)
parse-encode_message (resume id) rest h =
    parse-frame resume_msg_id id [] rest (resume id) (omega arith) h (unfold parse_msg in refl)
parse-encode_message (data_msg id to_send) rest h =
    elim (Bool-cases (ltb (13 + length to_send) (2 ^ 32))) [
      | inl fits ↦ rw fits (
          parse-frame data_msg_id id to_send rest (data_msg id to_send) (ltb→lt _ _ fits) h
            (unfold parse_msg in refl))
      | inr long ↦
          rw long (parse-error_frame id bad_data_size rest (omega arith) h (unfold is_utf8 in refl))
    ]
parse-encode_message (error_msg id message) rest (h, u) =
    elim (Bool-cases (ltb (13 + length message) (2 ^ 32))) [
      | inl fits ↦ rw fits (parse-error_frame id message rest (ltb→lt _ _ fits) h u)
      | inr long ↦
          rw long
            (parse-error_frame id bad_error_data_size rest (omega arith) h (unfold is_utf8 in refl))
    ]

-- However the bytes of a row of well-typed messages are cut into chunks, the buffer loop takes what their
-- frames carry in their order, and no byte is left.
pub feed-messages :
    (ms : List ChannelMessage) (chunks : List (List ℕ))
    → All IsTyped ms
    → flatten chunks ≡ flatten (map encode ms)
    → feed parse [] chunks ≡ (map carried ms, waits [])
feed-messages =
    feed-encoded parse parse_message-IsFraming IsTyped encode carried parse-encode_message

-- While the last byte of an encoding is missing, `parse` waits: no message and no error.
pub parse-message_front :
    (m : ChannelMessage) (front : List ℕ) (x : ℕ) (back : List ℕ)
    → IsTyped m
    → encode m ≡ front ++ (x ∷ back)
    → parse front ≡ ok none
parse-message_front m front x back h e =
    parse_front parse parse_message-IsFraming front x back (carried m) (
      subst (λ (bytes : List ℕ). parse bytes ≡ ok (some (carried m, length bytes))) e
        (rw append-nil at (parse-encode_message m [] h)))

pub encode_bounds : (m : ChannelMessage) → (13 ≤ length (encode m)) × (length (encode m) < 2 ^ 32)
unfolding encode
encode_bounds (connect id) = omega (arith, length-frame connect_msg_id 13 id [])
encode_bounds (disconnect id) = omega (arith, length-frame disconnect_msg_id 13 id [])
encode_bounds (pause id) = omega (arith, length-frame pause_msg_id 13 id [])
encode_bounds (resume id) = omega (arith, length-frame resume_msg_id 13 id [])
encode_bounds (data_msg id d) = elim (Bool-cases (ltb (13 + length d) (2 ^ 32))) [
  | inl fits ↦
      rw fits (omega (arith, length-frame data_msg_id (13 + length d) id d, ltb→lt _ _ fits))
  | inr long ↦
      rw long
        (omega (arith, length-frame error_msg_id (13 + length bad_data_size) id bad_data_size))
]
encode_bounds (error_msg id d) = elim (Bool-cases (ltb (13 + length d) (2 ^ 32))) [
  | inl fits ↦
      rw fits (omega (arith, length-frame error_msg_id (13 + length d) id d, ltb→lt _ _ fits))
  | inr long ↦ rw long (
      omega
        (arith, length-frame error_msg_id (13 + length bad_error_data_size) id bad_error_data_size))
]

-- Whatever the message, its encoding has 13 bytes at least, and fits a data message of the stream
-- below, so that the stream's `encode` does not panic on it.
pub encode_size :
    (m : ChannelMessage)
    → (13 ≤ length (encode m))
      × ((bytes : List ℕ) × (Codec.encode (Codec.data_msg (encode m)) ≡ some bytes))
encode_size m =
    let (low, high) = encode_bounds m in (low, encode-InRange (Codec.data_msg (encode m)) high)
