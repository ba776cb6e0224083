-- ===== src/Stream/Codec.antt =====
-- src/lib/reconnecting_stream.rs: `HelloMessage`, `StreamCodecMessage` and the codec that `FramedRead`
-- drives. `usize` has 64 bits, so the conversion of a u32 to it cannot fail.
pub mod Laws
pub mod Frames
pub mod RoundTrip
use mobiletunnel.Prelude.{
  ℕ, suc, ◌+◌, ◌^◌, ◌≤◌, ◌<◌, ◌≡◌, refl, ◌∙◌, ap, List, [], ◌∷◌, ◌++◌, arith, Option, none, some,
  ltb, leb, ◌==◌, if◌then◌else◌, length, Outcome, ok, err, panic, ◌>>=◌,
}
use mobiletunnel.Bytes.{slice, index, to_le_bytes, from_le_bytes}
use mobiletunnel.Framing.{next}

pub record HelloMessage : Type 0 where
  pub sender_id : ℕ
  pub sender_last_rx : ℕ

-- `Hello`, `Data` and `Ack`.
pub data StreamCodecMessage : Type 0 where
  hello : HelloMessage → StreamCodecMessage
  data_msg : List ℕ → StreamCodecMessage
  ack_msg : ℕ → StreamCodecMessage

-- The `io::Error` of `parse`.
pub data ParseError : Type 0 where
  unknown_msg_id : ℕ → ParseError

abbrev pub hello_msg_id : ℕ
hello_msg_id = 1

abbrev pub data_msg_id : ℕ
data_msg_id = 2

abbrev pub ack_msg_id : ℕ
ack_msg_id = 3

abbrev pub Parsed : Type 0
Parsed = Outcome ParseError (Option (StreamCodecMessage × ℕ))

pub parse_hello : List ℕ → Parsed
parse_hello rest =
    if leb 16 (length rest)
    then (do
      sender_id ← slice 0 8 rest
      sender_last_rx ← slice 8 16 rest
      ok (
          some (
            hello (record {
              sender_id = from_le_bytes sender_id;
              sender_last_rx = from_le_bytes sender_last_rx;
            }),
            17,
          )))
    else ok none

pub parse_ack : List ℕ → Parsed
parse_ack rest =
    if leb 8 (length rest)
    then (do seq ← slice 0 8 rest; ok (some (ack_msg (from_le_bytes seq), 9)))
    else ok none

-- The data message once its size is known: `other` is what stands behind the size.
pub parse_body : ℕ → List ℕ → Parsed
parse_body msg_size other =
    if leb msg_size (length other)
    then (do body ← slice 0 msg_size other; ok (some (data_msg body, 1 + 4 + msg_size)))
    else ok none

pub parse_data : List ℕ → Parsed
parse_data rest =
    if leb 4 (length rest)
    then (do
      size ← slice 0 4 rest
      let msg_size = from_le_bytes size
      other ← slice 4 (length rest) rest
      parse_body msg_size other)
    else ok none

-- The match on the first byte.
pub parse_kind : ℕ → List ℕ → Parsed
parse_kind kind rest =
    if kind == hello_msg_id
    then parse_hello rest
    else if kind == ack_msg_id
    then parse_ack rest
    else if kind == data_msg_id
    then parse_data rest
    else err (unknown_msg_id kind)

pub parse : List ℕ → Parsed
parse bytes =
    if ltb (length bytes) 1
    then ok none
    else do rest ← slice 1 (length bytes) bytes; kind ← index bytes 0; parse_kind kind rest

-- `none` is the panic of `expect` on a message of 4 GB or more.
unfoldable pub encode : StreamCodecMessage → Option (List ℕ)
encode (hello hm) =
    some (hello_msg_id ∷ (to_le_bytes 8 hm.sender_id ++ to_le_bytes 8 hm.sender_last_rx))
encode (data_msg v) =
    if ltb (length v) (2 ^ 32) then some (data_msg_id ∷ (to_le_bytes 4 (length v) ++ v)) else none
encode (ack_msg s) = some (ack_msg_id ∷ to_le_bytes 8 s)

-- `Decoder::decode`: the message, and the buffer after `split_to`.
pub decode : List ℕ → Outcome ParseError (Option (StreamCodecMessage × List ℕ))
decode = next parse

-- `Encoder::encode`: the bytes go to the end of `dst`.
pub encode_into : StreamCodecMessage → List ℕ → Option (List ℕ)
encode_into item dst = elim (encode item) [ none ↦ none | some encoded ↦ some (dst ++ encoded) ]
