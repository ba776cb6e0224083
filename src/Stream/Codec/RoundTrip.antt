-- ===== src/Stream/Codec/RoundTrip.antt =====
-- src/lib/reconnecting_stream.rs: `StreamCodecMessage::encode` against `StreamCodecMessage::parse`.
use mathlib.Core.Path.{subst}
use mobiletunnel.Prelude.{
  ℕ, ◌+◌, ◌^◌, ◌≤◌, ◌<◌, ◌≡◌, refl, sym, ◌∙◌, ap, List, [], ◌∷◌, ◌++◌, arith, none, some, length,
  flatten, map, All, length-append, take-append_eq, append_assoc, append-nil, ok, lt→ltb, le→ltb,
}
use mobiletunnel.Bytes.{to_le_bytes, length-to_le_bytes, take_number, drop_number, length-number}
use mobiletunnel.Framing.{waits, feed}
use mobiletunnel.Framing.Messages.{feed-encoded, parse_front}
use mobiletunnel.Stream.Codec.{
  StreamCodecMessage, hello, data_msg, ack_msg, parse, parse_kind, parse_hello, parse_ack,
  parse_data, encode, hello_msg_id, data_msg_id, ack_msg_id,
}
use mobiletunnel.Stream.Codec.Frames.{
  parse-cons, parse_hello-eq, parse_ack-eq, parse_data-eq, parse_body-eq,
}
use mobiletunnel.Stream.Codec.Laws.{parse-IsFraming}

-- A message that a frame can carry.
abbrev pub Fits : List ℕ → Type 0
Fits payload = length payload < 2 ^ 32

-- The values that the fields of a message can hold: a u64 each, and a vector below 4 GB.
abbrev pub InRange : StreamCodecMessage → Type 0
InRange (hello hm) = (hm.sender_id < 2 ^ 64) × (hm.sender_last_rx < 2 ^ 64)
InRange (data_msg v) = Fits v
InRange (ack_msg s) = s < 2 ^ 64

parse_kind-hello : (rest : List ℕ) → parse_kind hello_msg_id rest ≡ parse_hello rest
unfolding parse_kind
parse_kind-hello rest = refl

parse_kind-ack : (rest : List ℕ) → parse_kind ack_msg_id rest ≡ parse_ack rest
unfolding parse_kind
parse_kind-ack rest = refl

parse_kind-data : (rest : List ℕ) → parse_kind data_msg_id rest ≡ parse_data rest
unfolding parse_kind
parse_kind-data rest = refl

parse-hello :
    (a b : ℕ) (rest : List ℕ)
    → a < 2 ^ 64
    → b < 2 ^ 64
    → parse (hello_msg_id ∷ ((to_le_bytes 8 a ++ to_le_bytes 8 b) ++ rest))
      ≡ ok (some (hello (record { sender_id = a; sender_last_rx = b }), 17))
parse-hello a b rest ha hb = rw (
  append_assoc (to_le_bytes 8 a) (to_le_bytes 8 b) rest,
  parse-cons,
  parse_kind-hello,
  parse_hello-eq (to_le_bytes 8 a ++ (to_le_bytes 8 b ++ rest))
      (omega (arith, length-number 8 a (to_le_bytes 8 b ++ rest), length-number 8 b rest)),
  drop_number 8 a (to_le_bytes 8 b ++ rest),
  take_number 8 a (to_le_bytes 8 b ++ rest) (omega arith),
  take_number 8 b rest (omega arith),
)

parse-ack :
    (seq : ℕ) (rest : List ℕ)
    → seq < 2 ^ 64
    → parse (ack_msg_id ∷ (to_le_bytes 8 seq ++ rest)) ≡ ok (some (ack_msg seq, 9))
parse-ack seq rest h = rw (
  parse-cons,
  parse_kind-ack,
  parse_ack-eq (to_le_bytes 8 seq ++ rest) (omega (arith, length-number 8 seq rest)),
  take_number 8 seq rest (omega arith),
)

parse-data :
    (v rest : List ℕ)
    → length v < 2 ^ 32
    → parse (data_msg_id ∷ ((to_le_bytes 4 (length v) ++ v) ++ rest))
      ≡ ok (some (data_msg v, 1 + 4 + length v))
parse-data v rest h = rw (
  append_assoc (to_le_bytes 4 (length v)) v rest,
  parse-cons,
  parse_kind-data,
  parse_data-eq (to_le_bytes 4 (length v) ++ (v ++ rest))
      (omega (arith, length-number 4 (length v) (v ++ rest))),
  take_number 4 (length v) (v ++ rest) (omega arith),
  drop_number 4 (length v) (v ++ rest),
  parse_body-eq (length v) (v ++ rest) (omega (arith, length-append v rest)),
  take-append_eq (length v) v rest refl,
)

encode-data :
    (v : List ℕ)
    → length v < 2 ^ 32
    → encode (data_msg v) ≡ some (data_msg_id ∷ (to_le_bytes 4 (length v) ++ v))
unfolding encode
encode-data v h = rw (lt→ltb (length v) (2 ^ 32) h)

-- A data message of 4 GB or more makes `encode` panic.
pub encode-too_long : (v : List ℕ) → 2 ^ 32 ≤ length v → encode (data_msg v) ≡ none
unfolding encode
encode-too_long v h = rw (le→ltb (length v) (2 ^ 32) h)

-- A message in range is written.
pub encode-InRange :
    (m : StreamCodecMessage) → InRange m → (bytes : List ℕ) × (encode m ≡ some bytes)
encode-InRange (hello hm) h = (
  hello_msg_id ∷ (to_le_bytes 8 hm.sender_id ++ to_le_bytes 8 hm.sender_last_rx),
  unfold encode in refl,
)
encode-InRange (data_msg v) h = (data_msg_id ∷ (to_le_bytes 4 (length v) ++ v), encode-data v h)
encode-InRange (ack_msg s) h = (ack_msg_id ∷ to_le_bytes 8 s, unfold encode in refl)

-- What a session writes for a message: nothing where `encode` panics.
abbrev pub frame : StreamCodecMessage → List ℕ
frame m = elim (encode m) [ none ↦ [] | some bytes ↦ bytes ]

frame-data :
    (v : List ℕ)
    → length v < 2 ^ 32
    → frame (data_msg v) ≡ data_msg_id ∷ (to_le_bytes 4 (length v) ++ v)
frame-data v h = rw (encode-data v h, frame)

-- Every message in range is read back from what was written for it, whatever bytes follow, and the
-- size that `parse` reports is the size that was written.
pub parse-encode :
    (m : StreamCodecMessage) (rest : List ℕ)
    → InRange m
    → parse (frame m ++ rest) ≡ ok (some (m, length (frame m)))
parse-encode (hello hm) rest (ha, hb) =
    let size : 17
        ≡ length (hello_msg_id ∷ (to_le_bytes 8 hm.sender_id ++ to_le_bytes 8 hm.sender_last_rx)) =
      omega (
        arith,
        length-number 8 hm.sender_id (to_le_bytes 8 hm.sender_last_rx),
        length-to_le_bytes 8 hm.sender_last_rx,
      ) in
    unfold encode in
    (parse-hello hm.sender_id hm.sender_last_rx rest ha hb
      ∙ ap (λ (n : ℕ). ok (some (hello hm, n))) size)
parse-encode (data_msg v) rest h =
    let size : 1 + 4 + length v ≡ length (data_msg_id ∷ (to_le_bytes 4 (length v) ++ v)) =
      omega (arith, length-number 4 (length v) v) in
    subst (λ (bytes : List ℕ). parse (bytes ++ rest) ≡ ok (some (data_msg v, length bytes)))
      (sym (frame-data v h)) (parse-data v rest h ∙ ap (λ (n : ℕ). ok (some (data_msg v, n))) size)
parse-encode (ack_msg s) rest h =
    let size : 9 ≡ length (ack_msg_id ∷ to_le_bytes 8 s) = omega (arith, length-to_le_bytes 8 s) in
    unfold encode in (parse-ack s rest h ∙ ap (λ (n : ℕ). ok (some (ack_msg s, n))) size)

-- However the bytes of a row of messages in range are cut into chunks, the buffer loop takes those
-- messages in their order, and no byte is left.
pub feed-frames :
    (ms : List StreamCodecMessage) (chunks : List (List ℕ))
    → All InRange ms
    → flatten chunks ≡ flatten (map frame ms)
    → feed parse [] chunks ≡ (ms, waits [])
feed-frames ms chunks h e =
    feed-encoded parse parse-IsFraming InRange frame (λ m. m) parse-encode ms chunks h e
    ∙ ap (λ (l : List StreamCodecMessage). (l, waits [])) (map_self ms)
  where
    map_self : (l : List StreamCodecMessage) → map (λ m. m) l ≡ l
    map_self [] = refl
    map_self (m ∷ l) = ap (◌∷◌ m) (map_self l)

-- While the last byte of a frame is missing, `parse` waits: it reports no message and no error.
pub parse-front :
    (m : StreamCodecMessage) (front : List ℕ) (x : ℕ) (back : List ℕ)
    → InRange m
    → frame m ≡ front ++ (x ∷ back)
    → parse front ≡ ok none
parse-front m front x back h e = parse_front parse parse-IsFraming front x back m (
    subst (λ (bytes : List ℕ). parse bytes ≡ ok (some (m, length bytes))) e
      (rw append-nil at (parse-encode m [] h)))

pub encode-ack : (seq : ℕ) → encode (ack_msg seq) ≡ some (ack_msg_id ∷ to_le_bytes 8 seq)
unfolding encode
encode-ack seq = refl
