-- ===== src/Stream/Codec/Frames.antt =====
-- src/lib/reconnecting_stream.rs: each kind of frame, for `StreamCodecMessage::parse`.
use mobiletunnel.Prelude.{
  ℕ, suc, ◌+◌, ◌-◌, ◌≤◌, ◌≡◌, sym, ◌∙◌, ap, List, ◌∷◌, arith, some, length, take, drop, take-length,
  length-drop, ok, le→ltb, le→leb,
}
use mobiletunnel.Bytes.{slice-eq_ok, from_le_bytes, index}
use mobiletunnel.Stream.Codec.{
  parse, parse_kind, parse_hello, parse_ack, parse_data, parse_body, hello, data_msg, ack_msg,
}

pub parse-cons : (kind : ℕ) (rest : List ℕ) → parse (kind ∷ rest) ≡ parse_kind kind rest
unfolding parse index
parse-cons kind rest =
    rw
      (
        le→ltb (suc (length rest)) 1 (omega arith),
        slice-eq_ok 1 (suc (length rest)) (kind ∷ rest) (omega arith) (omega arith),
      )
      (ap (parse_kind kind) (ap (λ n. take n rest) (omega arith) ∙ take-length rest))

-- Each kind of frame, when all of it is there.
pub parse_hello-eq :
    (rest : List ℕ)
    → 16 ≤ length rest
    → parse_hello rest
      ≡ ok (
          some (
            hello (record {
              sender_id = from_le_bytes (take 8 rest);
              sender_last_rx = from_le_bytes (take 8 (drop 8 rest));
            }),
            17,
          ))
unfolding parse_hello
parse_hello-eq rest h = rw (
  le→leb 16 (length rest) h,
  slice-eq_ok 0 8 rest (omega arith) (omega arith),
  slice-eq_ok 8 16 rest (omega arith) (omega arith),
)

pub parse_ack-eq :
    (rest : List ℕ)
    → 8 ≤ length rest
    → parse_ack rest ≡ ok (some (ack_msg (from_le_bytes (take 8 rest)), 9))
unfolding parse_ack
parse_ack-eq rest h =
    rw (le→leb 8 (length rest) h, slice-eq_ok 0 8 rest (omega arith) (omega arith))

pub parse_data-eq :
    (rest : List ℕ)
    → 4 ≤ length rest
    → parse_data rest ≡ parse_body (from_le_bytes (take 4 rest)) (drop 4 rest)
unfolding parse_data
parse_data-eq rest h =
    rw
      (
        le→leb 4 (length rest) h,
        slice-eq_ok 0 4 rest (omega arith) (omega arith),
        slice-eq_ok 4 (length rest) rest h (omega arith),
      )
      (ap (parse_body (from_le_bytes (take 4 rest)))
        (ap (λ n. take n (drop 4 rest)) (sym (length-drop 4 rest)) ∙ take-length (drop 4 rest)))

pub parse_body-eq :
    (size : ℕ) (other : List ℕ)
    → size ≤ length other
    → parse_body size other ≡ ok (some (data_msg (take size other), 1 + 4 + size))
unfolding parse_body
parse_body-eq size other h =
    rw (le→leb size (length other) h, slice-eq_ok 0 size other (omega arith) h)
      (let e : size - 0 ≡ size = omega arith in
        ap (λ (n : ℕ). ok (some (data_msg (take n other), 1 + 4 + size))) e)
