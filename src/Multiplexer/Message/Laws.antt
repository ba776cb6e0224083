-- ===== src/Multiplexer/Message/Laws.antt =====
-- src/lib/stream_multiplexer.rs: `ChannelMessage::parse` as the parser of the buffer loop.
use mobiletunnel.Prelude.{
  ℕ, suc, ◌-◌, ◌≡◌, ◌≤◌, ◌<◌, ◌≢◌, ◌⊎◌, inl, inr, refl, sym, ◌∙◌, List, [], ◌∷◌, ◌++◌, Option, none,
  some, le→ltb, lt→ltb, length, take, drop, length-take, length-append, take-append_le, Outcome, ok,
  err, panic, ◌>>=◌, arith, drop-append_le, length-drop,
}
use mobiletunnel.Bytes.{slice-eq_ok, index, from_le_bytes}
use mobiletunnel.Framing.{IsFraming}
use mobiletunnel.Multiplexer.Message.{
  ChannelMessage, MultiplexerError, parse_msg, parse_frame, parse, frame_too_small,
}

-- The header fields of a buffer behind its first byte.
abbrev pub len_of : List ℕ → ℕ
len_of rest = from_le_bytes (take 4 (take 12 rest))

abbrev pub id_of : List ℕ → ℕ
id_of rest = from_le_bytes (take 8 (drop 4 (take 12 rest)))

pub parse-short : (bytes : List ℕ) → length bytes < 13 → parse bytes ≡ ok none
unfolding parse
parse-short bytes h = rw (lt→ltb (length bytes) 13 h)

pub parse-header :
    (kind : ℕ) (rest : List ℕ)
    → 12 ≤ length rest
    → parse (kind ∷ rest) ≡ parse_frame kind (len_of rest) (id_of rest) (kind ∷ rest)
unfolding parse index
parse-header kind rest h = rw (
  le→ltb (suc (length rest)) 13 (omega arith),
  slice-eq_ok 0 13 (kind ∷ rest) (omega arith) (omega arith),
  slice-eq_ok 1 5 (kind ∷ take 12 rest) (omega arith) (omega (arith, length-take 12 rest)),
  slice-eq_ok 5 13 (kind ∷ take 12 rest) (omega arith) (omega (arith, length-take 12 rest)),
)

abbrev pub with_size : ℕ → ChannelMessage → Outcome MultiplexerError (Option (ChannelMessage × ℕ))
with_size len msg = ok (some (msg, len))

pub parse_frame-eq :
    (kind len id : ℕ) (bytes : List ℕ)
    → 13 ≤ len
    → len ≤ length bytes
    → parse_frame kind len id bytes
      ≡ (parse_msg kind len id (take (len - 13) (drop 13 bytes)) >>= with_size len)
unfolding parse_frame
parse_frame-eq kind len id bytes h k =
    rw (le→ltb len 13 h, le→ltb (length bytes) len k, slice-eq_ok 13 len bytes h k)

parse_frame-waits :
    (kind len id : ℕ) (bytes : List ℕ)
    → 13 ≤ len
    → length bytes < len
    → parse_frame kind len id bytes ≡ ok none
unfolding parse_frame
parse_frame-waits kind len id bytes h k = rw (le→ltb len 13 h, lt→ltb (length bytes) len k)

parse_frame-small :
    (kind len id : ℕ) (bytes : List ℕ)
    → len < 13
    → parse_frame kind len id bytes ≡ err frame_too_small
unfolding parse_frame
parse_frame-small kind len id bytes h = rw (lt→ltb len 13 h)

parse_msg-ne-panic : (kind len id : ℕ) (body : List ℕ) → parse_msg kind len id body ≢ panic
unfolding parse_msg
parse_msg-ne-panic kind len id body e = ground arith

size_of_some :
    (r : Outcome MultiplexerError ChannelMessage) (len n : ℕ) (m : ChannelMessage)
    → (r >>= with_size len) ≡ ok (some (m, n))
    → n ≡ len
size_of_some (ok x) len n m e = ground arith
size_of_some (err x) len n m e = cc
size_of_some panic len n m e = cc

with_size-ne-panic :
    (r : Outcome MultiplexerError ChannelMessage) (len : ℕ)
    → r ≢ panic
    → (r >>= with_size len) ≢ panic
with_size-ne-panic (ok x) len h e = cc
with_size-ne-panic (err x) len h e = cc
with_size-ne-panic panic len h e = h refl

-- The three ways in which a frame's length can stand to the buffer.
length_cases :
    (k len : ℕ) (xs : List ℕ)
    → (len < k) ⊎ ((k ≤ len) × (length xs < len)) ⊎ ((k ≤ len) × (len ≤ length xs))
length_cases k len xs = grind arith

frame_takes :
    (kind len id : ℕ) (bytes : List ℕ) (m : ChannelMessage) (n : ℕ)
    → parse_frame kind len id bytes ≡ ok (some (m, n))
    → (0 < n) × (n ≤ length bytes)
frame_takes kind len id bytes m n e = elim (length_cases 13 len bytes) [
  | inl h ↦ cc (parse_frame-small kind len id bytes h)
  | inr (inl (h, k)) ↦ cc (parse_frame-waits kind len id bytes h k)
  | inr (inr (h, k)) ↦
      let s = size_of_some _ len n m (sym (parse_frame-eq kind len id bytes h k) ∙ e) in omega arith
]

frame_steady :
    (kind len id : ℕ) (bytes more : List ℕ)
    → (parse_frame kind len id bytes ≡ ok none)
      ⊎ (parse_frame kind len id (bytes ++ more) ≡ parse_frame kind len id bytes)
frame_steady kind len id bytes more = elim (length_cases 13 len bytes) [
  | inl h ↦
      inr (
        rw (parse_frame-small kind len id bytes h, parse_frame-small kind len id (bytes ++ more) h))
  | inr (inl (h, k)) ↦ inl (parse_frame-waits kind len id bytes h k)
  | inr (inr (h, k)) ↦ inr (
      rw (
        parse_frame-eq kind len id bytes h k,
        parse_frame-eq kind len id (bytes ++ more) h (omega (arith, length-append bytes more)),
        drop-append_le 13 bytes more (omega arith),
        take-append_le (len - 13) (drop 13 bytes) more (omega (arith, length-drop 13 bytes)),
      ))
]

frame_safe : (kind len id : ℕ) (bytes : List ℕ) → parse_frame kind len id bytes ≢ panic
frame_safe kind len id bytes e = elim (length_cases 13 len bytes) [
  | inl h ↦ cc (parse_frame-small kind len id bytes h)
  | inr (inl (h, k)) ↦ cc (parse_frame-waits kind len id bytes h k)
  | inr (inr (h, k)) ↦
      with_size-ne-panic _ len (parse_msg-ne-panic kind len id _)
        (sym (parse_frame-eq kind len id bytes h k) ∙ e)
]

header? : (rest : List ℕ) → (length rest < 12) ⊎ (12 ≤ length rest)
header? rest = grind arith

-- The parser takes a byte at least and no more than there are, an answer other than "more bytes" is
-- kept when bytes are added, and no input makes it panic: every slice is in range.
pub parse_message-IsFraming : IsFraming parse
parse_message-IsFraming = record {
  takes = takes;
  steady = steady;
  safe = safe;
  empty = parse-short [] (omega arith);
}
  where
    takes :
        (xs : List ℕ) (m : ChannelMessage) (n : ℕ)
        → parse xs ≡ ok (some (m, n))
        → (0 < n) × (n ≤ length xs)
    takes [] m n e = cc (parse-short [] (omega arith))
    takes (kind ∷ rest) m n e = elim (header? rest) [
      | inl h ↦ cc (parse-short (kind ∷ rest) (omega arith))
      | inr h ↦
          frame_takes kind (len_of rest) (id_of rest) _ m n (sym (parse-header kind rest h) ∙ e)
    ]

    steady : (xs more : List ℕ) → (parse xs ≡ ok none) ⊎ (parse (xs ++ more) ≡ parse xs)
    steady [] more = inl (parse-short [] (omega arith))
    steady (kind ∷ rest) more = elim (header? rest) [
      | inl h ↦ inl (parse-short (kind ∷ rest) (omega arith))
      | inr h ↦
          rw
            (
              parse-header kind rest h,
              parse-header kind (rest ++ more) (omega (arith, length-append rest more)),
              take-append_le 12 rest more h,
            )
            (frame_steady kind (len_of rest) (id_of rest) (kind ∷ rest) more)
    ]

    safe : (xs : List ℕ) → parse xs ≢ panic
    safe [] e = cc (parse-short [] (omega arith))
    safe (kind ∷ rest) e = elim (header? rest) [
      | inl h ↦ cc (parse-short (kind ∷ rest) (omega arith))
      | inr h ↦ frame_safe kind (len_of rest) (id_of rest) _ (sym (parse-header kind rest h) ∙ e)
    ]
