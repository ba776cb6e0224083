-- ===== src/Stream/Codec/Laws.antt =====
-- src/lib/reconnecting_stream.rs: `StreamCodecMessage::parse` as the parser of the buffer loop.
use mathlib.Core.Path.{subst, fun_ext}
use mobiletunnel.Prelude.{
  ℕ, suc, ◌+◌, ◌≤◌, ◌<◌, ◌≡◌, ◌≢◌, refl, sym, ◌∙◌, List, [], ◌∷◌, ◌++◌, arith, none, some, length,
  take, drop, length-append, take-append_le, drop-append_le, length-drop, Bool-cases, inl, inr, ◌⊎◌,
  ok, err, panic, ◌==◌,
}
use mobiletunnel.Bytes.{from_le_bytes}
use mobiletunnel.Framing.{IsFraming}
use mobiletunnel.Stream.Codec.{
  StreamCodecMessage, Parsed, parse, parse_kind, parse_hello, parse_ack, parse_data, parse_body,
  data_msg, unknown_msg_id, hello_msg_id, ack_msg_id, data_msg_id,
}
use mobiletunnel.Stream.Codec.Frames.{
  parse-cons, parse_hello-eq, parse_ack-eq, parse_data-eq, parse_body-eq,
}

-- What a part of the parser keeps when bytes are added behind, and that it takes what is there.
record IsSteady (p : List ℕ → Parsed) : Type 0 where
  takes :
      (rest : List ℕ) (m : StreamCodecMessage) (n : ℕ)
      → p rest ≡ ok (some (m, n))
      → (0 < n) × (n ≤ suc (length rest))
  steady : (rest more : List ℕ) → (p rest ≡ ok none) ⊎ (p (rest ++ more) ≡ p rest)
  safe : (rest : List ℕ) → p rest ≢ panic

-- A length test sends the short inputs to `ok none`.
fits? : (k : ℕ) (xs : List ℕ) → (length xs < k) ⊎ (k ≤ length xs)
fits? k xs = grind arith

parse_hello-short : (rest : List ℕ) → length rest < 16 → parse_hello rest ≡ ok none
unfolding parse_hello
parse_hello-short rest h = ground arith

parse_ack-short : (rest : List ℕ) → length rest < 8 → parse_ack rest ≡ ok none
unfolding parse_ack
parse_ack-short rest h = ground arith

parse_data-short : (rest : List ℕ) → length rest < 4 → parse_data rest ≡ ok none
unfolding parse_data
parse_data-short rest h = ground arith

parse_body-short :
    (size : ℕ) (other : List ℕ) → length other < size → parse_body size other ≡ ok none
unfolding parse_body
parse_body-short size other h = ground arith

parse_hello-IsSteady : IsSteady parse_hello
parse_hello-IsSteady = record {
  takes = λ rest m n e. elim (fits? 16 rest) [
    | inl h ↦ cc (parse_hello-short rest h)
    | inr h ↦ ground (arith, parse_hello-eq rest h)
  ];
  steady = λ rest more. elim (fits? 16 rest) [
    | inl h ↦ inl (parse_hello-short rest h)
    | inr h ↦ inr (
        rw (
          parse_hello-eq rest h,
          parse_hello-eq (rest ++ more) (omega (arith, length-append rest more)),
          drop-append_le 8 rest more (omega arith),
          take-append_le 8 rest more (omega arith),
          take-append_le 8 (drop 8 rest) more (omega (arith, length-drop 8 rest)),
        ))
  ];
  safe = λ rest e. elim (fits? 16 rest) [
    | inl h ↦ cc (parse_hello-short rest h)
    | inr h ↦ cc (parse_hello-eq rest h)
  ];
}

parse_ack-IsSteady : IsSteady parse_ack
parse_ack-IsSteady = record {
  takes = λ rest m n e. elim (fits? 8 rest) [
    | inl h ↦ cc (parse_ack-short rest h)
    | inr h ↦ ground (arith, parse_ack-eq rest h)
  ];
  steady = λ rest more. elim (fits? 8 rest) [
    | inl h ↦ inl (parse_ack-short rest h)
    | inr h ↦ inr (
        rw (
          parse_ack-eq rest h,
          parse_ack-eq (rest ++ more) (omega (arith, length-append rest more)),
          take-append_le 8 rest more h,
        ))
  ];
  safe = λ rest e. elim (fits? 8 rest) [
    | inl h ↦ cc (parse_ack-short rest h)
    | inr h ↦ cc (parse_ack-eq rest h)
  ];
}

-- The body, at a size that is known.
parse_body-cases :
    (size : ℕ) (other more : List ℕ)
    → (parse_body size other ≡ ok none)
      ⊎ ((size ≤ length other)
          × (parse_body size other ≡ ok (some (data_msg (take size other), 1 + 4 + size)))
          × (parse_body size (other ++ more) ≡ parse_body size other))
parse_body-cases size other more = elim (fits? size other) [
  | inl h ↦ inl (parse_body-short size other h)
  | inr h ↦ inr (
    h,
    parse_body-eq size other h,
    rw (
      parse_body-eq size other h,
      parse_body-eq size (other ++ more) (omega (arith, length-append other more)),
      take-append_le size other more h,
    ),
  )
]

parse_data-IsSteady : IsSteady parse_data
parse_data-IsSteady = record {
  takes = λ rest m n e. elim (fits? 4 rest) [
    | inl h ↦ cc (parse_data-short rest h)
    | inr h ↦ ground (
      arith,
      parse_data-eq rest h,
      parse_body-cases (from_le_bytes (take 4 rest)) (drop 4 rest) [],
      length-drop 4 rest,
    )
  ];
  steady = λ rest more. elim (fits? 4 rest) [
    | inl h ↦ inl (parse_data-short rest h)
    | inr h ↦ elim (parse_body-cases (from_le_bytes (take 4 rest)) (drop 4 rest) more) [
      | inl e ↦ inl (parse_data-eq rest h ∙ e)
      | inr (_, _, e) ↦ inr (
          rw
            (
              parse_data-eq rest h,
              parse_data-eq (rest ++ more) (omega (arith, length-append rest more)),
              drop-append_le 4 rest more h,
              take-append_le 4 rest more h,
            )
            e)
    ]
  ];
  safe = λ rest e. elim (fits? 4 rest) [
    | inl h ↦ cc (parse_data-short rest h)
    | inr h ↦ ground (
      arith,
      parse_data-eq rest h,
      parse_body-cases (from_le_bytes (take 4 rest)) (drop 4 rest) [],
    )
  ];
}

unknown-IsSteady : (kind : ℕ) → IsSteady (λ rest. err (unknown_msg_id kind))
unknown-IsSteady kind = record {
  takes = λ rest m n e. cc;
  steady = λ rest more. inr refl;
  safe = λ rest e. cc;
}

IsSteady-of_eq :
    (p q : List ℕ → Parsed) → ((rest : List ℕ) → p rest ≡ q rest) → IsSteady q → IsSteady p
IsSteady-of_eq p q e = subst IsSteady (sym (fun_ext e))

parse_kind-IsSteady : (kind : ℕ) → IsSteady (parse_kind kind)
unfolding parse_kind
parse_kind-IsSteady kind = elim (Bool-cases (kind == hello_msg_id)) [
  | inl a ↦ IsSteady-of_eq _ parse_hello (λ rest. rw a) parse_hello-IsSteady
  | inr a ↦ elim (Bool-cases (kind == ack_msg_id)) [
    | inl b ↦ IsSteady-of_eq _ parse_ack (λ rest. rw (a, b)) parse_ack-IsSteady
    | inr b ↦ elim (Bool-cases (kind == data_msg_id)) [
      | inl c ↦ IsSteady-of_eq _ parse_data (λ rest. rw (a, b, c)) parse_data-IsSteady
      | inr c ↦ IsSteady-of_eq _ _ (λ rest. rw (a, b, c)) (unknown-IsSteady kind)
    ]
  ]
]

parse-nil : parse [] ≡ ok none
unfolding parse
parse-nil = refl

-- The parser takes a byte at least and no more than there are, an answer other than "more bytes" is
-- kept when bytes are added, and no input makes it panic: every slice is in range.
pub parse-IsFraming : IsFraming parse
parse-IsFraming = record { takes = takes; steady = steady; safe = safe; empty = parse-nil }
  where
    takes :
        (xs : List ℕ) (m : StreamCodecMessage) (n : ℕ)
        → parse xs ≡ ok (some (m, n))
        → (0 < n) × (n ≤ length xs)
    takes [] m n e = cc (parse-nil)
    takes (kind ∷ rest) m n e =
        (parse_kind-IsSteady kind).takes rest m n (sym (parse-cons kind rest) ∙ e)

    steady : (xs more : List ℕ) → (parse xs ≡ ok none) ⊎ (parse (xs ++ more) ≡ parse xs)
    steady [] more = inl parse-nil
    steady (kind ∷ rest) more =
        rw (parse-cons kind rest, parse-cons kind (rest ++ more))
          ((parse_kind-IsSteady kind).steady rest more)

    safe : (xs : List ℕ) → parse xs ≢ panic
    safe [] e = cc (parse-nil)
    safe (kind ∷ rest) e = (parse_kind-IsSteady kind).safe rest (sym (parse-cons kind rest) ∙ e)
