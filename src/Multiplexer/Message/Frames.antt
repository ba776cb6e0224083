-- ===== src/Multiplexer/Message/Frames.antt =====
-- src/lib/stream_multiplexer.rs: the fields of a frame, for `ChannelMessage::parse`.
use mobiletunnel.Prelude.{
  ℕ, ◌+◌, ◌-◌, ◌^◌, ◌≤◌, ◌<◌, ◌≡◌, sym, ◌∙◌, ap, List, [], ◌∷◌, ◌++◌, arith, some, length, true,
  take, drop, length-append, take-append_eq, drop-append_eq, append_assoc, append-nil, ok, ◌>>=◌,
}
use mobiletunnel.Bytes.{
  to_le_bytes, from_le_bytes, length-to_le_bytes, take_number, drop_number, length-number,
}
use mobiletunnel.Multiplexer.Message.{
  ChannelMessage, error_msg, parse, parse_msg, parse_frame, frame, error_msg_id,
}
use mobiletunnel.Multiplexer.Message.Utf8.{is_utf8}
use mobiletunnel.Multiplexer.Message.Laws.{len_of, id_of, parse-header, parse_frame-eq, with_size}

pub length-frame :
    (kind len id : ℕ) (body : List ℕ) → length (frame kind len id body) ≡ 13 + length body
unfolding frame
length-frame kind len id body =
    omega (arith, length-number 4 len (to_le_bytes 8 id ++ body), length-number 8 id body)

-- The header of a frame, and what follows it.
pub behind : ℕ → ℕ → List ℕ → List ℕ → List ℕ
behind len id body rest = (to_le_bytes 4 len ++ (to_le_bytes 8 id ++ body)) ++ rest

pub behind_split :
    (len id : ℕ) (body rest : List ℕ)
    → behind len id body rest ≡ (to_le_bytes 4 len ++ to_le_bytes 8 id) ++ (body ++ rest)
unfolding behind
behind_split len id body rest = rw (
  append_assoc (to_le_bytes 4 len) (to_le_bytes 8 id ++ body) rest,
  append_assoc (to_le_bytes 8 id) body rest,
  append_assoc (to_le_bytes 4 len) (to_le_bytes 8 id) (body ++ rest),
)

pub length-fields : (len id : ℕ) → 12 ≡ length (to_le_bytes 4 len ++ to_le_bytes 8 id)
length-fields len id =
    omega (arith, length-number 4 len (to_le_bytes 8 id), length-to_le_bytes 8 id)

pub fields_read :
    (len id : ℕ) (body rest : List ℕ)
    → take 12 (behind len id body rest) ≡ to_le_bytes 4 len ++ to_le_bytes 8 id
fields_read len id body rest =
    ap (take 12) (behind_split len id body rest)
    ∙ take-append_eq 12 (to_le_bytes 4 len ++ to_le_bytes 8 id) (body ++ rest)
        (length-fields len id)

pub fields_there : (len id : ℕ) (body rest : List ℕ) → 12 ≤ length (behind len id body rest)
unfolding behind
fields_there len id body rest = omega (
  arith,
  length-append (to_le_bytes 4 len ++ (to_le_bytes 8 id ++ body)) rest,
  length-number 4 len (to_le_bytes 8 id ++ body),
  length-number 8 id body,
)

pub len_read :
    (len id : ℕ) (body rest : List ℕ) → len < 2 ^ 32 → len_of (behind len id body rest) ≡ len
len_read len id body rest h =
    ap (λ xs. from_le_bytes (take 4 xs)) (fields_read len id body rest)
    ∙ take_number 4 len (to_le_bytes 8 id) (omega arith)

pub id_read : (len id : ℕ) (body rest : List ℕ) → id < 2 ^ 64 → id_of (behind len id body rest) ≡ id
id_read len id body rest h =
    ap (λ xs. from_le_bytes (take 8 (drop 4 xs))) (fields_read len id body rest)
    ∙ ap (λ xs. from_le_bytes (take 8 xs)) (drop_number 4 len (to_le_bytes 8 id))
    ∙ ap (λ xs. from_le_bytes (take 8 xs)) (sym (append-nil (to_le_bytes 8 id)))
    ∙ take_number 8 id [] (omega arith)

pub header_read :
    (kind len id : ℕ) (body rest : List ℕ)
    → len < 2 ^ 32
    → id < 2 ^ 64
    → parse (frame kind len id body ++ rest)
      ≡ parse_frame kind len id (frame kind len id body ++ rest)
unfolding frame behind
header_read kind len id body rest hl hi =
    let tail : List ℕ = behind len id body rest in
    parse-header kind tail (fields_there len id body rest)
    ∙ ap (λ n. parse_frame kind n (id_of tail) (kind ∷ tail)) (len_read len id body rest hl)
    ∙ ap (λ n. parse_frame kind len n (kind ∷ tail)) (id_read len id body rest hi)

pub body_read :
    (kind len id : ℕ) (body rest : List ℕ)
    → take (13 + length body - 13) (drop 13 (frame kind len id body ++ rest)) ≡ body
unfolding frame behind
body_read kind len id body rest =
    ap (λ xs. take (13 + length body - 13) (drop 12 xs)) (behind_split len id body rest)
    ∙ ap (take (13 + length body - 13)) (
        drop-append_eq 12 (to_le_bytes 4 len ++ to_le_bytes 8 id) (body ++ rest)
          (length-fields len id))
    ∙ take-append_eq (13 + length body - 13) body rest (omega arith)

pub parse-frame :
    (kind id : ℕ) (body rest : List ℕ) (m : ChannelMessage)
    → 13 + length body < 2 ^ 32
    → id < 2 ^ 64
    → parse_msg kind (13 + length body) id body ≡ ok m
    → parse (frame kind (13 + length body) id body ++ rest)
      ≡ ok (some (m, length (frame kind (13 + length body) id body)))
parse-frame kind id body rest m hl hi e =
    let size = length-frame kind (13 + length body) id body in
    header_read kind (13 + length body) id body rest hl hi
    ∙ parse_frame-eq kind (13 + length body) id _ (omega arith)
        (omega (arith, length-append (frame kind (13 + length body) id body) rest, size))
    ∙ ap (λ xs. parse_msg kind (13 + length body) id xs >>= with_size (13 + length body))
        (body_read kind (13 + length body) id body rest)
    ∙ ap (λ r. r >>= with_size (13 + length body)) e
    ∙ ap (λ (n : ℕ). ok (some (m, n))) (sym size)

pub parse-error_frame :
    (id : ℕ) (message rest : List ℕ)
    → 13 + length message < 2 ^ 32
    → id < 2 ^ 64
    → is_utf8 message ≡ true
    → parse (frame error_msg_id (13 + length message) id message ++ rest)
      ≡ ok (
          some (error_msg id message, length (frame error_msg_id (13 + length message) id message)))
parse-error_frame id message rest h hi u =
    parse-frame error_msg_id id message rest (error_msg id message) h hi
      (unfold parse_msg in (rw u))
