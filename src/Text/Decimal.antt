-- ===== src/Text/Decimal.antt =====
-- Decimal numbers: `format!("{}", n)` of an unsigned number, and `parse` to an unsigned number, of Rust's
-- standard library.
use mathlib.Core.Path.{subst}
use mobiletunnel.Prelude.{
  ℕ, zero, suc, ◌+◌, ◌-◌, ◌*◌, ◌/◌, ◌%◌, ◌^◌, ◌<◌, ◌≤◌, ◌≡◌, ◌∙◌, refl, sym, ap, [], ◌∷◌, ◌++◌,
  append_assoc, append-nil, Bool, true, false, ◌||◌, Option, none, some, All, All-append, All-map,
  ◌≢◌, ltb, ◌==◌, if◌then◌else◌, arith, ltb→lt, Bool-cases, inl, inr,
}
use mobiletunnel.Text.{Text, is_whitespace}

-- The last digit behind the others, for a number of `places` digits at most.
abbrev pub digits : ℕ → ℕ → Text
digits zero n = []
digits (suc places) n =
    let front = digits places (n / 10) in
    if ltb n 10 then (b'0' + n) ∷ [] else front ++ ((b'0' + n % 10) ∷ [])

-- 20 digits are enough for a `u64`.
abbrev pub to_decimal : ℕ → Text
to_decimal n = digits 20 n

-- The digits behind a number that was read, below a bound.
abbrev pub scan : ℕ → ℕ → Text → Option ℕ
scan bound n [] = some n
scan bound n (c ∷ s) =
    let next = n * 10 + (c - b'0') in
    let rest = scan bound next s in
    if ltb c b'0' || ltb b'9' c then none else if ltb next bound then rest else none

-- A sign, if there is one, and a digit at least.
abbrev pub after_sign : ℕ → Text → Option ℕ
after_sign bound [] = none
after_sign bound (c ∷ s) = scan bound 0 (c ∷ s)

abbrev pub parse_unsigned : ℕ → Text → Option ℕ
parse_unsigned bound [] = none
parse_unsigned bound (c ∷ s) = if c == b'+' then after_sign bound s else after_sign bound (c ∷ s)

scan_digit :
    (bound n d : ℕ) (rest : Text)
    → d < 10
    → n * 10 + d < bound
    → scan bound n ((b'0' + d) ∷ rest) ≡ scan bound (n * 10 + d) rest
scan_digit bound n d rest h k = ground arith

scan-digits :
    (bound places n : ℕ) (rest : Text)
    → n < bound
    → n < 10 ^ places
    → scan bound 0 (digits places n ++ rest) ≡ scan bound n rest
scan-digits bound zero n rest h k = ap (λ (m : ℕ). scan bound m rest) (omega arith)
scan-digits bound (suc places) n rest h k = elim (Bool-cases (ltb n 10)) [
  | inl small ↦ rw small (
      scan_digit bound 0 n rest (ltb→lt n 10 small) (omega arith)
      ∙ ap (λ (m : ℕ). scan bound m rest) (omega arith))
  | inr large ↦ rw large (
      ap (scan bound 0) (append_assoc (digits places (n / 10)) ((b'0' + n % 10) ∷ []) rest)
      ∙ scan-digits bound places (n / 10) ((b'0' + n % 10) ∷ rest) (omega arith) (omega (arith, k))
      ∙ scan_digit bound (n / 10) (n % 10) rest (omega arith) (omega arith)
      ∙ ap (λ (m : ℕ). scan bound m rest) (omega arith))
]

abbrev pub IsDigit : ℕ → Type 0
IsDigit c = (b'0' ≤ c) × (c ≤ b'9')

-- A print is digits alone.
pub digits-All : (places n : ℕ) → All IsDigit (digits places n)
digits-All zero n = tt
digits-All (suc places) n = elim (Bool-cases (ltb n 10)) [
  | inl small ↦ let less : n < 10 = ltb→lt n 10 small in rw small ((omega arith, omega arith), tt)
  | inr large ↦ rw large (
      All-append IsDigit (digits places (n / 10)) _ (digits-All places (n / 10))
        ((omega arith, omega arith), tt))
]

-- A char that no digit is, and white space, are not in a print.
pub to_decimal-other : (c n : ℕ) → ¬ IsDigit c → All (λ d. d ≢ c) (to_decimal n)
to_decimal-other c n other =
    All-map IsDigit (λ d. d ≢ c) (to_decimal n) (λ d. λ h. λ e. other (subst IsDigit e h))
      (digits-All 20 n)

pub to_decimal-solid : (n : ℕ) → All (λ c. is_whitespace c ≡ false) (to_decimal n)
to_decimal-solid n =
    All-map IsDigit (λ c. is_whitespace c ≡ false) (to_decimal n) (λ d. λ (low, high). ground arith)
      (digits-All 20 n)

-- A front of some chars, the first of which is a digit.
abbrev pub Begins : Text → Type 0
Begins s = (c : ℕ) × (rest : Text) × (s ≡ c ∷ rest) × (b'0' ≤ c)

Begins-append : (s t : Text) → Begins s → Begins (s ++ t)
Begins-append s t (c, rest, e, digit) = (c, rest ++ t, ap (◌++ t) e, digit)

Begins-choice : (b : Bool) (s t : Text) → Begins s → Begins t → Begins (if b then s else t)
Begins-choice true s t p q = p
Begins-choice false s t p q = q

pub digits-Begins : (places n : ℕ) → Begins (digits (suc places) n)
digits-Begins zero n =
    Begins-choice (ltb n 10) _ _ (b'0' + n, [], refl, omega arith)
      (b'0' + n % 10, [], refl, omega arith)
digits-Begins (suc places) n =
    Begins-choice (ltb n 10) _ _ (b'0' + n, [], refl, omega arith)
      (Begins-append _ ((b'0' + n % 10) ∷ []) (digits-Begins places (n / 10)))

parse-Begins : (bound : ℕ) (s : Text) → Begins s → parse_unsigned bound s ≡ scan bound 0 s
parse-Begins bound s (c, rest, e, digit) =
    rw e (let other : (c == b'+') ≡ false = ground arith in rw other refl)

-- Every number below the bound, of 20 digits at most, is read back from its print.
pub parse-to_decimal :
    (bound n : ℕ) → n < bound → n < 10 ^ 20 → parse_unsigned bound (to_decimal n) ≡ some n
parse-to_decimal bound n h k =
    parse-Begins bound (to_decimal n) (digits-Begins 19 n)
    ∙ ap (scan bound 0) (sym (append-nil (to_decimal n)))
    ∙ scan-digits bound 20 n [] h k
