-- ===== src/Bytes.antt =====
-- Bytes as the sources use them: slices and indexing with their panics, and the
-- `to_le_bytes`/`from_le_bytes` of u32 and u64. A byte is a number below 256.
use native.Mathlib.Nat.{pow-suc}
use mobiletunnel.Prelude.{
  ℕ, zero, suc, ◌+◌, ◌-◌, ◌*◌, ◌/◌, ◌%◌, ◌^◌, ◌≤◌, ◌<◌, ◌≡◌, refl, sym, ap, ◌∙◌, ◌&&◌, List, [],
  ◌∷◌, ◌++◌, arith, leb, le→leb, if◌then◌else◌, length, take, drop, All, length-append,
  take-append_le, drop-append_le, take-append_eq, drop-append_eq, length-drop, Outcome, ok, panic,
}

abbrev pub IsByte : ℕ → Type 0
IsByte b = b < 256

-- `&xs[a..b]`: a bound out of range panics.
pub slice {ℓ} : {E : Type ℓ} → ℕ → ℕ → List ℕ → Outcome E (List ℕ)
slice a b xs = if leb a b && leb b (length xs) then ok (take (b - a) (drop a xs)) else panic

-- `xs[i]`.
unfoldable pub index {ℓ} : {E : Type ℓ} → List ℕ → ℕ → Outcome E ℕ
index [] i = panic
index (x ∷ xs) zero = ok x
index (x ∷ xs) (suc i) = index xs i

module _ {ℓ} {E : Type ℓ} where
  pub slice-eq_ok :
      (a b : ℕ) (xs : List ℕ)
      → a ≤ b
      → b ≤ length xs
      → slice {E = E} a b xs ≡ ok (take (b - a) (drop a xs))
  unfolding slice
  slice-eq_ok a b xs h k = rw (le→leb a b h, le→leb b (length xs) k)

  pub slice-bounds :
      (a b : ℕ) (xs ys : List ℕ) → slice {E = E} a b xs ≡ ok ys → (a ≤ b) × (b ≤ length xs)
  unfolding slice
  slice-bounds a b xs ys h = ground arith

  -- The slice of the middle part.
  pub slice-middle :
      (a b : ℕ) (front mid back : List ℕ)
      → a ≡ length front
      → b ≡ a + length mid
      → slice {E = E} a b (front ++ (mid ++ back)) ≡ ok mid
  slice-middle a b front mid back p q =
      slice-eq_ok a b (front ++ (mid ++ back)) (omega arith)
        (omega (arith, length-append front (mid ++ back), length-append mid back))
      ∙ ap ok (
          ap (take (b - a)) (drop-append_eq a front (mid ++ back) p)
          ∙ take-append_eq (b - a) mid back (omega arith))

  -- More bytes behind do not change a slice.
  pub slice-append :
      (a b : ℕ) (xs more : List ℕ)
      → a ≤ b
      → b ≤ length xs
      → slice {E = E} a b (xs ++ more) ≡ slice {E = E} a b xs
  slice-append a b xs more h k =
      slice-eq_ok a b (xs ++ more) h (omega (arith, length-append xs more))
      ∙ ap ok (
          ap (take (b - a)) (drop-append_le a xs more (omega arith))
          ∙ take-append_le (b - a) (drop a xs) more (omega (arith, length-drop a xs)))
      ∙ sym (slice-eq_ok a b xs h k)

-- The `w` low bytes of `n`, lowest first: `to_le_bytes` of a number of `w` bytes.
unfoldable pub to_le_bytes : ℕ → ℕ → List ℕ
to_le_bytes zero n = []
to_le_bytes (suc w) n = (n % 256) ∷ to_le_bytes w (n / 256)

pub from_le_bytes : List ℕ → ℕ
from_le_bytes [] = 0
from_le_bytes (b ∷ bs) = b + 256 * from_le_bytes bs

pub length-to_le_bytes : (w n : ℕ) → length (to_le_bytes w n) ≡ w
unfolding to_le_bytes
length-to_le_bytes zero n = refl
length-to_le_bytes (suc w) n = ap suc (length-to_le_bytes w (n / 256))

pub to_le_bytes-IsByte : (w n : ℕ) → All IsByte (to_le_bytes w n)
unfolding to_le_bytes
to_le_bytes-IsByte zero n = tt
to_le_bytes-IsByte (suc w) n = (omega arith, to_le_bytes-IsByte w (n / 256))

pub from_le_bytes-to_le_bytes : (w n : ℕ) → n < 256 ^ w → from_le_bytes (to_le_bytes w n) ≡ n
unfolding to_le_bytes from_le_bytes
from_le_bytes-to_le_bytes zero n h = omega arith
from_le_bytes-to_le_bytes (suc w) n h =
    let p = pow-suc 256 w in omega (arith, from_le_bytes-to_le_bytes w (n / 256) (omega (arith, p)))

pub from_le_bytes-lt : (bs : List ℕ) → All IsByte bs → from_le_bytes bs < 256 ^ length bs
unfolding from_le_bytes
from_le_bytes-lt [] h = omega arith
from_le_bytes-lt (b ∷ bs) (hb, hbs) =
    omega (arith, pow-suc 256 (length bs), from_le_bytes-lt bs hbs)

-- A number at the front of a buffer is read back, and the rest is left.
pub take_number :
    (w n : ℕ) (rest : List ℕ) → n < 256 ^ w → from_le_bytes (take w (to_le_bytes w n ++ rest)) ≡ n
take_number w n rest h =
    ap from_le_bytes (take-append_eq w (to_le_bytes w n) rest (sym (length-to_le_bytes w n)))
    ∙ from_le_bytes-to_le_bytes w n h

pub length-number : (w n : ℕ) (rest : List ℕ) → length (to_le_bytes w n ++ rest) ≡ w + length rest
length-number w n rest = omega (arith, length-append (to_le_bytes w n) rest, length-to_le_bytes w n)

pub drop_number : (w n : ℕ) (rest : List ℕ) → drop w (to_le_bytes w n ++ rest) ≡ rest
drop_number w n rest = drop-append_eq w (to_le_bytes w n) rest (sym (length-to_le_bytes w n))
