-- ===== src/Prelude/Outcomes.antt =====
-- What a Rust function that returns a `Result` can do: return a value, return an error, or panic.

pub data Outcome {ℓ κ} (E : Type ℓ) (A : Type κ) : Type (ℓ ⊔ κ) where
  ok : A → Outcome E A
  err : E → Outcome E A
  panic : Outcome E A

-- The `?` operator: an error or a panic leaves the function.
infixl 5 ◌>>=◌
abbrev pub ◌>>=◌ {ℓ κ μ} :
    {E : Type ℓ} {A : Type κ} {B : Type μ} (m : Outcome E A) (rest : A → Outcome E B) → Outcome E B
ok value >>= rest = rest value
err failure >>= rest = err failure
panic >>= rest = panic
