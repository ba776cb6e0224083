-- ===== src/Framing/Inversion.antt =====
-- The buffer loop of Framing.antt, chunk by chunk.
use mobiletunnel.Prelude.{◌≡◌, refl, ap, ℕ, List, ◌∷◌, ◌++◌}
use mobiletunnel.Framing.{Parse, Ended, waits, failed, panicked, spent, run, before, feed}

module _ {ℓ κ} {E : Type ℓ} {M : Type κ} (parse : Parse E M) where
  abbrev next_chunk : List (List ℕ) → List M × Ended E → List M × Ended E
  next_chunk chunks r = elim r.1 [
    | waits rest ↦ before parse r.0 (feed parse rest chunks)
    | other ↦ (r.0, other)
  ]

  next_chunk-waits :
      (chunks : List (List ℕ)) (r : List M × Ended E) (ms : List M) (rest : List ℕ)
      → next_chunk chunks r ≡ (ms, waits rest)
      → (now : List M) × (middle : List ℕ) × (later : List M) × (r ≡ (now, waits middle))
        × (feed parse middle chunks ≡ (later, waits rest))
        × (now ++ later ≡ ms)
  next_chunk-waits chunks (now, waits middle) ms rest e = (
    now,
    middle,
    (feed parse middle chunks).0,
    refl,
    ap (λ (r : List M × Ended E). ((feed parse middle chunks).0, r.1)) e,
    ap (λ r. r.0) e,
  )
  next_chunk-waits chunks (now, failed x) ms rest e = cc
  next_chunk-waits chunks (now, panicked) ms rest e = cc
  next_chunk-waits chunks (now, spent) ms rest e = cc

  pub feed-waits :
      (buffer chunk : List ℕ) (chunks : List (List ℕ)) (ms : List M) (rest : List ℕ)
      → feed parse buffer (chunk ∷ chunks) ≡ (ms, waits rest)
      → (now : List M) × (middle : List ℕ) × (later : List M) × (run parse (buffer ++ chunk)
          ≡ (now, waits middle))
        × (feed parse middle chunks ≡ (later, waits rest))
        × (now ++ later ≡ ms)
  unfolding feed
  feed-waits buffer chunk chunks ms rest e =
      next_chunk-waits chunks (run parse (buffer ++ chunk)) ms rest e
