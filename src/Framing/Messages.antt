-- ===== src/Framing/Messages.antt =====
-- A writer that sends encoded messages back to back, and the buffer loop at the other end.
use mobiletunnel.Prelude.{
  ℕ, ◌≡◌, refl, ap, ◌∙◌, List, [], ◌∷◌, ◌++◌, map, some, ok, length, flatten, All, drop-append_eq,
  sym, inl, inr, none, arith, length-append,
}
use mobiletunnel.Framing.{Parse, IsFraming, waits, run, feed}
use mobiletunnel.Framing.Chunks.{put, run-none, run-some, feed-run}

module _ {ℓ κ μ} {E : Type ℓ} {M : Type κ} (parse : Parse E M) (law : IsFraming parse)
    (Good : M → Type μ) (encode : M → List ℕ) (carried : M → M)
    (parse-encode : (m : M) (rest : List ℕ)
      → Good m
      → parse (encode m ++ rest) ≡ ok (some (carried m, length (encode m)))) where
  pub run-encoded :
      (ms : List M) → All Good ms → run parse (flatten (map encode ms)) ≡ (map carried ms, waits [])
  run-encoded [] g = run-none parse [] law.empty
  run-encoded (m ∷ ms) (g, gs) =
      run-some parse law _ (carried m) (length (encode m)) (parse-encode m _ g)
      ∙ ap (λ ys. put parse (carried m) (run parse ys))
          (drop-append_eq (length (encode m)) (encode m) (flatten (map encode ms)) refl)
      ∙ ap (put parse (carried m)) (run-encoded ms gs)

  -- However the transport cuts the bytes, the reader has the messages in the order they were sent,
  -- and no byte left.
  pub feed-encoded :
      (ms : List M) (chunks : List (List ℕ))
      → All Good ms
      → flatten chunks ≡ flatten (map encode ms)
      → feed parse [] chunks ≡ (map carried ms, waits [])
  feed-encoded ms chunks g e =
      feed-run parse law chunks [] law.empty ∙ ap (run parse) e ∙ run-encoded ms g

module _ {ℓ κ} {E : Type ℓ} {M : Type κ} (parse : Parse E M) (law : IsFraming parse) where
  -- A proper front part of one whole frame is not taken for a frame, nor for an error.
  pub parse_front :
      (front : List ℕ) (x : ℕ) (back : List ℕ) (m : M)
      → parse (front ++ (x ∷ back)) ≡ ok (some (m, length (front ++ (x ∷ back))))
      → parse front ≡ ok none
  parse_front front x back m e = elim (law.steady front (x ∷ back)) [
    | inl more ↦ more
    | inr same ↦
        let (_, fits) = law.takes front m _ (sym same ∙ e) in
        absurd (omega (arith, fits, length-append front (x ∷ back)))
  ]
