-- ===== src/Framing/Cut.antt =====
-- The buffer loop of Framing.antt at the end of a transport that stops anywhere: the bytes it has got are
-- a front of what the writer at the other end encoded.
use mobiletunnel.Prelude.{
  ℕ, ◌≡◌, refl, sym, ap, ◌∙◌, ◌⊎◌, inl, inr, List, [], ◌∷◌, ◌++◌, map, some, ok, length, flatten,
  All, drop-append_eq, IsFront, IsFront-prepend,
}
use mobiletunnel.Framing.{Parse, IsFraming, waits, run}
use mobiletunnel.Framing.Chunks.{put, run-none, run-some}
use mobiletunnel.Framing.Messages.{parse_front}

-- Where a list of bytes is cut, against where its first part ends.
abbrev Cuts {ℓ} : {A : Type ℓ} → List A → List A → List A → Type ℓ
Cuts {A} xs first later =
    ((more : List A) × (xs ≡ first ++ more) × IsFront more later)
    ⊎ ((x : A) × (back : List A) × (first ≡ xs ++ (x ∷ back)))

cuts {ℓ} :
    {A : Type ℓ} (xs first later : List A) → IsFront xs (first ++ later) → Cuts xs first later
cuts xs [] later f = inl (xs, refl, f)
cuts [] (x ∷ first) later f = inr (x, first, refl)
cuts (y ∷ xs) (x ∷ first) later (back, e) =
    let heads : x ≡ y = cc in
    let tails : first ++ later ≡ xs ++ back = cc in
    elim (cuts xs first later (back, tails)) [
      | inl (more, p, q) ↦ inl (more, ap (◌∷◌ y) p ∙ ap (◌∷ (first ++ more)) (sym heads), q)
      | inr (z, rest, p) ↦ inr (z, rest, ap (◌∷◌ x) p ∙ ap (◌∷ (xs ++ (z ∷ rest))) heads)
    ]

module _ {ℓ κ μ} {E : Type ℓ} {M : Type κ} (parse : Parse E M) (law : IsFraming parse)
    (Good : M → Type μ) (encode : M → List ℕ)
    (parse-encode : (m : M) (rest : List ℕ)
      → Good m
      → parse (encode m ++ rest) ≡ ok (some (m, length (encode m))))
    (whole : (m : M) → Good m → parse (encode m) ≡ ok (some (m, length (encode m)))) where
  -- The messages that are there as a whole are taken, and what is left is no error.
  abbrev pub Takes : List M → List ℕ → Type (ℓ ⊔ κ)
  Takes ms xs =
      (got : List M) × (rest : List ℕ) × (run parse xs ≡ (got, waits rest)) × IsFront got ms

  pub run-front :
      (ms : List M) (xs : List ℕ) → All Good ms → IsFront xs (flatten (map encode ms)) → Takes ms xs
  run-front [] [] g f = ([], [], run-none parse [] law.empty, ([], refl))
  run-front [] (x ∷ xs) g (back, e) = absurd cc
  run-front (m ∷ ms) xs (g, gs) f = elim (cuts xs (encode m) (flatten (map encode ms)) f) [
    | inl (more, p, q) ↦
        let (got, rest, taken, front) = run-front ms more gs q in
        (
          m ∷ got,
          rest,
          ap (run parse) p
              ∙ run-some parse law (encode m ++ more) m (length (encode m)) (parse-encode m more g)
              ∙ ap (λ ys. put parse m (run parse ys))
                  (drop-append_eq (length (encode m)) (encode m) more refl)
              ∙ ap (put parse m) taken,
          IsFront-prepend (m ∷ []) got ms front,
        )
    | inr (x, back, p) ↦ (
      [],
      xs,
      run-none parse xs (
          parse_front parse law xs x back m
            (sym (ap parse p) ∙ whole m g ∙ ap (λ ys. ok (some (m, length ys))) p)),
      (m ∷ ms, refl),
    )
  ]
