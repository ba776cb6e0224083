-- ===== src/Framing/Chunks.antt =====
-- The buffer loop of Framing.antt: how it ends, and how the bytes are cut into chunks.
use mobiletunnel.Prelude.{
  ℕ, zero, suc, ◌<◌, ◌≡◌, refl, sym, ap, ◌∙◌, List, [], ◌∷◌, ◌++◌, append-nil, append_assoc, arith,
  ◌⊎◌, inl, inr, Option, none, some, length, drop, flatten, length-drop, drop-append_le, Outcome,
  ok, err, panic,
}
use mobiletunnel.Framing.{
  Parse, IsFraming, Ended, waits, failed, panicked, spent, next, drain, run, before, feed, go_on,
}

-- The four answers of a parser, with their equations.
abbrev pub Answers {ℓ κ} : {E : Type ℓ} {M : Type κ} → Outcome E (Option (M × ℕ)) → Type (ℓ ⊔ κ)
Answers {E} {M} r =
    (r ≡ ok none)
    ⊎ ((m : M) × (n : ℕ) × (r ≡ ok (some (m, n))))
    ⊎ ((e : E) × (r ≡ err e))
    ⊎ (r ≡ panic)

pub answers {ℓ κ} : {E : Type ℓ} {M : Type κ} (r : Outcome E (Option (M × ℕ))) → Answers r
answers (ok none) = inl refl
answers (ok (some (m, n))) = inr (inl (m, n, refl))
answers (err e) = inr (inr (inl (e, refl)))
answers panic = inr (inr (inr refl))

module _ {ℓ κ} {E : Type ℓ} {M : Type κ} (parse : Parse E M) where
  abbrev pub put : M → List M × Ended E → List M × Ended E
  put m r = (m ∷ r.0, r.1)

  -- One round of the loop, by the parser's answer.
  pub drain-none :
      (f : ℕ) (xs : List ℕ) → parse xs ≡ ok none → drain parse (suc f) xs ≡ ([], waits xs)
  unfolding drain
  drain-none f xs e = rw (e, drain, next)

  pub drain-some :
      (f : ℕ) (xs : List ℕ) (m : M) (n : ℕ)
      → parse xs ≡ ok (some (m, n))
      → drain parse (suc f) xs ≡ put m (drain parse f (drop n xs))
  unfolding drain
  drain-some f xs m n e = rw (e, drain, next)

  pub drain_err :
      (f : ℕ) (xs : List ℕ) (x : E) → parse xs ≡ err x → drain parse (suc f) xs ≡ ([], failed x)
  unfolding drain
  drain_err f xs x e = rw (e, drain, next)

  pub drain_panic :
      (f : ℕ) (xs : List ℕ) → parse xs ≡ panic → drain parse (suc f) xs ≡ ([], panicked)
  unfolding drain
  drain_panic f xs e = rw (e, drain, next)

  pub run-none : (xs : List ℕ) → parse xs ≡ ok none → run parse xs ≡ ([], waits xs)
  unfolding run
  run-none xs e = rw (e, drain, next)

  run_err : (xs : List ℕ) (x : E) → parse xs ≡ err x → run parse xs ≡ ([], failed x)
  unfolding run
  run_err xs x e = rw (e, drain, next)

module _ {ℓ κ} {E : Type ℓ} {M : Type κ} (parse : Parse E M) (law : IsFraming parse) where
  open law use {takes, steady, safe, empty}

  stays :
      (xs more : List ℕ) (m : M) (n : ℕ)
      → parse xs ≡ ok (some (m, n))
      → parse (xs ++ more) ≡ ok (some (m, n))
  stays xs more m n e = elim (steady xs more) [ inl none_yet ↦ cc | inr same ↦ same ∙ e ]

  fails : (xs more : List ℕ) (x : E) → parse xs ≡ err x → parse (xs ++ more) ≡ err x
  fails xs more x e = elim (steady xs more) [ inl none_yet ↦ cc | inr same ↦ same ∙ e ]

  -- Fuel above the buffer's length makes no difference.
  drain-fuel :
      (f g : ℕ) (xs : List ℕ) → length xs < f → length xs < g → drain parse f xs ≡ drain parse g xs
  unfolding drain
  drain-fuel zero g xs h k = absurd (omega arith)
  drain-fuel (suc f) zero xs h k = absurd (omega arith)
  drain-fuel (suc f) (suc g) xs h k = elim (answers (parse xs)) [
    | inl e ↦ rw (e, drain, next)
    | inr (inl (m, n, e)) ↦
        let (pos, fits) = takes xs m n e in
        let shorter = length-drop n xs in
        rw (e, drain, next)
          (ap (put parse m) (drain-fuel f g (drop n xs) (omega arith) (omega arith)))
    | inr (inr (inl (x, e))) ↦ rw (e, drain, next)
    | inr (inr (inr e)) ↦ rw (e, drain, next)
  ]

  pub run-some :
      (xs : List ℕ) (m : M) (n : ℕ)
      → parse xs ≡ ok (some (m, n))
      → run parse xs ≡ put parse m (run parse (drop n xs))
  unfolding run
  run-some xs m n e =
      let (pos, fits) = takes xs m n e in
      let shorter = length-drop n xs in
      rw (e, drain, next)
        (ap (put parse m) (
          drain-fuel (length xs) (suc (length (drop n xs))) (drop n xs) (omega arith)
            (omega arith)))

  -- Where the loop stops: never by a panic and never for want of fuel; if it waits, the parser has
  -- no use for what is left.
  abbrev IsSettled : Ended E → Type (ℓ ⊔ κ)
  IsSettled end =
      ((rest : List ℕ) × (end ≡ waits rest) × (parse rest ≡ ok none)) ⊎ ((x : E) × (end ≡ failed x))

  settled : (f : ℕ) (xs : List ℕ) → length xs < f → IsSettled (run parse xs).1
  settled zero xs h = absurd (omega arith)
  settled (suc f) xs h = elim (answers (parse xs)) [
    | inl e ↦ rw (run-none parse xs e) (inl (xs, refl, e))
    | inr (inl (m, n, e)) ↦
        let (pos, fits) = takes xs m n e in
        let shorter = length-drop n xs in
        rw (run-some xs m n e) (settled f (drop n xs) (omega arith))
    | inr (inr (inl (x, e))) ↦ rw (run_err parse xs x e) (inr (x, refl))
    | inr (inr (inr e)) ↦ absurd (safe xs e)
  ]

  -- The loop ends on every buffer, with no panic.
  pub run-IsSettled : (xs : List ℕ) → IsSettled (run parse xs).1
  run-IsSettled xs = settled (suc (length xs)) xs (omega arith)

  go_on-put :
      (m : M) (r : List M × Ended E) (more : List ℕ)
      → go_on parse (put parse m r) more ≡ put parse m (go_on parse r more)
  unfolding go_on
  go_on-put m (ms, waits rest) more = refl
  go_on-put m (ms, failed e) more = refl
  go_on-put m (ms, panicked) more = refl
  go_on-put m (ms, spent) more = refl

  run-append_fuel :
      (f : ℕ) (xs more : List ℕ)
      → length xs < f
      → run parse (xs ++ more) ≡ go_on parse (run parse xs) more
  unfolding go_on
  run-append_fuel zero xs more h = absurd (omega arith)
  run-append_fuel (suc f) xs more h = elim (answers (parse xs)) [
    | inl e ↦ rw (run-none parse xs e)
    | inr (inl (m, n, e)) ↦
        let (pos, fits) = takes xs m n e in
        let shorter = length-drop n xs in
        run-some (xs ++ more) m n (stays xs more m n e)
        ∙ ap (λ ys. put parse m (run parse ys)) (drop-append_le n xs more fits)
        ∙ ap (put parse m) (run-append_fuel f (drop n xs) more (omega arith))
        ∙ sym (go_on-put m (run parse (drop n xs)) more)
        ∙ ap (λ r. go_on parse r more) (sym (run-some xs m n e))
    | inr (inr (inl (x, e))) ↦
        rw (run_err parse xs x e, run_err parse (xs ++ more) x (fails xs more x e))
    | inr (inr (inr e)) ↦ absurd (safe xs e)
  ]

  -- Frames taken from the first bytes stay the same when more bytes follow.
  pub run-append : (xs more : List ℕ) → run parse (xs ++ more) ≡ go_on parse (run parse xs) more
  run-append xs more = run-append_fuel (suc (length xs)) xs more (omega arith)

  -- Chunk by chunk or all at once: the same messages in the same order, and the same end.
  pub feed-run :
      (chunks : List (List ℕ)) (buffer : List ℕ)
      → parse buffer ≡ ok none
      → feed parse buffer chunks ≡ run parse (buffer ++ flatten chunks)
  unfolding feed go_on
  feed-run [] buffer e = rw append-nil (sym (run-none parse buffer e))
  feed-run (c ∷ cs) buffer e =
      let whole : run parse (buffer ++ (c ++ flatten cs))
          ≡ go_on parse (run parse (buffer ++ c)) (flatten cs) =
        rw (← append_assoc buffer c (flatten cs)) (run-append (buffer ++ c) (flatten cs)) in
      elim (run-IsSettled (buffer ++ c)) [
        | inl (rest, p, q) ↦
            rw (p, feed)
              (ap (before parse (run parse (buffer ++ c)).0) (feed-run cs rest q)
                ∙ sym (rw (p, go_on) at whole))
        | inr (x, p) ↦ rw (p, feed) (sym (rw (p, go_on) at whole))
      ]
