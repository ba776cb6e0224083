-- ===== src/Text/Laws.antt =====
-- Laws of the texts of `Text`.
use mobiletunnel.Prelude.{
  ℕ, suc, ◌-◌, ◌≡◌, ◌≢◌, ◌∙◌, refl, sym, ap, List, [], ◌∷◌, ◌++◌, append-nil, Bool, true, false,
  ◌&&◌, none, some, ◌==◌, arith, Bool-cases, inl, inr, length, All, ==_refl,
}
use mobiletunnel.Text.{
  Text, equal, strip_prefix, starts_with, strip_suffix, leave_out, remove_all, split, onto_first,
  join, is_whitespace, trim_start, trim_end, keep_char, trim,
}

pub equal_refl : (s : Text) → equal s s ≡ true
equal_refl [] = refl
equal_refl (c ∷ s) = rw (==_refl c, equal_refl s) refl

both : (a b : Bool) → (a && b) ≡ true → (a ≡ true) × (b ≡ true)
both true b h = (refl, h)
both false b h = absurd cc

pub equal-eq : (s t : Text) → equal s t ≡ true → s ≡ t
equal-eq [] [] h = refl
equal-eq [] (d ∷ t) h = absurd cc
equal-eq (c ∷ s) [] h = absurd cc
equal-eq (c ∷ s) (d ∷ t) h =
    let (first, rest) = both (c == d) (equal s t) h in
    let same : c ≡ d = ground arith in ap (λ (x : ℕ). x ∷ s) same ∙ ap (◌∷◌ d) (equal-eq s t rest)

pub strip_prefix-append : (p s : Text) → strip_prefix (p ++ s) p ≡ some s
strip_prefix-append [] [] = refl
strip_prefix-append [] (c ∷ s) = refl
strip_prefix-append (c ∷ p) s = rw (==_refl c, strip_prefix-append p s) refl

pub strip_prefix-some : (s p t : Text) → strip_prefix s p ≡ some t → s ≡ p ++ t
strip_prefix-some s [] t h = cc
strip_prefix-some [] (c ∷ p) t h = absurd cc
strip_prefix-some (c ∷ s) (d ∷ p) t h = elim (Bool-cases (c == d)) [
  | inl same ↦
      let same' : c ≡ d = ground arith in
      ap (λ (x : ℕ). x ∷ s) same' ∙ ap (◌∷◌ d) (strip_prefix-some s p t (rw same at h))
  | inr other ↦ absurd (let no : none ≡ some t = rw other at h in cc)
]

longer : (d c : ℕ) (s : Text) → equal (d ∷ (s ++ (c ∷ []))) (c ∷ []) ≡ false
longer d c [] = elim (Bool-cases (d == c)) [ inl e ↦ rw e refl | inr e ↦ rw e refl ]
longer d c (x ∷ s) = elim (Bool-cases (d == c)) [ inl e ↦ rw e refl | inr e ↦ rw e refl ]

-- The last char alone.
pub strip_suffix-one : (s : Text) (c : ℕ) → strip_suffix (s ++ (c ∷ [])) (c ∷ []) ≡ some s
strip_suffix-one [] c = rw (==_refl c) refl
strip_suffix-one (d ∷ s) c = rw (longer d c s, strip_suffix-one s c) refl

-- There is a first part.
abbrev IsCons : List Text → Type 0
IsCons parts = (p : Text) × (ps : List Text) × (parts ≡ p ∷ ps)

onto_first-IsCons : (c : ℕ) (parts : List Text) → IsCons (onto_first c parts)
onto_first-IsCons c [] = (c ∷ [], [], refl)
onto_first-IsCons c (p ∷ ps) = (c ∷ p, ps, refl)

pub split-IsCons : (s : Text) (sep : ℕ) → IsCons (split s sep)
split-IsCons [] sep = ([], [], refl)
split-IsCons (c ∷ s) sep = elim (Bool-cases (c == sep)) [
  | inl e ↦ rw e ([], split s sep, refl)
  | inr e ↦ rw e (onto_first-IsCons c (split s sep))
]

join-onto_first :
    (c : ℕ) (parts : List Text) (sep : Text) → join (onto_first c parts) sep ≡ c ∷ join parts sep
join-onto_first c [] sep = refl
join-onto_first c (p ∷ []) sep = refl
join-onto_first c (p ∷ q ∷ ps) sep = refl

join_empty :
    (parts : List Text) (sep : Text) → IsCons parts → join ([] ∷ parts) sep ≡ sep ++ join parts sep
join_empty [] sep (p, ps, e) = absurd cc
join_empty (q ∷ qs) sep h = refl

-- Joining what was split gives the text back.
pub join-split : (s : Text) (sep : ℕ) → join (split s sep) (sep ∷ []) ≡ s
join-split [] sep = refl
join-split (c ∷ s) sep = elim (Bool-cases (c == sep)) [
  | inl e ↦
      let same : c ≡ sep = ground arith in
      rw e (
        join_empty (split s sep) (sep ∷ []) (split-IsCons s sep)
        ∙ ap (◌∷◌ sep) (join-split s sep)
        ∙ ap (λ (x : ℕ). x ∷ s) (sym same))
  | inr e ↦ rw e (join-onto_first c (split s sep) (sep ∷ []) ∙ ap (◌∷◌ c) (join-split s sep))
]

pub split-append : (s t : Text) (sep : ℕ) → split (s ++ (sep ∷ t)) sep ≡ split s sep ++ split t sep
split-append [] t sep = rw (==_refl sep) refl
split-append (c ∷ s) t sep = elim (Bool-cases (c == sep)) [
  | inl e ↦ rw e (ap (◌∷◌ []) (split-append s t sep))
  | inr e ↦ let (p, ps, cons) = split-IsCons s sep in rw (e, split-append s t sep, cons) refl
]

-- A text with no separator is one part.
pub split-All : (s : Text) (sep : ℕ) → All (λ c. c ≢ sep) s → split s sep ≡ s ∷ []
split-All [] sep h = refl
split-All (c ∷ s) sep (other, h) =
    let e : (c == sep) ≡ false = ground arith in rw (e, split-All s sep h) refl

module _ (p : ℕ) (ps : Text) where
  no_match : (c : ℕ) (s : Text) → c ≢ p → starts_with (c ∷ s) (p ∷ ps) ≡ false
  no_match c s h = let other : (c == p) ≡ false = ground arith in rw other refl

  leave_out_all : (s : Text) → leave_out (p ∷ ps) (length s) s ≡ []
  leave_out_all [] = refl
  leave_out_all (c ∷ s) = leave_out_all s

  -- The pattern stands behind a text that has no char like its first one.
  pub remove_all-append : (s : Text) → All (λ c. c ≢ p) s → remove_all (s ++ (p ∷ ps)) (p ∷ ps) ≡ s
  remove_all-append [] h =
      let found : strip_prefix ps ps ≡ some [] =
        ap (λ (t : Text). strip_prefix t ps) (sym (append-nil ps)) ∙ strip_prefix-append ps [] in
      let size : suc (length ps) - 1 ≡ length ps = omega arith in
      rw (==_refl p, found, size) (leave_out_all ps)
  remove_all-append (c ∷ s) (other, h) =
      rw (no_match c (s ++ (p ∷ ps)) other) (ap (◌∷◌ c) (remove_all-append s h))

  pub remove_all_same : (s : Text) → All (λ c. c ≢ p) s → remove_all s (p ∷ ps) ≡ s
  remove_all_same [] h = refl
  remove_all_same (c ∷ s) (other, h) = rw (no_match c s other) (ap (◌∷◌ c) (remove_all_same s h))

trim_start-All : (s : Text) → All (λ c. is_whitespace c ≡ false) s → trim_start s ≡ s
trim_start-All [] h = refl
trim_start-All (c ∷ s) (solid, h) = rw solid refl

trim_end-spaces : (s : Text) → All (λ c. is_whitespace c ≡ true) s → trim_end s ≡ []
trim_end-spaces [] h = refl
trim_end-spaces (c ∷ s) (space, h) = rw (trim_end-spaces s h, space) refl

keep-solid : (c : ℕ) (s : Text) → is_whitespace c ≡ false → keep_char c s ≡ c ∷ s
keep-solid c [] solid = rw solid refl
keep-solid c (d ∷ s) solid = refl

trim_end-append :
    (s t : Text)
    → All (λ c. is_whitespace c ≡ false) s
    → All (λ c. is_whitespace c ≡ true) t
    → trim_end (s ++ t) ≡ s
trim_end-append [] t h k = trim_end-spaces t k
trim_end-append (c ∷ s) t (solid, h) k =
    ap (keep_char c) (trim_end-append s t h k) ∙ keep-solid c s solid

-- White space behind chars that are not is trimmed.
pub trim-append :
    (s t : Text)
    → All (λ c. is_whitespace c ≡ false) s
    → All (λ c. is_whitespace c ≡ true) t
    → trim (s ++ t) ≡ s
trim-append s t h k = ap trim_start (trim_end-append s t h k) ∙ trim_start-All s h
