-- ===== src/Text/Paths.antt =====
-- Paths: `Path::join` and `Path::file_name` of Rust's standard library, on Unix.
use mobiletunnel.Prelude.{
  ℕ, ◌≡◌, ◌≢◌, ◌∙◌, refl, ap, List, [], ◌∷◌, ◌++◌, append_assoc, Bool, true, false, ◌||◌, Option,
  none, some, ◌==◌, if◌then◌else◌, arith, Bool-cases, inl, inr, All,
}
use mobiletunnel.Text.{Text, codes, equal, split}
use mobiletunnel.Text.Laws.{split-append, split-All}

-- A component that `components` leaves out: between two separators, or one that names the same place.
abbrev pub is_silent : Text → Bool
is_silent part = equal part [] || equal part (codes ".")

abbrev pub named_parts : List Text → List Text
named_parts [] = []
named_parts (p ∷ ps) = let rest = named_parts ps in if is_silent p then rest else p ∷ rest

-- The last component, if it is a name.
abbrev pub last_name : List Text → Option Text
last_name [] = none
last_name (p ∷ []) = if equal p (codes "..") then none else some p
last_name (p ∷ q ∷ ps) = last_name (q ∷ ps)

abbrev pub file_name : Text → Option Text
file_name path = last_name (named_parts (split path b'/'))

abbrev pub ends_with_slash : Text → Bool
ends_with_slash [] = false
ends_with_slash (c ∷ []) = c == b'/'
ends_with_slash (c ∷ d ∷ s) = ends_with_slash (d ∷ s)

-- Whether a separator is put between: not behind an empty path, and not behind one.
abbrev pub push_path : Text → Text → Text
push_path [] name = name
push_path (c ∷ s) name =
    if ends_with_slash (c ∷ s) then (c ∷ s) ++ name else (c ∷ s) ++ (b'/' ∷ name)

abbrev pub is_absolute : Text → Bool
is_absolute [] = false
is_absolute (c ∷ s) = c == b'/'

abbrev pub join_path : Text → Text → Text
join_path base path = if is_absolute path then path else push_path base path

-- A file name of a program: no separator, and not one of the silent or upward components.
pub record IsName (name : Text) : Type 0 where
  pub no_slash : All (λ c. c ≢ b'/') name
  pub speaks : is_silent name ≡ false
  pub not_up : equal name (codes "..") ≡ false

named_parts-append :
    (ps : List Text) (name : Text)
    → is_silent name ≡ false
    → named_parts (ps ++ (name ∷ [])) ≡ named_parts ps ++ (name ∷ [])
named_parts-append [] name h = rw h refl
named_parts-append (p ∷ ps) name h = elim (Bool-cases (is_silent p)) [
  | inl e ↦ rw e (named_parts-append ps name h)
  | inr e ↦ rw e (ap (◌∷◌ p) (named_parts-append ps name h))
]

last_name-append :
    (ps : List Text) (name : Text)
    → equal name (codes "..") ≡ false
    → last_name (ps ++ (name ∷ [])) ≡ some name
last_name-append [] name h = rw h refl
last_name-append (p ∷ []) name h = rw h refl
last_name-append (p ∷ q ∷ ps) name h = last_name-append (q ∷ ps) name h

behind_slash : (s name : Text) → IsName name → file_name (s ++ (b'/' ∷ name)) ≡ some name
behind_slash s name n =
    rw
      (
        split-append s name b'/',
        split-All name b'/' n.no_slash,
        named_parts-append (split s b'/') name n.speaks,
      )
      (last_name-append (named_parts (split s b'/')) name n.not_up)

alone : (name : Text) → IsName name → file_name name ≡ some name
alone name n = rw (split-All name b'/' n.no_slash, n.speaks, n.not_up) refl

-- A path that ends with a separator, at its last char.
slash_last : (s : Text) → ends_with_slash s ≡ true → (front : Text) × (s ≡ front ++ (b'/' ∷ []))
slash_last [] h = absurd cc
slash_last (c ∷ []) h = let same : c ≡ b'/' = ground arith in ([], ap (λ (x : ℕ). x ∷ []) same)
slash_last (c ∷ d ∷ s) h = let (front, e) = slash_last (d ∷ s) h in (c ∷ front, ap (◌∷◌ c) e)

not_absolute : (name : Text) → All (λ c. c ≢ b'/') name → is_absolute name ≡ false
not_absolute [] h = refl
not_absolute (c ∷ s) (other, h) = ground arith

-- The file name of a name that is joined to any path is that name.
pub file_name-join_path :
    (base name : Text) → IsName name → file_name (join_path base name) ≡ some name
file_name-join_path base name n = rw (not_absolute name n.no_slash) (pushed base)
  where
    pushed : (base : Text) → file_name (push_path base name) ≡ some name
    pushed [] = alone name n
    pushed (c ∷ s) = elim (Bool-cases (ends_with_slash (c ∷ s))) [
      | inl e ↦
          let (front, whole) = slash_last (c ∷ s) e in
          rw e (
            ap file_name (ap (◌++ name) whole ∙ append_assoc front (b'/' ∷ []) name)
            ∙ behind_slash front name n)
      | inr e ↦ rw e (behind_slash (c ∷ s) name n)
    ]
