-- ===== src/Prelude/Fronts.antt =====
-- Fronts of lists.
use Prim.Native.Nat.{ℕ, zero, suc}
use mathlib.Core.Path.{subst, ◌≡◌, refl, sym, ap, ◌∙◌}
use mathlib.Core.List.{List, [], ◌∷◌, ◌++◌, map, append-nil, append_assoc, map-append}
use mobiletunnel.Prelude.Lists.{flatten, take, drop, length, take-append-drop, drop-append_eq, All}

-- The one list is a front of the other.
abbrev pub IsFront {ℓ} : {A : Type ℓ} → List A → List A → Type ℓ
IsFront {A} got all = (back : List A) × (all ≡ got ++ back)

module _ {ℓ} {A : Type ℓ} where
  pub IsFront-refl : (xs : List A) → IsFront xs xs
  IsFront-refl xs = ([], sym (append-nil xs))

  pub IsFront-trans : (xs ys zs : List A) → IsFront xs ys → IsFront ys zs → IsFront xs zs
  IsFront-trans xs ys zs (a, p) (b, q) = (a ++ b, q ∙ ap (λ l. l ++ b) p ∙ append_assoc xs a b)

  pub IsFront-prepend : (ws xs ys : List A) → IsFront xs ys → IsFront (ws ++ xs) (ws ++ ys)
  IsFront-prepend ws xs ys (a, p) = (a, ap (◌++◌ ws) p ∙ sym (append_assoc ws xs a))

  pub take-IsFront : (n : ℕ) (xs : List A) → IsFront (take n xs) xs
  take-IsFront n xs = (drop n xs, sym (take-append-drop n xs))

  -- A front and what is behind it, by its length.
  pub IsFront-drop : (xs ys : List A) → IsFront xs ys → ys ≡ xs ++ drop (length xs) ys
  IsFront-drop xs ys (a, p) =
      p ∙ ap (◌++◌ xs) (sym (ap (drop (length xs)) p ∙ drop-append_eq (length xs) xs a refl))

  pub append_cancel : (xs ys zs : List A) → xs ++ ys ≡ xs ++ zs → ys ≡ zs
  append_cancel [] ys zs e = e
  append_cancel (x ∷ xs) ys zs e = append_cancel xs ys zs cc

  pub flatten-append : (xss yss : List (List A)) → flatten (xss ++ yss) ≡ flatten xss ++ flatten yss
  flatten-append [] yss = refl
  flatten-append (xs ∷ xss) yss =
      ap (◌++◌ xs) (flatten-append xss yss) ∙ sym (append_assoc xs (flatten xss) (flatten yss))

  pub flatten-IsFront :
      (xss yss : List (List A)) → IsFront xss yss → IsFront (flatten xss) (flatten yss)
  flatten-IsFront xss yss (a, p) = (flatten a, ap flatten p ∙ flatten-append xss a)

module _ {ℓ κ} {A : Type ℓ} {B : Type κ} where
  pub map-IsFront : (f : A → B) (xs ys : List A) → IsFront xs ys → IsFront (map f xs) (map f ys)
  map-IsFront f xs ys (a, p) = (map f a, ap (map f) p ∙ map-append f xs a)

module _ {ℓ κ} {A : Type ℓ} (P : A → Type κ) where
  pub All-append : (xs ys : List A) → All P xs → All P ys → All P (xs ++ ys)
  All-append [] ys p q = q
  All-append (x ∷ xs) ys (p, ps) q = (p, All-append xs ys ps q)

  pub All-IsFront : (xs ys : List A) → IsFront xs ys → All P ys → All P xs
  All-IsFront [] ys f q = tt
  All-IsFront (x ∷ xs) [] (a, e) q = cc
  All-IsFront (x ∷ xs) (y ∷ ys) (a, e) (q, qs) =
      let heads : y ≡ x = cc in
      let tails : ys ≡ xs ++ a = cc in (subst P heads q, All-IsFront xs ys (a, tails) qs)

  pub All-drop : (n : ℕ) (xs : List A) → All P xs → All P (drop n xs)
  All-drop zero xs f = f
  All-drop (suc n) [] f = f
  All-drop (suc n) (x ∷ xs) (p, f) = All-drop n xs f

pub All-map {ℓ κ} :
    {A : Type ℓ} (P Q : A → Type κ) (xs : List A) → ((x : A) → P x → Q x) → All P xs → All Q xs
All-map P Q [] f h = tt
All-map P Q (x ∷ xs) f (p, h) = (f x p, All-map P Q xs f h)
