-- ===== src/Base/Lists.antt =====
-- Lists measured by native numbers, and predicates over their entries.
use Prim.Native.Nat.{ℕ, suc, ◌+◌}
use mathlib.Core.Path.{◌≡◌, subst}
use mathlib.Core.Logic.{◌⊎◌, inl, inr}
use mathlib.Core.List.{List, [], ◌∷◌, ◌++◌}
use native.Mathlib.Omega.{arith}

module _ {ℓ} {A : Type ℓ} where
  abbrev pub length : List A → ℕ
  length [] = 0
  length (x ∷ xs) = suc (length xs)

  pub length-append : (xs ys : List A) → length (xs ++ ys) ≡ length xs + length ys
  length-append [] ys = omega arith
  length-append (x ∷ xs) ys = omega (arith, length-append xs ys)

  abbrev pub All {κ} : (A → Type κ) → List A → Type κ
  All P [] = Unit
  All P (x ∷ xs) = P x × All P xs

  pub All-append {κ} : (P : A → Type κ) (xs ys : List A) → All P xs → All P ys → All P (xs ++ ys)
  All-append P [] ys hx hy = hy
  All-append P (x ∷ xs) ys hx hy = (hx.0, All-append P xs ys hx.1 hy)

module _ {A : Type 0} where
  abbrev pub In : A → List A → Type 0
  In a [] = ⊥
  In a (x ∷ xs) = (x ≡ a) ⊎ In a xs

  pub All-In : (P : A → Type 0) {a : A} (xs : List A) → All P xs → In a xs → P a
  All-In P [] h m = absurd m
  All-In P (x ∷ xs) h (inl e) = subst P e h.0
  All-In P (x ∷ xs) h (inr m) = All-In P xs h.1 m
