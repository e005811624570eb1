-- ===== src/Engine/Gathering.antt =====
-- crates/engine/src/lib.rs, `Session::state`: the loop that gathers code.
use forkyard.Base.{
  ℕ, [], ◌∷◌, ◌≡◌, refl, sym, ap, ◌∙◌, none, some, Option-cases, ◌⊎◌, inl, inr, ◌==◌, Bool-cases,
  ℕ_discrete, arith,
}
use mathlib.Core.Path.{subst}
use forkyard.Base.Maps.{get, insert, get-insert}
use forkyard.Base.Sorts.{IsDistinct, insert-IsDistinct, or_else}
use forkyard.Engine.Types.{AccountInfo, Accounts, Codes, keccak_empty}
use forkyard.Engine.State.{gather_one, gather_code}

module _ {B : Type 0} where
  -- A round leaves the codes alone, or adds one under a hash that has none.
  abbrev Gathered : ℕ → Codes B → Codes B → Type 0
  Gathered hash codes codes' =
      (codes' ≡ codes)
      ⊎ ((c : B) × (get ℕ_discrete hash codes ≡ none) × (codes' ≡ insert ℕ_discrete hash c codes))

  gather_one-Gathered :
      (base_code : Codes B) (info : AccountInfo B) (codes : Codes B)
      → Gathered info.code_hash codes (gather_one base_code info codes)
  unfolding gather_one
  gather_one-Gathered base_code info codes = elim (Bool-cases (info.code_hash == keccak_empty)) [
    | inl empty ↦ inl (rw empty refl)
    | inr whole ↦ elim (Option-cases (get ℕ_discrete info.code_hash codes)) [
      | inr (held, e) ↦ inl (rw (whole, e, gather_one) refl)
      | inl e ↦ elim (Option-cases (or_else info.code (get ℕ_discrete info.code_hash base_code))) [
        | inl f ↦ inl (rw (whole, e, f, gather_one) refl)
        | inr (c, f) ↦ inr (c, e, rw (whole, e, f, gather_one) refl)
      ]
    ]
  ]

  get-Gathered :
      (hash : ℕ) (codes codes' : Codes B) (h : ℕ) (c : B)
      → Gathered hash codes codes'
      → get ℕ_discrete h codes ≡ some c
      → get ℕ_discrete h codes' ≡ some c
  get-Gathered hash codes codes' h c (inl e) there = ap (get ℕ_discrete h) e ∙ there
  get-Gathered hash codes codes' h c (inr (d, fresh, e)) there =
      ap (get ℕ_discrete h) e ∙ ground (arith, get-insert ℕ_discrete hash h d codes)

  Gathered-IsDistinct :
      (hash : ℕ) (codes codes' : Codes B)
      → Gathered hash codes codes'
      → IsDistinct ℕ_discrete codes
      → IsDistinct ℕ_discrete codes'
  Gathered-IsDistinct hash codes codes' (inl e) d = subst (IsDistinct ℕ_discrete) (sym e) d
  Gathered-IsDistinct hash codes codes' (inr (c, fresh, e)) d =
      subst (IsDistinct ℕ_discrete) (sym e) (insert-IsDistinct ℕ_discrete hash c codes d)

  -- The codes that are there stay as they are.
  pub gather_code-get :
      (base_code : Codes B) (accounts : Accounts B) (codes : Codes B) (h : ℕ) (c : B)
      → get ℕ_discrete h codes ≡ some c
      → get ℕ_discrete h (gather_code base_code accounts codes) ≡ some c
  unfolding gather_code
  gather_code-get base_code [] codes h c e = e
  gather_code-get base_code ((a, info) ∷ accounts) codes h c e =
      gather_code-get base_code accounts (gather_one base_code info codes) h c (
        get-Gathered info.code_hash codes (gather_one base_code info codes) h c
          (gather_one-Gathered base_code info codes) e)

  pub gather_code-IsDistinct :
      (base_code : Codes B) (accounts : Accounts B) (codes : Codes B)
      → IsDistinct ℕ_discrete codes
      → IsDistinct ℕ_discrete (gather_code base_code accounts codes)
  unfolding gather_code
  gather_code-IsDistinct base_code [] codes d = d
  gather_code-IsDistinct base_code ((a, info) ∷ accounts) codes d =
      gather_code-IsDistinct base_code accounts (gather_one base_code info codes) (
        Gathered-IsDistinct info.code_hash codes (gather_one base_code info codes)
          (gather_one-Gathered base_code info codes) d)
