-- ===== src/Fetch/Snapshotting.antt =====
-- crates/fetch/src/lib.rs, `cache_snapshot`: no contract that the backend holds is asked for again.
use mathlib.Core.Path.{subst}
use forkyard.Base.{
  ℕ, [], ◌∷◌, ◌++◌, false, Option, none, some, ◌≡◌, refl, sym, ap, ◌∙◌, All, In, All-append, inl,
  inr, ℕ_discrete, arith,
}
use forkyard.Base.Maps.{get, insert, extend, get-insert}
use forkyard.Engine.Snapshot.{from_parts, code_by_hash}
use forkyard.Engine.Types.{AccountInfo, Accounts, Codes}
use forkyard.Fetch.CacheSnapshot.{Backend, Hashing, code_entry, held_code, cache_snapshot}

module _ {B : Type 0} (hashing : Hashing B) where
  -- Each code of a map stands under its hash.
  abbrev Hashed : Codes B → Type 0
  Hashed m = (k : ℕ) (c : B) → get ℕ_discrete k m ≡ some c → hashing.hash_slow c ≡ k

  abbrev Own : ℕ × B → Type 0
  Own entry = hashing.hash_slow entry.1 ≡ entry.0

  insert-Hashed :
      (j : ℕ) (d : B) (m : Codes B)
      → hashing.hash_slow d ≡ j
      → Hashed m
      → Hashed (insert ℕ_discrete j d m)
  insert-Hashed j d m e h k c found = ground (arith, get-insert ℕ_discrete j k d m, h k c)

  extend-Hashed : (m n : Codes B) → Hashed m → All Own n → Hashed (extend ℕ_discrete m n)
  unfolding extend
  extend-Hashed m [] h own = h
  extend-Hashed m ((j, d) ∷ n) h own =
      extend-Hashed (insert ℕ_discrete j d m) n (insert-Hashed j d m own.0 h) own.1

  nil-Hashed : Hashed []
  unfolding get
  nil-Hashed k c h = absurd (cc)

  code_entry-Own : (code : Option B) → All Own (code_entry hashing code)
  unfolding code_entry
  code_entry-Own none = tt
  code_entry-Own (some code) = ground arith

  held_code-Own : (accounts : Accounts B) → All Own (held_code hashing accounts)
  unfolding held_code
  held_code-Own [] = tt
  held_code-Own ((address, info) ∷ accounts) =
      All-append Own (code_entry hashing info.code) (held_code hashing accounts)
        (code_entry-Own info.code) (held_code-Own accounts)

module _ {B : Type 0} where
  abbrev Has : ℕ → Codes B → Type 0
  Has k m = (c : B) × (get ℕ_discrete k m ≡ some c)

  insert-Has : (k j : ℕ) (d : B) (m : Codes B) → Has k m → Has k (insert ℕ_discrete j d m)
  insert-Has k j d m (c, found) = elim (ℕ_discrete j k) [
    | yes same ↦ (d, ground (arith, get-insert ℕ_discrete j k d m))
    | no other ↦ (c, ground (arith, get-insert ℕ_discrete j k d m))
  ]

  extend-Has : (k : ℕ) (m n : Codes B) → Has k m → Has k (extend ℕ_discrete m n)
  unfolding extend
  extend-Has k m [] h = h
  extend-Has k m ((j, d) ∷ n) h = extend-Has k (insert ℕ_discrete j d m) n (insert-Has k j d m h)

  -- An entry of the later list is found.
  extend-In : (k : ℕ) (c : B) (m n : Codes B) → In (k, c) n → Has k (extend ℕ_discrete m n)
  unfolding extend
  extend-In k c m [] i = absurd i
  extend-In k c m ((j, d) ∷ n) (inl e) =
      extend-Has k (insert ℕ_discrete j d m) n
        (d, ground (arith, get-insert ℕ_discrete j k d m, ap (λ p. p.0) e))
  extend-In k c m ((j, d) ∷ n) (inr i) = extend-In k c (insert ℕ_discrete j d m) n i

  In-append_right : (x : ℕ × B) (xs ys : Codes B) → In x ys → In x (xs ++ ys)
  In-append_right x [] ys i = i
  In-append_right x (y ∷ xs) ys i = inr (In-append_right x xs ys i)

  In-append_left : (x : ℕ × B) (xs ys : Codes B) → In x xs → In x (xs ++ ys)
  In-append_left x [] ys i = absurd i
  In-append_left x (y ∷ xs) ys (inl e) = inl e
  In-append_left x (y ∷ xs) ys (inr i) = inr (In-append_left x xs ys i)

module _ {B : Type 0} (hashing : Hashing B) (code : B) (whole : hashing.is_empty code ≡ false) where
  code_entry-In :
      (found : Option B)
      → found ≡ some code
      → In (hashing.hash_slow code, code) (code_entry hashing found)
  unfolding code_entry
  code_entry-In found e =
      subst (λ (x : Option B). In (hashing.hash_slow code, code) (code_entry hashing x)) (sym e)
        (rw whole (inl refl))

  held_code-In :
      (accounts : Accounts B) (address : ℕ) (info : AccountInfo B)
      → In (address, info) accounts
      → info.code ≡ some code
      → In (hashing.hash_slow code, code) (held_code hashing accounts)
  unfolding held_code
  held_code-In [] address info i e = absurd i
  held_code-In ((a, held) ∷ accounts) address info (inl same) e =
      In-append_left _ (code_entry hashing held.code) (held_code hashing accounts)
        (code_entry-In held.code (ap (λ p. p.1.code) same ∙ e))
  held_code-In ((a, held) ∷ accounts) address info (inr i) e =
      In-append_right _ (code_entry hashing held.code) (held_code hashing accounts)
        (held_code-In accounts address info i e)

  -- The code of an account that the backend holds, if it is not empty, is not asked for again: the
  -- snapshot has a code under its hash, and one of that hash.
  pub held_found :
      (backend : Backend B) (address : ℕ) (info : AccountInfo B)
      → In (address, info) backend.accounts
      → info.code ≡ some code
      → (c : B) × (code_by_hash (cache_snapshot hashing backend) (hashing.hash_slow code) ≡ some c)
        × (hashing.hash_slow c ≡ hashing.hash_slow code)
  unfolding cache_snapshot from_parts code_by_hash
  held_found backend address info i e =
      let (c, found) =
        extend-In (hashing.hash_slow code) code [] (held_code hashing backend.accounts)
          (held_code-In backend.accounts address info i e) in
      (
        c,
        found,
        extend-Hashed hashing [] (held_code hashing backend.accounts) (nil-Hashed hashing)
            (held_code-Own hashing backend.accounts) (hashing.hash_slow code) c found,
      )
