-- ===== src/Fetch/CacheSnapshot.antt =====
-- crates/fetch/src/lib.rs, `cache_snapshot`: what a fork has fetched so far, as a base snapshot.
use forkyard.Base.{ℕ, ◌^◌, List, [], ◌∷◌, ◌++◌, Bool, Option, none, some, ltb, if◌then◌else◌}
use forkyard.Engine.Snapshot.{BaseSnapshot, from_parts}
use forkyard.Engine.Types.{Accounts, Codes, Storage}

-- The maps that the backend of foundry-fork-db gives copies of.
pub record Backend (B : Type 0) : Type 0 where
  pub accounts : Accounts B
  pub storage : List (ℕ × List (ℕ × ℕ))
  pub block_hashes : List (ℕ × ℕ)

-- What is asked of revm's `Bytecode`.
pub record Hashing (B : Type 0) : Type 0 where
  pub hash_slow : B → ℕ
  pub is_empty : B → Bool

module _ {B : Type 0} (hashing : Hashing B) where
  unfoldable pub code_entry : Option B → Codes B
  code_entry none = []
  code_entry (some code) = if hashing.is_empty code then [] else (hashing.hash_slow code, code) ∷ []

  unfoldable pub held_code : Accounts B → Codes B
  unfolding code_entry
  held_code [] = []
  held_code ((address, info) ∷ accounts) = code_entry info.code ++ held_code accounts

unfoldable pub slots_of : ℕ → List (ℕ × ℕ) → Storage
slots_of address [] = []
slots_of address ((key, value) ∷ slots) = ((address, key), value) ∷ slots_of address slots

unfoldable pub all_slots : List (ℕ × List (ℕ × ℕ)) → Storage
unfolding slots_of
all_slots [] = []
all_slots ((address, slots) ∷ storage) = slots_of address slots ++ all_slots storage

-- A number that does not fit a u64 is dropped.
unfoldable pub fitting : List (ℕ × ℕ) → List (ℕ × ℕ)
fitting [] = []
fitting ((number, hash) ∷ hashes) =
    if ltb number (2 ^ 64) then (number, hash) ∷ fitting hashes else fitting hashes

module _ {B : Type 0} (hashing : Hashing B) where
  unfoldable pub cache_snapshot : Backend B → BaseSnapshot B
  unfolding held_code all_slots fitting
  cache_snapshot backend =
      from_parts backend.accounts (held_code hashing backend.accounts) (all_slots backend.storage)
        (fitting backend.block_hashes)
