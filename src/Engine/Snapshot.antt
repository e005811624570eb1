-- ===== src/Engine/Snapshot.antt =====
-- crates/engine/src/lib.rs, `BaseSnapshot`: the shared, immutable cache of one block's state.
use forkyard.Base.{ℕ, List, [], ◌∷◌, Bool, true, false, ◌&&◌, Option, length, ℕ_discrete}
use forkyard.Base.Maps
use forkyard.Engine.Types.{AccountInfo, Accounts, Codes, Storage, slot_discrete}

pub record BaseSnapshot (B : Type 0) : Type 0 where
  pub accounts : Accounts B
  pub code : Codes B
  pub storage : Storage
  pub block_hashes : List (ℕ × ℕ)

abbrev pub empty : {B : Type 0} → BaseSnapshot B
empty = record { accounts = []; code = []; storage = []; block_hashes = [] }

-- `is_empty` of one map.
abbrev pub is_nil : {A : Type 0} → List A → Bool
is_nil [] = true
is_nil (x ∷ xs) = false

module _ {B : Type 0} where
  unfoldable pub from_parts : Accounts B → Codes B → Storage → List (ℕ × ℕ) → BaseSnapshot B
  from_parts accounts code storage block_hashes = record {
    accounts = Maps.extend ℕ_discrete [] accounts;
    code = Maps.extend ℕ_discrete [] code;
    storage = Maps.extend slot_discrete [] storage;
    block_hashes = Maps.extend ℕ_discrete [] block_hashes;
  }

  -- `newer.union(older)` keeps the entries of `newer` on a tie.
  unfoldable pub merged_with : BaseSnapshot B → BaseSnapshot B → BaseSnapshot B
  merged_with self newer = record {
    accounts = Maps.extend ℕ_discrete self.accounts newer.accounts;
    code = Maps.extend ℕ_discrete self.code newer.code;
    storage = Maps.extend slot_discrete self.storage newer.storage;
    block_hashes = Maps.extend ℕ_discrete self.block_hashes newer.block_hashes;
  }

  unfoldable pub account : BaseSnapshot B → ℕ → Option (AccountInfo B)
  account self address = Maps.get ℕ_discrete address self.accounts

  unfoldable pub code_by_hash : BaseSnapshot B → ℕ → Option B
  code_by_hash self code_hash = Maps.get ℕ_discrete code_hash self.code

  unfoldable pub storage_slot : BaseSnapshot B → ℕ → ℕ → Option ℕ
  storage_slot self address key = Maps.get slot_discrete (address, key) self.storage

  unfoldable pub block_hash : BaseSnapshot B → ℕ → Option ℕ
  block_hash self number = Maps.get ℕ_discrete number self.block_hashes

  unfoldable pub account_count : BaseSnapshot B → ℕ
  account_count self = length self.accounts

  unfoldable pub code_count : BaseSnapshot B → ℕ
  code_count self = length self.code

  unfoldable pub storage_count : BaseSnapshot B → ℕ
  storage_count self = length self.storage

  unfoldable pub block_hash_count : BaseSnapshot B → ℕ
  block_hash_count self = length self.block_hashes

  unfoldable pub is_empty : BaseSnapshot B → Bool
  is_empty self =
      is_nil self.accounts && is_nil self.code && is_nil self.storage && is_nil self.block_hashes
