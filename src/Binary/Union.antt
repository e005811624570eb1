-- ===== src/Binary/Union.antt =====
-- crates/bin/src/main.rs, `persist_cache`: what a merged base snapshot answers.
use mathlib.Core.Logic.{ite}
use forkyard.Base.{
  ℕ, List, [], ◌∷◌, Option, none, some, if◌then◌else◌, ◌≡◌, refl, sym, ap, ◌∙◌, ℕ_discrete,
  Bool-cases, inl, inr,
}
use forkyard.Base.Maps.{get}
use forkyard.Base.Sorts.{extend-IsDistinct, get-extend, or_else, or_else-none}
use forkyard.Engine.Types.{AccountInfo, Accounts, Codes, slot_discrete}
use forkyard.Engine.Snapshot.{
  BaseSnapshot, empty, from_parts, merged_with, account, code_by_hash, storage_slot, block_hash,
}
use forkyard.Engine.Files.{CacheKey}
use forkyard.Engine.RoundTrip.{recoded, IsMapped}
use forkyard.Binary.Cache.{Seeded, same_key, merged}
use forkyard.Fetch.CacheSnapshot.{Backend, Hashing, cache_snapshot}

module _ {B : Type 0} where
  from_parts-IsMapped :
      (accounts : Accounts B) (code : Codes B) (storage : List ((ℕ × ℕ) × ℕ))
      (block_hashes : List (ℕ × ℕ))
      → IsMapped (from_parts accounts code storage block_hashes)
  unfolding from_parts
  from_parts-IsMapped accounts code storage block_hashes = record {
    accounts = extend-IsDistinct ℕ_discrete [] accounts tt;
    code = extend-IsDistinct ℕ_discrete [] code tt;
    storage = extend-IsDistinct slot_discrete [] storage tt;
    block_hashes = extend-IsDistinct ℕ_discrete [] block_hashes tt;
  }

  merged_with-IsMapped :
      (base newer : BaseSnapshot B) → IsMapped base → IsMapped (merged_with base newer)
  unfolding merged_with
  merged_with-IsMapped base newer h = record {
    accounts = extend-IsDistinct ℕ_discrete base.accounts newer.accounts h.accounts;
    code = extend-IsDistinct ℕ_discrete base.code newer.code h.code;
    storage = extend-IsDistinct slot_discrete base.storage newer.storage h.storage;
    block_hashes = extend-IsDistinct ℕ_discrete base.block_hashes newer.block_hashes h.block_hashes;
  }

  -- Every read finds the newer snapshot's entry, or else the older one's.
  pub record Unites (base newer result : BaseSnapshot B) : Type 0 where
    pub accounts : (a : ℕ) → account result a ≡ or_else (account newer a) (account base a)
    pub code :
        (h : ℕ) → code_by_hash result h ≡ or_else (code_by_hash newer h) (code_by_hash base h)
    pub storage :
        (a k : ℕ)
        → storage_slot result a k ≡ or_else (storage_slot newer a k) (storage_slot base a k)
    pub block_hashes :
        (n : ℕ) → block_hash result n ≡ or_else (block_hash newer n) (block_hash base n)

  -- The base of a seed for the same key; a seed for another key counts for nothing.
  abbrev pub seed_of : Seeded B → CacheKey → BaseSnapshot B
  seed_of none key = empty
  seed_of (some (seeded_key, base)) key = if same_key seeded_key key then base else empty

  abbrev pub IsSeed : Seeded B → Type 0
  IsSeed none = Unit
  IsSeed (some (key, base)) = IsMapped base

  merged_with-Unites :
      (base newer : BaseSnapshot B) → IsMapped newer → Unites base newer (merged_with base newer)
  unfolding merged_with account code_by_hash storage_slot block_hash
  merged_with-Unites base newer m = record {
    accounts = λ a. get-extend ℕ_discrete a base.accounts newer.accounts m.accounts;
    code = λ h. get-extend ℕ_discrete h base.code newer.code m.code;
    storage = λ a k. get-extend slot_discrete (a, k) base.storage newer.storage m.storage;
    block_hashes = λ n. get-extend ℕ_discrete n base.block_hashes newer.block_hashes m.block_hashes;
  }

  empty-Unites : (newer : BaseSnapshot B) → Unites empty newer newer
  unfolding account code_by_hash storage_slot block_hash get
  empty-Unites newer = record {
    accounts = λ a. sym (or_else-none (account newer a));
    code = λ h. sym (or_else-none (code_by_hash newer h));
    storage = λ a k. sym (or_else-none (storage_slot newer a k));
    block_hashes = λ n. sym (or_else-none (block_hash newer n));
  }

  -- An account with its inline code taken from the codes, by its hash.
  abbrev pub inlined : Codes B → Option (AccountInfo B) → Option (AccountInfo B)
  inlined codes none = none
  inlined codes (some info) = some (record info { code = get ℕ_discrete info.code_hash codes })

  -- Every read finds the newer snapshot's entry, or else the older one's; the inline code of an account
  -- is the code that is found under its hash, or none.
  pub record Reloads (base newer result : BaseSnapshot B) : Type 0 where
    pub accounts :
        (a : ℕ)
        → account result a ≡ inlined result.code (or_else (account newer a) (account base a))
    pub code :
        (h : ℕ) → code_by_hash result h ≡ or_else (code_by_hash newer h) (code_by_hash base h)
    pub storage :
        (a k : ℕ)
        → storage_slot result a k ≡ or_else (storage_slot newer a k) (storage_slot base a k)
    pub block_hashes :
        (n : ℕ) → block_hash result n ≡ or_else (block_hash newer n) (block_hash base n)

  get-recoded :
      (a : ℕ) (codes : Codes B) (accounts : Accounts B)
      → get ℕ_discrete a (recoded codes accounts) ≡ inlined codes (get ℕ_discrete a accounts)
  unfolding get
  get-recoded a codes [] = refl
  get-recoded a codes ((address, info) ∷ accounts) =
      found (ℕ_discrete address a) (get-recoded a codes accounts)
    where
      found :
          (d : Dec (address ≡ a))
          → get ℕ_discrete a (recoded codes accounts) ≡ inlined codes (get ℕ_discrete a accounts)
          → ite d
              (some (record info { code = get ℕ_discrete info.code_hash codes }))
              (get ℕ_discrete a (recoded codes accounts))
            ≡ inlined codes (ite d (some info) (get ℕ_discrete a accounts))
      found (yes e) rest = refl
      found (no n) rest = rest

  pub recoded-Reloads :
      (base newer result : BaseSnapshot B)
      → Unites base newer result
      → Reloads base newer (record result { accounts = recoded result.code result.accounts })
  unfolding account code_by_hash storage_slot block_hash
  recoded-Reloads base newer result u = record {
    accounts =
        λ a. get-recoded a result.code result.accounts ∙ ap (inlined result.code) (u.accounts a);
    code = u.code;
    storage = u.storage;
    block_hashes = u.block_hashes;
  }

module _ {B : Type 0} (hashing : Hashing B) (key : CacheKey) (fork : Backend B) where
  snapshot-IsMapped : IsMapped (cache_snapshot hashing fork)
  unfolding cache_snapshot
  snapshot-IsMapped = from_parts-IsMapped _ _ _ _

  pub merged-IsMapped :
      (seeded : Seeded B) → IsSeed seeded → IsMapped (merged hashing seeded key fork)
  unfolding merged
  merged-IsMapped none h = snapshot-IsMapped
  merged-IsMapped (some (seeded_key, base)) h = elim (Bool-cases (same_key seeded_key key)) [
    | inl same ↦ rw same (merged_with-IsMapped base (cache_snapshot hashing fork) h)
    | inr other ↦ rw other snapshot-IsMapped
  ]

  pub merged-Unites :
      (seeded : Seeded B)
      → Unites (seed_of seeded key) (cache_snapshot hashing fork) (merged hashing seeded key fork)
  unfolding merged
  merged-Unites none = empty-Unites (cache_snapshot hashing fork)
  merged-Unites (some (seeded_key, base)) = elim (Bool-cases (same_key seeded_key key)) [
    | inl same ↦ rw same (merged_with-Unites base (cache_snapshot hashing fork) snapshot-IsMapped)
    | inr other ↦ rw other (empty-Unites (cache_snapshot hashing fork))
  ]
