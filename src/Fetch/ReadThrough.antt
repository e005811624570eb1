-- ===== src/Fetch/ReadThrough.antt =====
-- crates/fetch/src/lib.rs, `ReadThrough`: a read cache in front of an inner database, whose misses
-- are recorded in place of fetched while the thread speculates.
use forkyard.Base.{ℕ, List, [], Bool, true, false, Option, none, some, Result, ok, err, ℕ_discrete}
use forkyard.Base.Maps
use forkyard.Engine.Types.{AccountInfo, DatabaseRef, Storage, slot_discrete}
use forkyard.Fetch.Keys.{StateKey}
use forkyard.Fetch.Speculation.{Thread, record_miss}

-- The maps of `ReadCache`; its flights are in Fetch/Flights.
pub record ReadCache (B : Type 0) : Type 0 where
  pub accounts : List (ℕ × Option (AccountInfo B))
  pub storage : Storage
  pub block_hashes : List (ℕ × ℕ)

abbrev pub default_cache : {B : Type 0} → ReadCache B
default_cache = record { accounts = []; storage = []; block_hashes = [] }

-- What the clones of one `ReadThrough` share: the cache, and the state of the inner database.
pub record Shared (B W : Type 0) : Type 0 where
  pub cache : ReadCache B
  pub inner : W

module _ {B W : Type 0} where
  unfoldable pub cache_account :
      ℕ → Option (AccountInfo B) → Thread (Shared B W) → Thread (Shared B W)
  cache_account address info t = record t {
    shared = record t.shared {
      cache = record t.shared.cache {
        accounts = Maps.insert ℕ_discrete address info t.shared.cache.accounts;
      };
    };
  }

  unfoldable pub cache_slot : ℕ → ℕ → ℕ → Thread (Shared B W) → Thread (Shared B W)
  cache_slot address index value t = record t {
    shared = record t.shared {
      cache = record t.shared.cache {
        storage = Maps.insert slot_discrete (address, index) value t.shared.cache.storage;
      };
    };
  }

  unfoldable pub cache_hash : ℕ → ℕ → Thread (Shared B W) → Thread (Shared B W)
  cache_hash number hash t = record t {
    shared = record t.shared {
      cache = record t.shared.cache {
        block_hashes = Maps.insert ℕ_discrete number hash t.shared.cache.block_hashes;
      };
    };
  }

module _ {A B W : Type 0} where
  -- A call of the inner database, which sees its own state alone.
  unfoldable pub through : (W → A × W) → Thread (Shared B W) → A × Thread (Shared B W)
  through call t =
      let (reply, inner') = call t.shared.inner in
      (reply, record t { shared = record t.shared { inner = inner' } })

module _ {B E W : Type 0} where
  -- What the inner database answered: errors are never cached.
  unfoldable pub fetched_account :
      ℕ
      → Result E (Option (AccountInfo B)) × Thread (Shared B W)
      → Result E (Option (AccountInfo B)) × Thread (Shared B W)
  unfolding cache_account
  fetched_account address (ok info, t) = (ok info, cache_account address info t)
  fetched_account address (err e, t) = (err e, t)

  unfoldable pub fetched_slot :
      ℕ → ℕ → Result E ℕ × Thread (Shared B W) → Result E ℕ × Thread (Shared B W)
  unfolding cache_slot
  fetched_slot address index (ok value, t) = (ok value, cache_slot address index value t)
  fetched_slot address index (err e, t) = (err e, t)

  unfoldable pub fetched_hash :
      ℕ → Result E ℕ × Thread (Shared B W) → Result E ℕ × Thread (Shared B W)
  unfolding cache_hash
  fetched_hash number (ok hash, t) = (ok hash, cache_hash number hash t)
  fetched_hash number (err e, t) = (err e, t)

  module _ (inner : DatabaseRef B E W) where
    -- After `record_miss`: a default where the miss was recorded, and else the inner read.
    unfoldable pub read_account :
        ℕ → Bool × Thread (Shared B W) → Result E (Option (AccountInfo B)) × Thread (Shared B W)
    unfolding through fetched_account
    read_account address (true, t) = (ok none, t)
    read_account address (false, t) = fetched_account address (through (inner.basic_ref address) t)

    unfoldable pub read_slot : ℕ → ℕ → Bool × Thread (Shared B W) → Result E ℕ × Thread (Shared B W)
    unfolding through fetched_slot
    read_slot address index (true, t) = (ok 0, t)
    read_slot address index (false, t) =
        fetched_slot address index (through (inner.storage_ref address index) t)

    unfoldable pub read_hash : ℕ → Bool × Thread (Shared B W) → Result E ℕ × Thread (Shared B W)
    unfolding through fetched_hash
    read_hash number (true, t) = (ok 0, t)
    read_hash number (false, t) = fetched_hash number (through (inner.block_hash_ref number) t)

    unfoldable pub basic_ref :
        ℕ → Thread (Shared B W) → Result E (Option (AccountInfo B)) × Thread (Shared B W)
    unfolding record_miss read_account
    basic_ref address t = elim (Maps.get ℕ_discrete address t.shared.cache.accounts) [
      | some hit ↦ (ok hit, t)
      | none ↦ read_account address (record_miss (StateKey.account address) t)
    ]

    unfoldable pub code_by_hash_ref : ℕ → Thread (Shared B W) → Result E B × Thread (Shared B W)
    unfolding through
    code_by_hash_ref code_hash t = through (inner.code_by_hash_ref code_hash) t

    unfoldable pub storage_ref : ℕ → ℕ → Thread (Shared B W) → Result E ℕ × Thread (Shared B W)
    unfolding record_miss read_slot
    storage_ref address index t =
        elim (Maps.get slot_discrete (address, index) t.shared.cache.storage) [
          | some hit ↦ (ok hit, t)
          | none ↦ read_slot address index (record_miss (StateKey.storage address index) t)
        ]

    unfoldable pub block_hash_ref : ℕ → Thread (Shared B W) → Result E ℕ × Thread (Shared B W)
    unfolding record_miss read_hash
    block_hash_ref number t = elim (Maps.get ℕ_discrete number t.shared.cache.block_hashes) [
      | some hit ↦ (ok hit, t)
      | none ↦ read_hash number (record_miss (StateKey.block_hash number) t)
    ]

    -- `impl DatabaseRef for ReadThrough`.
    unfoldable pub read_through : DatabaseRef B E (Thread (Shared B W))
    unfolding basic_ref code_by_hash_ref storage_ref block_hash_ref
    read_through = record {
      basic_ref = basic_ref;
      code_by_hash_ref = code_by_hash_ref;
      storage_ref = storage_ref;
      block_hash_ref = block_hash_ref;
    }
