-- ===== src/Binary/Cache.antt =====
-- crates/bin/src/main.rs: `persist_cache` and `load_cache`.
use forkyard.Base.{
  ℕ, Bool, Option, none, some, Result, ok, err, ◌^◌, ◌&&◌, ◌==◌, ltb, if◌then◌else◌,
}
use forkyard.Engine.Types.{BlockEnv}
use forkyard.Engine.Snapshot.{BaseSnapshot, merged_with}
use forkyard.Engine.Files.{PathBuf, CacheKey, CacheError, Bytecode, FileSystem}
use forkyard.Engine.Persist.{CacheFile, Format, store_with_block_env, load_with_block_env}
use forkyard.Fetch.CacheSnapshot.{Backend, Hashing, cache_snapshot}

abbrev pub same_key : CacheKey → CacheKey → Bool
same_key a b = a.chain_id == b.chain_id && a.block_number == b.block_number

abbrev pub key_of : ℕ → ℕ → CacheKey
key_of chain_id block_number = record { chain_id = chain_id; block_number = block_number }

abbrev pub Seeded : Type 0 → Type 0
Seeded B = Option (CacheKey × BaseSnapshot B)

-- What `persist_cache` reads from the manager, one read after the other: its block, its fork and
-- its block again.
pub record Observed (B : Type 0) : Type 0 where
  pub block_env : BlockEnv
  pub fork : Backend B
  pub stored_env : BlockEnv

module _ {B : Type 0} (hashing : Hashing B) where
  unfoldable pub merged : Seeded B → CacheKey → Backend B → BaseSnapshot B
  unfolding merged_with cache_snapshot
  merged none key fork = cache_snapshot hashing fork
  merged (some (seeded_key, seeded_base)) key fork =
      if same_key seeded_key key
      then merged_with seeded_base (cache_snapshot hashing fork)
      else cache_snapshot hashing fork

module _ {B W : Type 0} (bytecode : Bytecode B) (hashing : Hashing B) (fs : FileSystem W)
    (json : Format CacheFile) (dir : PathBuf) (chain_id : ℕ) where
  -- What is stored once the block number fits, with the result that is logged.
  unfoldable pub persisted : Seeded B → Observed B → W → Result CacheError (Unit {0}) × W
  unfolding merged store_with_block_env
  persisted seeded seen w =
      store_with_block_env bytecode fs json dir (key_of chain_id seen.block_env.number)
        (merged hashing seeded (key_of chain_id seen.block_env.number) seen.fork) seen.stored_env w

  unfoldable pub persist_cache : Seeded B → Observed B → W → W
  unfolding persisted
  persist_cache seeded seen w =
      if ltb seen.block_env.number (2 ^ 64) then (persisted seeded seen w).1 else w

unfoldable pub usable :
    {B : Type 0}
    → Result CacheError (BaseSnapshot B × Option BlockEnv)
    → Option (BaseSnapshot B × Option BlockEnv)
usable (ok found) = some found
usable (err e) = none

module _ {B W : Type 0} (bytecode : Bytecode B) (fs : FileSystem W) (json : Format CacheFile)
    (dir : PathBuf) where
  unfoldable pub load_cache : CacheKey → W → Option (BaseSnapshot B × Option BlockEnv)
  unfolding usable load_with_block_env
  load_cache key w = usable (load_with_block_env bytecode fs json dir key w)
