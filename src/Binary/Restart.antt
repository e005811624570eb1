-- ===== src/Binary/Restart.antt =====
-- crates/bin/src/main.rs: what a restart at the same block finds of what an earlier run fetched.
use forkyard.Base.{
  ℕ, [], ◌∷◌, true, Option, some, Result, ok, ◌>>=◌, ◌^◌, ◌<◌, ltb, ◌≡◌, ap, ◌∙◌, arith, lt→ltb,
}
use forkyard.Engine.Types.{BlockEnv, Codes}
use forkyard.Engine.Snapshot.{BaseSnapshot}
use forkyard.Engine.Files.{PathBuf, CacheError, from_env, to_env, Bytecode, FileSystem}
use forkyard.Engine.Disk.{IsFileSystem, IsFormat}
use forkyard.Engine.Persist.{CacheFile, Format, of_block, env_of, store_with_block_env}
use forkyard.Engine.RoundTrip.{recoded, Checks, load-store}
use forkyard.Binary.Cache.{
  Seeded, Observed, key_of, merged, persisted, persist_cache, usable, load_cache,
}
use forkyard.Binary.Start.{Upstream, open_pinned, opening}
use forkyard.Binary.Union.{
  Reloads, seed_of, IsSeed, merged-IsMapped, merged-Unites, recoded-Reloads,
}
use forkyard.Fetch.CacheSnapshot.{Hashing, cache_snapshot}

-- A block env of the block is stored with it, and read back as it was.
env_back :
    (env : BlockEnv) (n : ℕ)
    → env.number ≡ n
    → n < 2 ^ 64
    → env_of (of_block n (from_env env)) ≡ some env
unfolding env_of of_block from_env to_env
env_back env n e h = rw (ap (λ k. ltb k (2 ^ 64)) e ∙ lt→ltb n (2 ^ 64) h) (ground arith)

paired : {W : Type 0} (p : Result CacheError (Unit {0}) × W) → p.0 ≡ ok tt → p ≡ (ok tt, p.1)
paired p h = λ i. (h i, p.1)

module _ {B F W : Type 0} (bytecode : Bytecode B) (hashing : Hashing B) (fs : FileSystem W)
    (json : Format CacheFile) (dir : PathBuf) (chain_id : ℕ) (upstream : Upstream F)
    (disk : IsFileSystem fs) (text : IsFormat json)
    (reads_back : (c : B) → bytecode.new_raw_checked (bytecode.original_bytes c) ≡ ok c) where
  all-Checks : (codes : Codes B) → Checks bytecode codes
  all-Checks [] = tt
  all-Checks ((h, c) ∷ codes) = (reads_back c, all-Checks codes)

  module _ (seeded : Seeded B) (seen : Observed B) (w : W) where
    abbrev n : ℕ
    n = seen.block_env.number

    abbrev kept : BaseSnapshot B
    kept = merged hashing seeded (key_of chain_id n) seen.fork

    abbrev reloaded : BaseSnapshot B
    reloaded = record kept { accounts = recoded kept.code kept.accounts }

    load_persisted :
        IsSeed seeded
        → n < 2 ^ 64
        → seen.stored_env.number ≡ n
        → (persisted bytecode hashing fs json dir chain_id seeded seen w).0 ≡ ok tt
        → load_cache bytecode fs json dir
            (key_of chain_id n)
            (persist_cache bytecode hashing fs json dir chain_id seeded seen w)
          ≡ some (reloaded, some seen.stored_env)
    unfolding load_cache persist_cache persisted store_with_block_env usable
    load_persisted seed fits same stored = rw (lt→ltb n (2 ^ 64) fits) (
        ap usable (
          load-store bytecode fs json dir disk text (key_of chain_id n) kept
            (from_env seen.stored_env) w _
            (merged-IsMapped hashing (key_of chain_id n) seen.fork seeded seed)
            (all-Checks kept.code) (paired _ stored))
        ∙ ap (λ (x : Option BlockEnv). some (reloaded, x)) (env_back seen.stored_env n same fits))

    -- Where the block's number fits and does not change while the cache is persisted, the seed's maps
    -- hold each key once, revm reads its codes back, and the disk and serde do as they document: if
    -- the cache is stored without an error, a start that is pinned to this block opens its fork with
    -- the block env that was stored, fetching no header, and is seeded with a base in which every
    -- read finds what this run fetched, or else what it was itself seeded with for this block, where
    -- the inline code of an account is the code that the base has under its hash, or none.
    pub restarted :
        IsSeed seeded
        → n < 2 ^ 64
        → seen.stored_env.number ≡ n
        → (persisted bytecode hashing fs json dir chain_id seeded seen w).0 ≡ ok tt
        → (base : BaseSnapshot B) × (opening bytecode fs json dir chain_id upstream
              (some n)
              true
              (persist_cache bytecode hashing fs json dir chain_id seeded seen w)
            ≡ (upstream.fork_with_block_env seen.stored_env >>= λ fork.
                ok (record { fork = fork; block_env = seen.stored_env; seeded_base = some base })))
          × Reloads (seed_of seeded (key_of chain_id n)) (cache_snapshot hashing seen.fork) base
    unfolding opening open_pinned
    restarted seed fits same stored = (
      reloaded,
      ap (open_pinned bytecode fs json dir chain_id upstream n)
          (load_persisted seed fits same stored),
      recoded-Reloads (seed_of seeded (key_of chain_id n)) (cache_snapshot hashing seen.fork) kept
          (merged-Unites hashing (key_of chain_id n) seen.fork seeded),
    )
