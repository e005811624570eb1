-- ===== src/Binary/Start.antt =====
-- crates/bin/src/main.rs, `main`: which fork the binary opens, and what it is seeded with.
use Prim.Native.String.{String}
use forkyard.Base.{ℕ, Bool, Option, none, some, Result, ok, ◌>>=◌, ◌^◌, ◌&&◌, ltb, if◌then◌else◌}
use forkyard.Engine.Types.{BlockEnv}
use forkyard.Engine.Snapshot.{BaseSnapshot}
use forkyard.Engine.Files.{PathBuf, Bytecode, FileSystem}
use forkyard.Engine.Persist.{CacheFile, Format}
use forkyard.Binary.Cache.{Seeded, load_cache, key_of}

-- `fork_with_block_env`, `fork_at` and `fork` of crates/fetch, at the URL of the upstream; `F` is a
-- fork. Only the last two fetch a header.
pub record Upstream (F : Type 0) : Type 0 where
  pub fork_with_block_env : BlockEnv → Result String F
  pub fork_at : ℕ → Result String (F × BlockEnv)
  pub fork : Result String (F × BlockEnv)

pub record Opened (F B : Type 0) : Type 0 where
  pub fork : F
  pub block_env : BlockEnv
  pub seeded_base : Option (BaseSnapshot B)

abbrev pub base_of :
    {B : Type 0} → Option (BaseSnapshot B × Option BlockEnv) → Option (BaseSnapshot B)
base_of none = none
base_of (some (base, env)) = some base

module _ {B F W : Type 0} (bytecode : Bytecode B) (fs : FileSystem W) (json : Format CacheFile)
    (dir : PathBuf) (chain_id : ℕ) (upstream : Upstream F) where
  abbrev Cached : Type 0
  Cached = Option (BaseSnapshot B × Option BlockEnv)

  -- A fork at a block that is asked for by its number.
  unfoldable pub open_at : ℕ → Option (BaseSnapshot B) → Result String (Opened F B)
  open_at n base = upstream.fork_at n >>= λ opened.
      ok (record { fork = opened.0; block_env = opened.1; seeded_base = base })

  unfoldable pub open_pinned : ℕ → Cached → Result String (Opened F B)
  unfolding open_at
  open_pinned n (some (base, some block_env)) = upstream.fork_with_block_env block_env >>= λ fork.
      ok (record { fork = fork; block_env = block_env; seeded_base = some base })
  open_pinned n (some (base, none)) = open_at n (some base)
  open_pinned n none = open_at n none

  -- The cache of the block that the header names, where there is a cache.
  unfoldable pub tip_base : Bool → BlockEnv → W → Option (BaseSnapshot B)
  unfolding load_cache
  tip_base cached env w =
      if cached && ltb env.number (2 ^ 64)
      then base_of (load_cache bytecode fs json dir (key_of chain_id env.number) w)
      else none

  -- `cached` says whether there is a cache at all.
  unfoldable pub opening : Option ℕ → Bool → W → Result String (Opened F B)
  unfolding open_pinned tip_base load_cache
  opening (some n) cached w =
      open_pinned n (if cached then load_cache bytecode fs json dir (key_of chain_id n) w else none)
  opening none cached w = upstream.fork >>= λ opened.
      ok
        (record { fork = opened.0; block_env = opened.1; seeded_base = tip_base cached opened.1 w })

-- The base with the key that it is written back under.
unfoldable pub keyed : {B : Type 0} → ℕ → ℕ → Option (BaseSnapshot B) → Seeded B
keyed chain_id n none = none
keyed chain_id n (some base) = if ltb n (2 ^ 64) then some (key_of chain_id n, base) else none

unfoldable pub seeded : {F B : Type 0} → ℕ → Opened F B → Seeded B
unfolding keyed
seeded chain_id o = keyed chain_id o.block_env.number o.seeded_base
