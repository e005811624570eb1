-- ===== src/Binary/Seeding.antt =====
-- crates/bin/src/main.rs, `main`: the seeded base is what the cache holds for the fork's own block.
use forkyard.Base.{
  ℕ, Bool, true, false, Option, none, some, Result, ok, err, ◌^◌, ◌&&◌, ltb, ◌≡◌, refl, sym, ap,
  ◌∙◌, arith, bind_ok, map_err, inl, inr, Bool-cases, ==_iff,
}
use forkyard.Engine.Types.{BlockEnv}
use forkyard.Engine.Snapshot.{BaseSnapshot}
use forkyard.Engine.Files.{
  PathBuf, CacheKey, CacheError, StoredBlockEnv, to_env, Bytecode, FileSystem, decode_code,
}
use forkyard.Engine.Persist.{
  CacheFile, Format, of_block, env_of, opened, checked, unpacked, path_for, load_with_block_env,
}
use forkyard.Binary.Cache.{key_of, usable, load_cache}
use forkyard.Binary.Start.{
  Upstream, Opened, base_of, open_at, open_pinned, tip_base, opening, keyed, seeded,
}

-- A block env that is read from a file for a block is one of that block.
env_of_block :
    (n : ℕ) (stored : Option StoredBlockEnv) (env : BlockEnv)
    → env_of (of_block n stored) ≡ some env
    → env.number ≡ n
unfolding env_of of_block to_env
env_of_block n none env h = absurd (cc)
env_of_block n (some stored) env h = ground (arith, ==_iff stored.number n)

ok_inj : {E A : Type 0} (a b : A) → ◌≡◌ {A = Result E A} (ok a) (ok b) → a ≡ b
ok_inj a b h = cc

some_inj : {A : Type 0} (a b : A) → some a ≡ some b → a ≡ b
some_inj a b h = cc

usable-some :
    {B : Type 0} (r : Result CacheError (BaseSnapshot B × Option BlockEnv))
    (found : BaseSnapshot B × Option BlockEnv)
    → usable r ≡ some found
    → r ≡ ok found
unfolding usable
usable-some (ok a) found h = ap ok (some_inj a found h)
usable-some (err e) found h = absurd (cc)

keyed-some :
    {B : Type 0} (chain_id n : ℕ) (found : Option (BaseSnapshot B)) (key : CacheKey)
    (base : BaseSnapshot B)
    → keyed chain_id n found ≡ some (key, base)
    → (found ≡ some base) × (key ≡ key_of chain_id n)
unfolding keyed
keyed-some chain_id n none key base h = absurd (cc)
keyed-some chain_id n (some b) key base h = (ground arith, ground arith)

module _ {B W : Type 0} (bytecode : Bytecode B) (fs : FileSystem W) (json : Format CacheFile)
    (dir : PathBuf) where
  unpacked_env :
      (path : PathBuf) (key : CacheKey) (file : CacheFile) (base : BaseSnapshot B) (env : BlockEnv)
      → unpacked bytecode fs json dir path key file ≡ ok (base, some env)
      → env.number ≡ key.block_number
  unfolding unpacked
  unpacked_env path key file base env h =
      let (code, decoded, e) = bind_ok (decode_code bytecode path file.code) _ h in
      env_of_block key.block_number file.block_env env (ap (λ p. p.1) (ok_inj _ (base, some env) e))

  -- The block env that comes with a cache is one of the block that the cache is loaded for.
  load_cache_env :
      (key : CacheKey) (w : W) (base : BaseSnapshot B) (env : BlockEnv)
      → load_cache bytecode fs json dir key w ≡ some (base, some env)
      → env.number ≡ key.block_number
  unfolding load_cache load_with_block_env
  load_cache_env key w base env h =
      let path = path_for bytecode fs json dir key in
      let loaded = usable-some _ (base, some env) h in
      let (bytes, read, h1) = bind_ok (opened path (fs.read path w)) _ loaded in
      let (file, parsed, h2) =
        bind_ok (map_err (CacheError.malformed path) (json.from_slice bytes)) _ h1 in
      let (file', passed, h3) = bind_ok (checked path key file) _ h2 in
      unpacked_env path key file' base env h3

module _ {B F W : Type 0} (bytecode : Bytecode B) (fs : FileSystem W) (json : Format CacheFile)
    (dir : PathBuf) (chain_id : ℕ) (upstream : Upstream F) where
  -- Asked for a block by its number, the upstream gives that block.
  abbrev pub GivesBlock : Type 0
  GivesBlock =
      (n : ℕ) (fork : F) (env : BlockEnv) → upstream.fork_at n ≡ ok (fork, env) → env.number ≡ n

  -- The base, if there is one, was loaded for the block.
  abbrev pub Loaded : W → ℕ → Option (BaseSnapshot B) → Type 0
  Loaded w n found =
      (base : BaseSnapshot B)
      → found ≡ some base
      → (env : Option BlockEnv) × (load_cache bytecode fs json dir (key_of chain_id n) w
          ≡ some (base, env))

  module _ (w : W) where
    at_own :
        (o : Opened F B) (n : ℕ) (found : Option (BaseSnapshot B))
        → o.block_env.number ≡ n
        → o.seeded_base ≡ found
        → Loaded w n found
        → Loaded w o.block_env.number o.seeded_base
    at_own o n found e same loaded base h =
        let (env, there) = loaded base (sym same ∙ h) in
        (env, ap (λ (k : ℕ). load_cache bytecode fs json dir (key_of chain_id k) w) e ∙ there)

    base_of-Loaded :
        (n : ℕ) (found : Option (BaseSnapshot B × Option BlockEnv))
        → load_cache bytecode fs json dir (key_of chain_id n) w ≡ found
        → Loaded w n (base_of found)
    base_of-Loaded n none e base h = absurd (cc)
    base_of-Loaded n (some (b, env)) e base h =
        (env, e ∙ ap (λ (x : BaseSnapshot B). some (x, env)) (some_inj b base h))

    none-Loaded : (n : ℕ) → Loaded w n none
    none-Loaded n base h = absurd (cc)

    tip_base-Loaded :
        (cached : Bool) (env : BlockEnv)
        → Loaded w env.number (tip_base bytecode fs json dir chain_id upstream cached env w)
    unfolding tip_base
    tip_base-Loaded cached env = elim (Bool-cases (cached && ltb env.number (2 ^ 64))) [
      | inl both ↦ rw both (base_of-Loaded env.number _ refl)
      | inr other ↦ rw other (none-Loaded env.number)
    ]

  module _ (gives : GivesBlock) (w : W) where
    open_at-Loaded :
        (n : ℕ) (found : Option (BaseSnapshot B)) (o : Opened F B)
        → Loaded w n found
        → open_at bytecode fs json dir chain_id upstream n found ≡ ok o
        → Loaded w o.block_env.number o.seeded_base
    unfolding open_at
    open_at-Loaded n found o loaded h =
        let (opened, at, same) = bind_ok (upstream.fork_at n) _ h in
        let e : record { fork = opened.0; block_env = opened.1; seeded_base = found } ≡ o =
          ok_inj _ o same in
        at_own w o n found
          (sym (ap (λ (x : Opened F B). x.block_env.number) e) ∙ gives n opened.0 opened.1 at)
          (sym (ap (λ (x : Opened F B). x.seeded_base) e)) loaded

    open_pinned-Loaded :
        (n : ℕ) (found : Option (BaseSnapshot B × Option BlockEnv)) (o : Opened F B)
        → load_cache bytecode fs json dir (key_of chain_id n) w ≡ found
        → open_pinned bytecode fs json dir chain_id upstream n found ≡ ok o
        → Loaded w o.block_env.number o.seeded_base
    unfolding open_pinned
    open_pinned-Loaded n (some (base, some env)) o there h =
        let (fork, connected, same) = bind_ok (upstream.fork_with_block_env env) _ h in
        let e : record { fork = fork; block_env = env; seeded_base = some base } ≡ o =
          ok_inj _ o same in
        at_own w o n (some base)
          (sym (ap (λ (x : Opened F B). x.block_env.number) e)
            ∙ load_cache_env bytecode fs json dir (key_of chain_id n) w base env there)
          (sym (ap (λ (x : Opened F B). x.seeded_base) e))
          (base_of-Loaded w n (some (base, some env)) there)
    open_pinned-Loaded n (some (base, none)) o there h =
        open_at-Loaded n (some base) o (base_of-Loaded w n (some (base, none)) there) h
    open_pinned-Loaded n none o there h = open_at-Loaded n none o (none-Loaded w n) h

    opening-Loaded :
        (pin : Option ℕ) (cached : Bool) (o : Opened F B)
        → opening bytecode fs json dir chain_id upstream pin cached w ≡ ok o
        → Loaded w o.block_env.number o.seeded_base
    unfolding opening
    opening-Loaded (some n) true o h = open_pinned-Loaded n _ o refl h
    opening-Loaded (some n) false o h =
        open_at-Loaded n none o (none-Loaded w n) (unfold open_pinned in h)
    opening-Loaded none cached o h =
        let (opened, latest, same) = bind_ok upstream.fork _ h in
        let e : record {
          fork = opened.0;
          block_env = opened.1;
          seeded_base = tip_base bytecode fs json dir chain_id upstream cached opened.1 w;
        }
            ≡ o =
          ok_inj _ o same in
        at_own w o opened.1.number _ (sym (ap (λ (x : Opened F B). x.block_env.number) e))
          (sym (ap (λ (x : Opened F B). x.seeded_base) e)) (tip_base-Loaded w cached opened.1)

    -- Where the upstream gives the block that it is asked for: if the binary starts with a seeded
    -- base, its key is that of the chain and of the fork's own block, and the base is what the cache
    -- holds under this key, whether or not the fork is pinned to a block.
    pub seeded_loaded :
        (pin : Option ℕ) (cached : Bool) (o : Opened F B) (key : CacheKey) (base : BaseSnapshot B)
        → opening bytecode fs json dir chain_id upstream pin cached w ≡ ok o
        → seeded chain_id o ≡ some (key, base)
        → (key ≡ key_of chain_id o.block_env.number)
          × (env : Option BlockEnv) × (load_cache bytecode fs json dir key w ≡ some (base, env))
    unfolding seeded
    seeded_loaded pin cached o key base h s =
        let (found, e) = keyed-some chain_id o.block_env.number o.seeded_base key base s in
        let (env, there) = opening-Loaded pin cached o h base found in
        (e, env, ap (λ (k : CacheKey). load_cache bytecode fs json dir k w) e ∙ there)
