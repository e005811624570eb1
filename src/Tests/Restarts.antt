-- ===== src/Tests/Restarts.antt =====
-- A binary that is pinned to block 9, stops, and starts again from its cache.
use Prim.Native.String.{String}
use forkyard.Base.{
  ℕ, ℕ_discrete, Option, sym, ◌^◌, [], ◌∷◌, true, false, some, Result, ok, err, ◌≡◌, refl, ap, inl,
  arith,
}
use forkyard.Base.Maps.{get, insert, extend}
use forkyard.Engine.Types.{BlockEnv, AccountInfo, slot_discrete}
use forkyard.Engine.Snapshot.{BaseSnapshot, code_by_hash}
use forkyard.Engine.Files.{from_env}
use forkyard.Engine.Persist.{
  CacheFile, Format, packed, written, path_for, store_with_block_env, load_with_block_env,
}
use forkyard.Binary.Cache.{Seeded, Observed, merged, persisted, persist_cache, load_cache, key_of}
use forkyard.Binary.Start.{Upstream, Opened, opening, seeded}
use forkyard.Binary.Restart.{restarted}
use forkyard.Binary.Seeding.{seeded_loaded}
use forkyard.Binary.Union.{Reloads, seed_of}
use forkyard.Fetch.CacheSnapshot.{Backend, Hashing, cache_snapshot}
use forkyard.Fetch.Snapshotting.{held_found}
use forkyard.Tests.{Bytes}
use forkyard.Tests.Files.{
  plain, disk, disk-IsFileSystem, CacheFile-discrete, printed_yes, only, only-IsFormat, small,
  block_nine, json, small-IsMapped,
}

-- Code that starts with a byte hashes to 77.
abbrev hashing : Hashing Bytes
hashing = record { hash_slow = λ code. 77; is_empty = λ code. false }

abbrev contract : AccountInfo Bytes
contract = record { balance = 1; nonce = 1; code_hash = 77; code = some (96 ∷ 0 ∷ []) }

abbrev fetched : Backend Bytes
fetched = record {
  accounts = (2, contract) ∷ [];
  storage = (1, (3, 9) ∷ []) ∷ [];
  block_hashes = (2 ^ 64, 5) ∷ [];
}

abbrev env : BlockEnv
env = record { number = 9; timestamp = 100; basefee = 7; gas_limit = 30000000 }

abbrev seen : Observed Bytes
seen = record { block_env = env; fork = fetched; stored_env = env }

abbrev seed : Seeded Bytes
seed = some (block_nine, small)

abbrev file : CacheFile
unfolding packed
file = packed plain disk json [] block_nine (merged hashing seed block_nine fetched) (from_env env)

abbrev of_file : Format CacheFile
of_file = only CacheFile-discrete file

-- A fork is the block that it stands at.
abbrev upstream : Upstream ℕ
upstream = record {
  fork_with_block_env = λ block. ok block.number;
  fork_at = λ n. ok (n, record env { number = n });
  fork = err "no connection";
}

file-stored : (persisted plain hashing disk of_file [] 1 seed seen []).0 ≡ ok tt
unfolding persisted store_with_block_env written file
file-stored =
    ap
      (λ text.
        (written plain disk of_file [] (path_for plain disk of_file [] block_nine) text []).0)
      (printed_yes (CacheFile-discrete file file) refl)

restarted_example :
    (base : BaseSnapshot Bytes) × (opening plain disk of_file [] 1 upstream
        (some 9)
        true
        (persist_cache plain hashing disk of_file [] 1 seed seen [])
      ≡ ok (record { fork = 9; block_env = env; seeded_base = some base }))
    × Reloads (seed_of seed (key_of 1 9)) (cache_snapshot hashing fetched) base
restarted_example =
    restarted plain hashing disk of_file [] 1 upstream disk-IsFileSystem
      (only-IsFormat CacheFile-discrete file) (λ c. refl) seed seen [] small-IsMapped (omega arith)
      refl file-stored

held_found_example :
    (c : Bytes) × (code_by_hash (cache_snapshot hashing fetched) 77 ≡ some c) × (◌≡◌ {A = ℕ} 77 77)
held_found_example = held_found hashing (96 ∷ 0 ∷ []) refl fetched 2 contract (inl refl) refl

-- The small cache with its code inline.
abbrev inlined : BaseSnapshot Bytes
inlined = record small {
  accounts = (1, record { balance = 5; nonce = 2; code_hash = 77; code = some (96 ∷ 0 ∷ []) }) ∷ [];
}

abbrev reopened : Opened ℕ Bytes
reopened = record { fork = 9; block_env = env; seeded_base = some inlined }

small_found : opening plain disk json [] 1 upstream (some 9) true (1 ∷ []) ≡ ok reopened
unfolding opening load_cache load_with_block_env extend insert get ℕ_discrete slot_discrete
small_found = refl

abbrev number_of : Result String (ℕ × BlockEnv) → ℕ
number_of (ok (fork, block)) = block.number
number_of (err e) = 0

seeded_loaded_example :
    (block_nine ≡ key_of 1 9)
    × (found : Option BlockEnv) × (load_cache plain disk json [] block_nine (1 ∷ [])
        ≡ some (inlined, found))
unfolding seeded
seeded_loaded_example =
    seeded_loaded plain disk json [] 1 upstream (λ n fork block h. sym (ap number_of h)) (1 ∷ [])
      (some 9) true reopened block_nine inlined small_found refl
