-- ===== src/Sessions/Resolver.antt =====
-- crates/session/src/lib.rs: `SessionManager::new`, the default resolver and the count of sessions.
use Prim.Native.String.{String}
use forkyard.Base.{
  ℕ, ◌+◌, List, [], ◌∷◌, false, Option, none, some, Result, ok, err, ltb, if◌then◌else◌, ◌≡◌, refl,
  arith, All, map, Bool, true, ◌↔◌,
}
use forkyard.Engine.Types.{BlockEnv, DatabaseRef}
use forkyard.Engine.Snapshot.{empty}
use forkyard.Fetch.Keys.{StateKey, account, storage, block_hash}
use forkyard.Fetch.Speculation.{Thread}
use forkyard.Sessions.Calls.{SessionManager}

abbrev pub default_max_pinned_blocks : ℕ
default_max_pinned_blocks = 8

-- `max(1)`.
abbrev pub at_least_one : ℕ → ℕ
at_least_one n = if ltb n 1 then 1 else n

module _ {B E W : Type 0} where
  unfoldable pub new : DatabaseRef B E (Thread W) → BlockEnv → ℕ → SessionManager B E W
  new fallback block_env num_workers = record {
    fallback = fallback;
    base = empty;
    block_env = block_env;
    workers = at_least_one num_workers;
    next_id = 0;
    block_forks = false;
    pinned = record { fresh = 0; cells = []; recency = []; cap = default_max_pinned_blocks };
    snapshots = none;
  }

-- `active_session_count`: the counts that the workers published, added up.
unfoldable pub active_session_count : List ℕ → ℕ
active_session_count [] = 0
active_session_count (count ∷ counts) = count + active_session_count counts

-- The error as a text, and a read's value dropped.
unfoldable pub told : {E A : Type 0} → (E → String) → Result E A → Result String (Unit {0})
told shown (ok a) = ok tt
told shown (err e) = err (shown e)

module _ {B E W : Type 0} (shown : E → String) where
  unfoldable pub read_key : DatabaseRef B E W → StateKey → W → Result String (Unit {0})
  unfolding told
  read_key fallback (account address) w = told shown (fallback.basic_ref address w).0
  read_key fallback (storage address index) w = told shown (fallback.storage_ref address index w).0
  read_key fallback (block_hash number) w = told shown (fallback.block_hash_ref number w).0

  -- A thread that reads one key in the state that it meets, or panics.
  unfoldable pub spawned_read :
      DatabaseRef B E W → StateKey × Option W → Option (Result String (Unit {0}))
  unfolding read_key
  spawned_read fallback (key, none) = none
  spawned_read fallback (key, some w) = some (read_key fallback key w)

-- Whether a thread that nobody joined panicked.
unfoldable pub any_panicked : List (Option (Result String (Unit {0}))) → Bool
any_panicked [] = false
any_panicked (none ∷ reads) = true
any_panicked (some r ∷ reads) = any_panicked reads

-- `try_for_each` over the joined threads stops at the first that failed; the scope then waits for
-- the others, and panics, `none` here, if one of them did.
unfoldable pub joined : List (Option (Result String (Unit {0}))) → Option (Result String (Unit {0}))
unfolding any_panicked
joined [] = some (ok tt)
joined (none ∷ reads) = if any_panicked reads then none else some (err "resolver panicked")
joined (some (err e) ∷ reads) = if any_panicked reads then none else some (err e)
joined (some (ok done) ∷ reads) = joined reads

joined_head :
    (r : Option (Result String (Unit {0}))) (rs : List (Option (Result String (Unit {0}))))
    → joined (r ∷ rs) ≡ some (ok tt)
    → (r ≡ some (ok tt)) × (joined rs ≡ some (ok tt))
unfolding joined
joined_head none rs h = absurd (ground arith)
joined_head (some (err e)) rs h = absurd (ground arith)
joined_head (some (ok done)) rs h = (refl, h)

module _ {B E W : Type 0} (shown : E → String) (fallback : DatabaseRef B E W) where
  unfoldable pub default_resolver : List (StateKey × Option W) → Option (Result String (Unit {0}))
  unfolding joined spawned_read
  default_resolver keys = joined (map (spawned_read shown fallback) keys)

  -- A key that its thread read.
  abbrev pub IsRead : StateKey × Option W → Type 0
  IsRead read = spawned_read shown fallback read ≡ some (ok tt)

  joined-All :
      (keys : List (StateKey × Option W))
      → All IsRead keys
      → joined (map (spawned_read shown fallback) keys) ≡ some (ok tt)
  unfolding joined
  joined-All [] h = refl
  joined-All (key ∷ keys) h = rw h.0 (joined-All keys h.1)

  All-joined :
      (keys : List (StateKey × Option W))
      → joined (map (spawned_read shown fallback) keys) ≡ some (ok tt)
      → All IsRead keys
  unfolding joined
  All-joined [] h = tt
  All-joined (key ∷ keys) h =
      let (first, rest) = joined_head (spawned_read shown fallback key) _ h in
      (first, All-joined keys rest)

  -- The default resolver succeeds exactly if every key was read, whatever the threads met; it does
  -- not succeed if one of them failed or panicked.
  pub default_resolver-All :
      (keys : List (StateKey × Option W)) → (default_resolver keys ≡ some (ok tt)) ↔ All IsRead keys
  unfolding default_resolver
  default_resolver-All keys = (All-joined keys, joined-All keys)
