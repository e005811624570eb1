-- ===== src/Sessions/Calls.antt =====
-- crates/session/src/lib.rs, `SessionManager`: its shared fields, and what a call on it does, as a
-- sequence of the steps that other calls can come between.
use Prim.Native.String.{String}
use forkyard.Base.{
  ℕ, Bool, true, ◌%◌, ◌^◌, ◌&&◌, ◌==◌, ltb, Option, none, some, Result, ok, err, if◌then◌else◌,
}
use forkyard.Engine.Types.{BlockEnv, DatabaseRef}
use forkyard.Engine.Snapshot.{BaseSnapshot, empty}
use forkyard.Engine.State.{SessionState}
use forkyard.Engine.Files.{PathBuf}
use forkyard.Engine.SnapshotStore.{SnapshotInfo}
use forkyard.Fetch.Speculation.{Thread}
use forkyard.Sessions.Jobs.{Job, Reply, SessionError}
use forkyard.Sessions.Pinned.{PinnedBlocks}

-- A `SnapshotStore`: its directory and its chain.
abbrev pub StoreHandle : Type 0
StoreHandle = PathBuf × ℕ

pub record PinnedBlock (B E W : Type 0) : Type 0 where
  pub base : BaseSnapshot B
  pub fallback : DatabaseRef B E (Thread W)
  pub block_env : BlockEnv

pub record SessionManager (B E W : Type 0) : Type 0 where
  pub fallback : DatabaseRef B E (Thread W)
  pub base : BaseSnapshot B
  pub block_env : BlockEnv
  -- How many workers there are, one at least.
  pub workers : ℕ
  pub next_id : ℕ
  -- Whether there is a block-fork factory; what it answers comes from outside.
  pub block_forks : Bool
  pub pinned : PinnedBlocks
  pub snapshots : Option StoreHandle

-- What is left of a call. Each lock is held for one step. `sends` is a job for the worker of a
-- session, with a new reply channel, and the waiting for its reply: `none` if the worker is gone.
-- `initializes` is `get_or_try_init` on a cell, `stores` and `loads` are the snapshot store on a
-- blocking thread.
pub data Call (B E W Tx X I A : Type 0) : Type 0 where
  returns : A → Call B E W Tx X I A
  reads : (SessionManager B E W → Call B E W Tx X I A) → Call B E W Tx X I A
  writes : (SessionManager B E W → SessionManager B E W) → Call B E W Tx X I A → Call B E W Tx X I A
  allocates : (ℕ → Call B E W Tx X I A) → Call B E W Tx X I A
  pins : ℕ → (ℕ → Call B E W Tx X I A) → Call B E W Tx X I A
  initializes :
      ℕ → ℕ → (Result String (PinnedBlock B E W) → Call B E W Tx X I A) → Call B E W Tx X I A
  sends :
      ℕ
      → (ℕ → Job B E W Tx)
      → (Option (Reply B E W X I) → Call B E W Tx X I A)
      → Call B E W Tx X I A
  stores :
      StoreHandle
      → ℕ
      → SessionState B
      → (Result String SnapshotInfo → Call B E W Tx X I A)
      → Call B E W Tx X I A
  loads :
      StoreHandle
      → String
      → (Result String (ℕ × SessionState B) → Call B E W Tx X I A)
      → Call B E W Tx X I A

module _ {B E W Tx X I A C : Type 0} where
  -- A call whose result a second one goes on with.
  unfoldable pub and_then : Call B E W Tx X I A → (A → Call B E W Tx X I C) → Call B E W Tx X I C
  and_then (returns a) f = f a
  and_then (reads k) f = reads (λ m. and_then (k m) f)
  and_then (writes change c) f = writes change (and_then c f)
  and_then (allocates k) f = allocates (λ id. and_then (k id) f)
  and_then (pins n k) f = pins n (λ cell. and_then (k cell) f)
  and_then (initializes cell n k) f = initializes cell n (λ r. and_then (k r) f)
  and_then (sends id job k) f = sends id job (λ r. and_then (k r) f)
  and_then (stores store n state k) f = stores store n state (λ r. and_then (k r) f)
  and_then (loads store id k) f = loads store id (λ r. and_then (k r) f)

module _ {B E W : Type 0} where
  -- `worker_for`: the index of the worker that keeps a session.
  unfoldable pub worker_for : SessionManager B E W → ℕ → ℕ
  worker_for m id = id % m.workers

  unfoldable pub with_snapshots : StoreHandle → SessionManager B E W → SessionManager B E W
  with_snapshots store m = record m { snapshots = some store }

  unfoldable pub with_block_forks : ℕ → SessionManager B E W → SessionManager B E W
  with_block_forks max_pinned_blocks m = record m {
    block_forks = true;
    pinned = record m.pinned { cap = if ltb max_pinned_blocks 1 then 1 else max_pinned_blocks };
  }

  unfoldable pub with_base : BaseSnapshot B → SessionManager B E W → SessionManager B E W
  with_base base m = record m { base = base }

module _ (B E W Tx X I : Type 0) where
  abbrev pub Answer : Type 0 → Type 0
  Answer A = Call B E W Tx X I (Result (SessionError I) A)

  -- A reply that carries nothing.
  unfoldable pub acknowledged : {A : Type 0} → A → Option (Reply B E W X I) → Answer A
  acknowledged a none = returns (err SessionError.worker_gone)
  acknowledged a (some reply) = returns (ok a)

  unfoldable pub register :
      BaseSnapshot B → DatabaseRef B E (Thread W) → BlockEnv → Option (SessionState B) → Answer ℕ
  unfolding acknowledged
  register base fallback block_env seed =
      allocates (λ id. sends id (Job.fork id base fallback block_env seed) (acknowledged id))

  -- The three fields are read under three locks.
  unfoldable pub fork_seeded : Option (SessionState B) → Answer ℕ
  unfolding register
  fork_seeded seed =
      reads (λ m1. reads (λ m2. reads (λ m3. register m1.base m2.fallback m3.block_env seed)))

  unfoldable pub fork : Answer ℕ
  unfolding fork_seeded
  fork = fork_seeded none

  unfoldable pub set_block_env : BlockEnv → Call B E W Tx X I (Unit {0})
  set_block_env block_env = writes (λ m. record m { block_env = block_env }) (returns tt)

  unfoldable pub refresh_fallback :
      DatabaseRef B E (Thread W) → BlockEnv → Call B E W Tx X I (Unit {0})
  refresh_fallback fallback block_env =
      writes (λ m. record m { fallback = fallback })
        (writes (λ m. record m { block_env = block_env })
          (writes (λ m. record m { base = empty }) (returns tt)))

  unfoldable pub opened_at :
      ℕ → Option (SessionState B) → Result String (PinnedBlock B E W) → Answer ℕ
  unfolding register
  opened_at n seed (ok p) = register p.base p.fallback p.block_env seed
  opened_at n seed (err reason) = returns (err (SessionError.block_unavailable n reason))

  unfoldable pub fork_at_block_seeded : ℕ → Option (SessionState B) → Answer ℕ
  unfolding opened_at
  fork_at_block_seeded n seed = pins n (λ cell. reads (λ m.
      if m.block_forks
      then initializes cell n (opened_at n seed)
      else returns (
          err (
            SessionError.block_unavailable n
              "this session manager was built without a block-fork factory"))))

  unfoldable pub fork_at_block : ℕ → Answer ℕ
  unfolding fork_at_block_seeded
  fork_at_block n = fork_at_block_seeded n none

  -- On the default base if that is the block, else on a pinned one.
  unfoldable pub restore : ℕ → SessionState B → Answer ℕ
  unfolding fork_seeded fork_at_block_seeded
  restore n state = reads (λ m.
      if ltb m.block_env.number (2 ^ 64) && (m.block_env.number == n)
      then fork_seeded (some state)
      else fork_at_block_seeded n (some state))
