-- ===== src/Sessions/Manager.antt =====
-- crates/session/src/lib.rs, the rest of `impl SessionManager`: the calls that go to one session.
use Prim.Native.String.{String}
use forkyard.Base.{ℕ, List, Bool, true, false, Option, none, some, Result, ok, err, if◌then◌else◌}
use forkyard.Engine.Types.{AccountInfo, BlockEnv}
use forkyard.Engine.Session.{Session}
use forkyard.Engine.State.{SessionState}
use forkyard.Engine.SnapshotStore.{SnapshotInfo}
use forkyard.Fetch.Speculation.{Thread}
use forkyard.Sessions.Jobs.{Job, Reply, SessionError}
use forkyard.Sessions.Calls.{
  returns, reads, allocates, sends, stores, loads, StoreHandle, and_then, Answer, acknowledged,
  restore,
}

module _ {B E W I : Type 0} {X : Type 0} where
  -- What a reply channel of each kind gives the caller. A channel carries one kind of reply, so the
  -- last clause of each is out of reach.
  unfoldable pub as_state : Option (Reply B E W X I) → Result (SessionError I) (ℕ × SessionState B)
  as_state (some (Reply.state_is (ok (state, number)))) = ok (number, state)
  as_state (some (Reply.state_is (err e))) = err e
  as_state reply = err SessionError.worker_gone

  unfoldable pub as_session :
      Option (Reply B E W X I) → Result (SessionError I) (Session B E (Thread W))
  as_session (some (Reply.branched r)) = r
  as_session reply = err SessionError.worker_gone

  unfoldable pub as_execution : Option (Reply B E W X I) → Result (SessionError I) X
  as_execution (some (Reply.executed r)) = r
  as_execution reply = err SessionError.worker_gone

  unfoldable pub as_slot : Option (Reply B E W X I) → Result (SessionError I) ℕ
  as_slot (some (Reply.slot_is r)) = r
  as_slot reply = err SessionError.worker_gone

  unfoldable pub as_code : Option (Reply B E W X I) → Result (SessionError I) (List ℕ)
  as_code (some (Reply.code_is r)) = r
  as_code reply = err SessionError.worker_gone

  unfoldable pub as_account :
      Option (Reply B E W X I) → Result (SessionError I) (Option (AccountInfo B))
  as_account (some (Reply.account_is r)) = r
  as_account reply = err SessionError.worker_gone

  unfoldable pub as_block_env : Option (Reply B E W X I) → Result (SessionError I) BlockEnv
  as_block_env (some (Reply.block_env_is r)) = r
  as_block_env reply = err SessionError.worker_gone

  unfoldable pub as_written : Option (Reply B E W X I) → Result (SessionError I) (Unit {0})
  as_written (some (Reply.written r)) = r
  as_written reply = err SessionError.worker_gone

module _ (B E W Tx X I : Type 0) where
  unfoldable pub session_state : ℕ → Answer B E W Tx X I (ℕ × SessionState B)
  unfolding as_state
  session_state id = sends id (Job.state id) (λ r. returns (as_state r))

  unfoldable pub session_block_env : ℕ → Answer B E W Tx X I BlockEnv
  unfolding as_block_env
  session_block_env id = sends id (Job.block_env_of id) (λ r. returns (as_block_env r))

  -- The child is registered under an id that is allocated once the branch has succeeded.
  unfoldable pub adopted : Result (SessionError I) (Session B E (Thread W)) → Answer B E W Tx X I ℕ
  unfolding acknowledged
  adopted (err e) = returns (err e)
  adopted (ok session) =
      allocates (λ id. sends id (Job.adopt id session) (acknowledged B E W Tx X I id))

  unfoldable pub fork_from : ℕ → Answer B E W Tx X I ℕ
  unfolding adopted as_session
  fork_from parent = sends parent (Job.branch parent) (λ r. adopted (as_session r))

  unfoldable pub basic : ℕ → ℕ → Answer B E W Tx X I (Option (AccountInfo B))
  unfolding as_account
  basic id address = sends id (Job.basic id address) (λ r. returns (as_account r))

  unfoldable pub set_account : ℕ → ℕ → AccountInfo B → Answer B E W Tx X I (Unit {0})
  unfolding as_written
  set_account id address info =
      sends id (Job.set_account id address info) (λ r. returns (as_written r))

  unfoldable pub set_storage : ℕ → ℕ → ℕ → ℕ → Answer B E W Tx X I (Unit {0})
  unfolding as_written
  set_storage id address key value =
      sends id (Job.set_storage id address key value) (λ r. returns (as_written r))

  unfoldable pub storage : ℕ → ℕ → ℕ → Answer B E W Tx X I ℕ
  unfolding as_slot
  storage id address key = sends id (Job.storage id address key) (λ r. returns (as_slot r))

  unfoldable pub code : ℕ → ℕ → Answer B E W Tx X I (List ℕ)
  unfolding as_code
  code id address = sends id (Job.code id address) (λ r. returns (as_code r))

  unfoldable pub dispatch : ℕ → Tx → Bool → Bool → Answer B E W Tx X I X
  unfolding as_execution
  dispatch id tx commit disable_checks =
      sends id
        (λ reply.
          if commit then Job.advance id tx reply else Job.simulate id tx disable_checks reply)
        (λ r. returns (as_execution r))

  unfoldable pub simulate : ℕ → Tx → Answer B E W Tx X I X
  unfolding dispatch
  simulate id tx = dispatch id tx false false

  unfoldable pub advance : ℕ → Tx → Answer B E W Tx X I X
  unfolding dispatch
  advance id tx = dispatch id tx true false

  unfoldable pub call : ℕ → Tx → Answer B E W Tx X I X
  unfolding dispatch
  call id tx = dispatch id tx false true

  unfoldable pub estimate_gas : ℕ → Tx → Answer B E W Tx X I X
  unfolding dispatch
  estimate_gas id tx = dispatch id tx false true

  unfoldable pub discard : ℕ → Answer B E W Tx X I (Unit {0})
  unfolding acknowledged
  discard id = sends id (Job.discard id) (acknowledged B E W Tx X I tt)

  -- `snapshot_store`, and the rest of a call on it.
  unfoldable pub with_store :
      {A : Type 0} → (StoreHandle → Answer B E W Tx X I A) → Answer B E W Tx X I A
  with_store use_it = reads (λ m. elim m.snapshots [
    | some store ↦ use_it store
    | none ↦
        returns
          (err (SessionError.snapshot "this session manager was built without a snapshot store"))
  ])

  unfoldable pub told : {A : Type 0} → Result String A → Result (SessionError I) A
  told (ok a) = ok a
  told (err e) = err (SessionError.snapshot e)

  unfoldable pub stored :
      StoreHandle → Result (SessionError I) (ℕ × SessionState B) → Answer B E W Tx X I SnapshotInfo
  unfolding told
  stored store (ok (number, state)) = stores store number state (λ r. returns (told r))
  stored store (err e) = returns (err e)

  unfoldable pub snapshot : ℕ → Answer B E W Tx X I SnapshotInfo
  unfolding with_store session_state stored
  snapshot id = with_store (λ store. and_then (session_state id) (stored store))

  unfoldable pub resumed : Result String (ℕ × SessionState B) → Answer B E W Tx X I ℕ
  unfolding restore
  resumed (ok (number, state)) = restore B E W Tx X I number state
  resumed (err e) = returns (err (SessionError.snapshot e))

  unfoldable pub resume : String → Answer B E W Tx X I ℕ
  unfolding with_store resumed
  resume snapshot_id = with_store (λ store. loads store snapshot_id resumed)
