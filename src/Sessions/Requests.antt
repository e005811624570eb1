-- ===== src/Sessions/Requests.antt =====
-- The calls on `SessionManager` of crates/session/src/lib.rs, as requests that are performed.
use Prim.Native.String.{String}
use forkyard.Base.{ℕ, List, Option}
use forkyard.Engine.Types.{AccountInfo, BlockEnv}
use forkyard.Engine.State.{SessionState}
use forkyard.Engine.SnapshotStore.{SnapshotInfo}
use forkyard.Sessions.Calls
use forkyard.Sessions.Calls.{
  Call, returns, reads, writes, allocates, pins, initializes, sends, stores, loads, PinnedBlock,
  StoreHandle, and_then, Answer, acknowledged, register, fork_seeded, opened_at,
  fork_at_block_seeded, restore, SessionManager,
}
use forkyard.Sessions.Manager
use forkyard.Sessions.Manager.{adopted, stored, resumed, with_store, as_session}

-- The calls on a manager.
pub data Request (B Tx : Type 0) : Type 0 where
  fork : Request B Tx
  fork_at_block : ℕ → Request B Tx
  fork_from : ℕ → Request B Tx
  restore_at : ℕ → SessionState B → Request B Tx
  resume : String → Request B Tx
  snapshot : ℕ → Request B Tx
  session_state : ℕ → Request B Tx
  session_block_env : ℕ → Request B Tx
  basic : ℕ → ℕ → Request B Tx
  set_account : ℕ → ℕ → AccountInfo B → Request B Tx
  set_storage : ℕ → ℕ → ℕ → ℕ → Request B Tx
  storage : ℕ → ℕ → ℕ → Request B Tx
  code : ℕ → ℕ → Request B Tx
  simulate : ℕ → Tx → Request B Tx
  advance : ℕ → Tx → Request B Tx
  call : ℕ → Tx → Request B Tx
  estimate_gas : ℕ → Tx → Request B Tx
  discard : ℕ → Request B Tx

unfoldable pub Answered : {B Tx : Type 0} → Type 0 → Request B Tx → Type 0
Answered X fork = ℕ
Answered X (fork_at_block n) = ℕ
Answered X (fork_from parent) = ℕ
Answered {B = B} X (restore_at n state) = ℕ
Answered X (resume id) = ℕ
Answered X (snapshot id) = SnapshotInfo
Answered {B = B} X (session_state id) = ℕ × SessionState B
Answered X (session_block_env id) = BlockEnv
Answered {B = B} X (basic id address) = Option (AccountInfo B)
Answered X (set_account id address info) = Unit {0}
Answered X (set_storage id address key value) = Unit {0}
Answered X (storage id address key) = ℕ
Answered X (code id address) = List ℕ
Answered X (simulate id tx) = X
Answered X (advance id tx) = X
Answered X (call id tx) = X
Answered X (estimate_gas id tx) = X
Answered X (discard id) = Unit {0}

module _ (B E W Tx X I : Type 0) where
  unfoldable pub perform : (r : Request B Tx) → Answer B E W Tx X I (Answered X r)
  unfolding Answered
  perform fork = Calls.fork B E W Tx X I
  perform (fork_at_block n) = Calls.fork_at_block B E W Tx X I n
  perform (fork_from parent) = Manager.fork_from B E W Tx X I parent
  perform (restore_at n state) = restore B E W Tx X I n state
  perform (resume id) = Manager.resume B E W Tx X I id
  perform (snapshot id) = Manager.snapshot B E W Tx X I id
  perform (session_state id) = Manager.session_state B E W Tx X I id
  perform (session_block_env id) = Manager.session_block_env B E W Tx X I id
  perform (basic id address) = Manager.basic B E W Tx X I id address
  perform (set_account id address info) = Manager.set_account B E W Tx X I id address info
  perform (set_storage id address key value) = Manager.set_storage B E W Tx X I id address key value
  perform (storage id address key) = Manager.storage B E W Tx X I id address key
  perform (code id address) = Manager.code B E W Tx X I id address
  perform (simulate id tx) = Manager.simulate B E W Tx X I id tx
  perform (advance id tx) = Manager.advance B E W Tx X I id tx
  perform (call id tx) = Manager.call B E W Tx X I id tx
  perform (estimate_gas id tx) = Manager.estimate_gas B E W Tx X I id tx
  perform (discard id) = Manager.discard B E W Tx X I id
