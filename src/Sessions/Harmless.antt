-- ===== src/Sessions/Harmless.antt =====
-- crates/session/src/lib.rs: which calls of `SessionManager` do nothing but read.
use forkyard.Base.{ℕ, Option}
use forkyard.Sessions.Calls.{
  Call, returns, reads, writes, allocates, pins, initializes, sends, stores, loads, SessionManager,
}
use forkyard.Sessions.Jobs.{Reply}
use forkyard.Sessions.Manager
use forkyard.Sessions.Reading.{IsRead}
use forkyard.Sessions.Requests
use forkyard.Sessions.Requests.{Request, perform}

module _ {B E W Tx X I A : Type 0} where
  -- It reads the manager's fields and sends jobs that read, and does nothing else.
  unfoldable pub OnlyReads : Call B E W Tx X I A → Type 0
  OnlyReads (returns a) = Unit
  OnlyReads (reads k) = (m : SessionManager B E W) → OnlyReads (k m)
  OnlyReads (sends id job k) =
      ((reply : ℕ) → IsRead (job reply)) × ((r : Option (Reply B E W X I)) → OnlyReads (k r))
  OnlyReads (writes change c) = ⊥
  OnlyReads (allocates k) = ⊥
  OnlyReads (pins n k) = ⊥
  OnlyReads (initializes cell n k) = ⊥
  OnlyReads (stores store n state k) = ⊥
  OnlyReads (loads store id k) = ⊥

module _ (B E W Tx X I : Type 0) where
  -- A request that the manager meets with reads alone.
  abbrev pub Harmless : Request B Tx → Type 0
  Harmless r = OnlyReads (perform B E W Tx X I r)

  pub block_env-Harmless : (id : ℕ) → Harmless (Requests.session_block_env id)
  unfolding OnlyReads perform Manager.session_block_env
  block_env-Harmless id = ((λ reply. tt), λ r. tt)

  pub basic-Harmless : (id address : ℕ) → Harmless (Requests.basic id address)
  unfolding OnlyReads perform Manager.basic
  basic-Harmless id address = ((λ reply. tt), λ r. tt)

  pub storage-Harmless : (id address key : ℕ) → Harmless (Requests.storage id address key)
  unfolding OnlyReads perform Manager.storage
  storage-Harmless id address key = ((λ reply. tt), λ r. tt)

  pub code-Harmless : (id address : ℕ) → Harmless (Requests.code id address)
  unfolding OnlyReads perform Manager.code
  code-Harmless id address = ((λ reply. tt), λ r. tt)

  pub simulate-Harmless : (id : ℕ) (tx : Tx) → Harmless (Requests.simulate id tx)
  unfolding OnlyReads perform Manager.simulate Manager.dispatch
  simulate-Harmless id tx = ((λ reply. tt), λ r. tt)

  pub call-Harmless : (id : ℕ) (tx : Tx) → Harmless (Requests.call id tx)
  unfolding OnlyReads perform Manager.call Manager.dispatch
  call-Harmless id tx = ((λ reply. tt), λ r. tt)

  pub estimate_gas-Harmless : (id : ℕ) (tx : Tx) → Harmless (Requests.estimate_gas id tx)
  unfolding OnlyReads perform Manager.estimate_gas Manager.dispatch
  estimate_gas-Harmless id tx = ((λ reply. tt), λ r. tt)
