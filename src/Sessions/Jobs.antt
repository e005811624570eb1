-- ===== src/Sessions/Jobs.antt =====
-- crates/session/src/lib.rs, `SessionError`, `Job` and what a job is answered with.
use Prim.Native.String.{String}
use forkyard.Base.{ℕ, List, Bool, Option, none, some, Result}
use forkyard.Engine.Types.{AccountInfo, BlockEnv, DatabaseRef}
use forkyard.Engine.Snapshot.{BaseSnapshot}
use forkyard.Engine.Session.{Session}
use forkyard.Engine.State.{SessionState}
use forkyard.Fetch.Speculation.{Thread}

-- `I` is revm's `InvalidTransaction`.
pub data SessionError (I : Type 0) : Type 0 where
  unknown : ℕ → SessionError I
  execution : String → SessionError I
  invalid_transaction : I → SessionError I
  worker_gone : SessionError I
  block_unavailable : ℕ → String → SessionError I
  snapshot : String → SessionError I

-- A reply channel is a ticket, the last argument of each job that has one.
pub data Job (B E W Tx : Type 0) : Type 0 where
  fork :
      ℕ
      → BaseSnapshot B
      → DatabaseRef B E (Thread W)
      → BlockEnv
      → Option (SessionState B)
      → ℕ
      → Job B E W Tx
  state : ℕ → ℕ → Job B E W Tx
  branch : ℕ → ℕ → Job B E W Tx
  adopt : ℕ → Session B E (Thread W) → ℕ → Job B E W Tx
  simulate : ℕ → Tx → Bool → ℕ → Job B E W Tx
  advance : ℕ → Tx → ℕ → Job B E W Tx
  discard : ℕ → ℕ → Job B E W Tx
  storage : ℕ → ℕ → ℕ → ℕ → Job B E W Tx
  code : ℕ → ℕ → ℕ → Job B E W Tx
  basic : ℕ → ℕ → ℕ → Job B E W Tx
  block_env_of : ℕ → ℕ → Job B E W Tx
  set_account : ℕ → ℕ → AccountInfo B → ℕ → Job B E W Tx
  set_storage : ℕ → ℕ → ℕ → ℕ → ℕ → Job B E W Tx
  unblock : ℕ → Bool → Job B E W Tx

-- What is sent down a reply channel; `X` is revm's `ExecutionResult`.
pub data Reply (B E W X I : Type 0) : Type 0 where
  forked adopted discarded : Reply B E W X I
  state_is : Result (SessionError I) (SessionState B × ℕ) → Reply B E W X I
  branched : Result (SessionError I) (Session B E (Thread W)) → Reply B E W X I
  executed : Result (SessionError I) X → Reply B E W X I
  slot_is : Result (SessionError I) ℕ → Reply B E W X I
  code_is : Result (SessionError I) (List ℕ) → Reply B E W X I
  account_is : Result (SessionError I) (Option (AccountInfo B)) → Reply B E W X I
  block_env_is : Result (SessionError I) BlockEnv → Reply B E W X I
  written : Result (SessionError I) (Unit {0}) → Reply B E W X I

module _ {B E W Tx : Type 0} where
  unfoldable pub session_id : Job B E W Tx → Option ℕ
  session_id (fork id base fallback block_env seed reply) = some id
  session_id (adopt id session reply) = some id
  session_id (state id reply) = some id
  session_id (simulate id tx disable_checks reply) = some id
  session_id (advance id tx reply) = some id
  session_id (discard id reply) = some id
  session_id (storage id address key reply) = some id
  session_id (code id address reply) = some id
  session_id (basic id address reply) = some id
  session_id (block_env_of id reply) = some id
  session_id (set_account id address info reply) = some id
  session_id (set_storage id address key value reply) = some id
  session_id (branch parent reply) = some parent
  session_id (unblock id failed) = none

  -- The ticket that a job's reply goes to.
  unfoldable pub ticket : Job B E W Tx → ℕ
  ticket (fork id base fallback block_env seed reply) = reply
  ticket (adopt id session reply) = reply
  ticket (state id reply) = reply
  ticket (simulate id tx disable_checks reply) = reply
  ticket (advance id tx reply) = reply
  ticket (discard id reply) = reply
  ticket (storage id address key reply) = reply
  ticket (code id address reply) = reply
  ticket (basic id address reply) = reply
  ticket (block_env_of id reply) = reply
  ticket (set_account id address info reply) = reply
  ticket (set_storage id address key value reply) = reply
  ticket (branch parent reply) = reply
  ticket (unblock id failed) = 0
