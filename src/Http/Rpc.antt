-- ===== src/Http/Rpc.antt =====
-- What is left of a call on the JSON-RPC surface of crates/api-http/src/lib.rs: what it asks the
-- manager, and what it does to the side table under its lock.
use forkyard.Base.{ℕ, ◌^◌, Result, ok, err, ltb, if◌then◌else◌}
use forkyard.Engine.Types.{BlockEnv}
use forkyard.Http.Codec.{TxEnv}
use forkyard.Http.Errors.{RpcErrorObj, Reasons, from_session}
use forkyard.Http.Receipts.{Table}
use forkyard.Sessions.Jobs.{SessionError}
use forkyard.Sessions.Requests
use forkyard.Sessions.Requests.{Request, Answered}

-- `asks` awaits a call on the manager. `manager_env` reads the manager's own block. `locked`
-- changes the side table, and goes on with the table as it was before. A call that panics answers
-- nothing.
pub data Rpc (B X I A : Type 0) : Type 0 where
  returns : A → Rpc B X I A
  refuses : RpcErrorObj → Rpc B X I A
  asks :
      (r : Request B TxEnv) → (Result (SessionError I) (Answered X r) → Rpc B X I A) → Rpc B X I A
  manager_env : (BlockEnv → Rpc B X I A) → Rpc B X I A
  locked : (Table → Table) → (Table → Rpc B X I A) → Rpc B X I A
  panics : Rpc B X I A

module _ {B X I A : Type 0} where
  -- `?` on a result that is at hand.
  unfoldable pub try : {C : Type 0} → Result RpcErrorObj C → (C → Rpc B X I A) → Rpc B X I A
  try (ok c) k = k c
  try (err e) k = refuses e

  unfoldable pub answered :
      {C : Type 0} → Reasons I → (C → Rpc B X I A) → Result (SessionError I) C → Rpc B X I A
  unfolding from_session
  answered reasons k (ok c) = k c
  answered reasons k (err e) = refuses (from_session reasons e)

  -- `.await?`
  unfoldable pub ask :
      Reasons I → (r : Request B TxEnv) → (Answered X r → Rpc B X I A) → Rpc B X I A
  unfolding answered
  ask reasons r k = asks r (answered reasons k)

  unfoldable pub env_or_managers :
      (BlockEnv → Rpc B X I A) → Result (SessionError I) BlockEnv → Rpc B X I A
  env_or_managers k (ok env) = k env
  env_or_managers k (err e) = manager_env k

  -- `session_block_env`: the manager's block where the session is gone.
  unfoldable pub session_block_env : ℕ → (BlockEnv → Rpc B X I A) → Rpc B X I A
  unfolding env_or_managers Answered
  session_block_env session_id k = asks (Requests.session_block_env session_id) (env_or_managers k)

  -- `to::<u64>()`, which panics past 64 bits.
  unfoldable pub to_u64 : ℕ → (ℕ → Rpc B X I A) → Rpc B X I A
  to_u64 n k = if ltb n (2 ^ 64) then k n else panics
