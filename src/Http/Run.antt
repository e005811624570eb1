-- ===== src/Http/Run.antt =====
-- A call on the surface of crates/api-http/src/lib.rs as it runs alone, against a manager that
-- answers each request by a function; no answer where the call panics.
use forkyard.Base.{ℕ, ◌^◌, ◌<◌, Option, none, some, Result, ok, err, ◌≡◌, ap, lt→ltb, refl}
use forkyard.Engine.Types.{BlockEnv}
use forkyard.Http.Codec.{TxEnv}
use forkyard.Http.Errors.{RpcErrorObj, Reasons}
use forkyard.Http.Receipts.{Table}
use forkyard.Http.Rpc.{
  Rpc, returns, refuses, asks, manager_env, locked, try, ask, answered, session_block_env,
  env_or_managers, panics, to_u64,
}
use forkyard.Sessions.Jobs.{SessionError}
use forkyard.Sessions.Requests
use forkyard.Sessions.Requests.{Request, Answered}

abbrev pub Manager : Type 0 → Type 0 → Type 0 → Type 0
Manager B X I = (r : Request B TxEnv) → Result (SessionError I) (Answered X r)

-- How the manager answers when a transaction is run, and when a session's block is asked for.
abbrev pub Executed : {B X I : Type 0} → Manager B X I → ℕ → TxEnv → X → Type 0
unfolding Answered
Executed manager id tx result = manager (Requests.advance id tx) ≡ ok result

abbrev pub AtBlock : {B I : Type 0} (X : Type 0) → Manager B X I → ℕ → BlockEnv → Type 0
unfolding Answered
AtBlock X manager id env = manager (Requests.session_block_env id) ≡ ok env

module _ {B X I A : Type 0} (manager : Manager B X I) (env : BlockEnv) where
  unfoldable pub run : Rpc B X I A → Table → Option (Result RpcErrorObj A) × Table
  run (returns a) table = (some (ok a), table)
  run (refuses e) table = (some (err e), table)
  run panics table = (none, table)
  run (asks r k) table = run (k (manager r)) table
  run (manager_env k) table = run (k env) table
  run (locked f k) table = run (k table) (f table)

  pub run-try :
      {C : Type 0} (r : Result RpcErrorObj C) (k : C → Rpc B X I A) (c : C) (table : Table)
      → r ≡ ok c
      → run (try r k) table ≡ run (k c) table
  unfolding try
  run-try r k c table e = ap (λ x. run (try x k) table) e

  pub run-ask :
      (reasons : Reasons I) (r : Request B TxEnv) (k : Answered X r → Rpc B X I A)
      (a : Answered X r) (table : Table)
      → manager r ≡ ok a
      → run (ask reasons r k) table ≡ run (k a) table
  unfolding run ask answered
  run-ask reasons r k a table e = ap (λ x. run (answered reasons k x) table) e

  pub run-session_block_env :
      (id : ℕ) (k : BlockEnv → Rpc B X I A) (at : BlockEnv) (table : Table)
      → AtBlock X manager id at
      → run (session_block_env id k) table ≡ run (k at) table
  unfolding run session_block_env env_or_managers Answered
  run-session_block_env id k at table e = ap (λ x. run (env_or_managers k x) table) e

  pub run-to_u64 :
      (n : ℕ) (k : ℕ → Rpc B X I A) (table : Table)
      → n < 2 ^ 64
      → run (to_u64 n k) table ≡ run (k n) table
  unfolding to_u64
  run-to_u64 n k table fits = rw (lt→ltb n (2 ^ 64) fits) refl
