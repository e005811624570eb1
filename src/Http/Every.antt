-- ===== src/Http/Every.antt =====
-- What holds of everything that is left of a call, whatever the manager answers and whatever stands
-- in the side table in between.
use forkyard.Base.{ℕ, ◌^◌, Result, ok, err, ◌≡◌, refl, ltb, Bool-cases, inl, inr}
use forkyard.Engine.Types.{BlockEnv}
use forkyard.Http.Codec.{TxEnv}
use forkyard.Http.Errors.{RpcErrorObj, Reasons, from_session}
use forkyard.Http.Receipts.{Table}
use forkyard.Http.Rpc.{
  Rpc, returns, refuses, asks, manager_env, locked, try, answered, ask, env_or_managers,
  session_block_env, panics, to_u64,
}
use forkyard.Sessions.Jobs.{SessionError}
use forkyard.Sessions.Requests
use forkyard.Sessions.Requests.{Request, Answered}

module _ {B X I A : Type 0} where
  -- Each request of a call is one of `P`, each change of the side table one of `U`, and each error
  -- one of `E`.
  abbrev pub Every :
      (Request B TxEnv → Type 0)
      → ((Table → Table) → Type 0)
      → (RpcErrorObj → Type 0)
      → Rpc B X I A
      → Type 0
  Every P U E (returns a) = Unit
  Every P U E (refuses e) = E e
  Every P U E panics = Unit
  Every P U E (asks r k) = P r × ((x : Result (SessionError I) (Answered X r)) → Every P U E (k x))
  Every P U E (manager_env k) = (env : BlockEnv) → Every P U E (k env)
  Every P U E (locked f k) = U f × ((table : Table) → Every P U E (k table))

  module _ (P : Request B TxEnv → Type 0) (U : (Table → Table) → Type 0) (E : RpcErrorObj → Type 0)
      (reasons : Reasons I) where
    pub try-Every :
        {C : Type 0} (r : Result RpcErrorObj C) (k : C → Rpc B X I A)
        → ((e : RpcErrorObj) → r ≡ err e → E e)
        → ((c : C) → Every P U E (k c))
        → Every P U E (try r k)
    unfolding try
    try-Every (ok c) k bad h = h c
    try-Every (err e) k bad h = bad e refl

    pub answered-Every :
        {C : Type 0} (k : C → Rpc B X I A) (x : Result (SessionError I) C)
        → ((e : SessionError I) → E (from_session reasons e))
        → ((c : C) → Every P U E (k c))
        → Every P U E (answered reasons k x)
    unfolding answered
    answered-Every k (ok c) bad h = h c
    answered-Every k (err e) bad h = bad e

    pub ask-Every :
        (r : Request B TxEnv) (k : Answered X r → Rpc B X I A)
        → ((e : SessionError I) → E (from_session reasons e))
        → P r
        → ((a : Answered X r) → Every P U E (k a))
        → Every P U E (ask reasons r k)
    unfolding ask
    ask-Every r k bad p h = (p, λ x. answered-Every k x bad h)

    env-Every :
        (k : BlockEnv → Rpc B X I A) (x : Result (SessionError I) BlockEnv)
        → ((env : BlockEnv) → Every P U E (k env))
        → Every P U E (env_or_managers k x)
    unfolding env_or_managers
    env-Every k (ok env) h = h env
    env-Every k (err e) h = h

    pub session_block_env-Every :
        (id : ℕ) (k : BlockEnv → Rpc B X I A)
        → P (Requests.session_block_env id)
        → ((env : BlockEnv) → Every P U E (k env))
        → Every P U E (session_block_env id k)
    unfolding session_block_env Answered
    session_block_env-Every id k p h = (p, λ x. env-Every k x h)

    pub to_u64-Every : (n : ℕ) (k : ℕ → Rpc B X I A) → Every P U E (k n) → Every P U E (to_u64 n k)
    unfolding to_u64
    to_u64-Every n k h = elim (Bool-cases (ltb n (2 ^ 64))) [
      | inl fits ↦ rw fits h
      | inr wide ↦ rw wide tt
    ]
