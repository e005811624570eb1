-- ===== src/Http/Cleanly.antt =====
-- When a call of crates/api-http/src/lib.rs is refused only before it changes anything.
use forkyard.Base.{Result, ok, err, ◌≢◌, ◌⊎◌, inl, inr, arith}
use forkyard.Engine.Types.{BlockEnv}
use forkyard.Http.Codec.{TxEnv}
use forkyard.Http.Errors.{RpcErrorObj, Reasons, Reason, rejected, from_session}
use forkyard.Http.Every.{Every, ask-Every}
use forkyard.Http.ReadArms.{AnyError}
use forkyard.Http.ReadOnly.{Reading, Same}
use forkyard.Http.Receipts.{Table}
use forkyard.Http.Rpc.{Rpc, returns, refuses, panics, asks, manager_env, locked, try, answered, ask}
use forkyard.Sessions.Jobs.{SessionError}
use forkyard.Sessions.Requests.{Request, Answered}

-- Neither invalid parameters nor an unknown method.
abbrev pub NotParams : RpcErrorObj → Type 0
NotParams e = (e.code ≢ 32602) × (e.code ≢ 32601)

abbrev pub AnyRequest : {B : Type 0} → Request B TxEnv → Type 0
AnyRequest r = Unit

abbrev pub AnyChange : (Table → Table) → Type 0
AnyChange f = Unit

module _ {B X I A : Type 0} where
  abbrev pub Accepted : Rpc B X I A → Type 0
  Accepted = Every AnyRequest AnyChange NotParams

  -- Once something is asked for that may change a session, or the side table changes, the call is
  -- not refused for its parameters or its method any more.
  abbrev pub Clean : Rpc B X I A → Type 0
  Clean (returns a) = Unit
  Clean (refuses e) = Unit
  Clean panics = Unit
  Clean (asks r k) =
      (Reading r ⊎ ((x : Result (SessionError I) (Answered X r)) → Accepted (k x)))
      × ((x : Result (SessionError I) (Answered X r)) → Clean (k x))
  Clean (manager_env k) = (env : BlockEnv) → Clean (k env)
  Clean (locked f k) =
      (Same f ⊎ ((table : Table) → Accepted (k table))) × ((table : Table) → Clean (k table))

  pub Reading-Clean : (c : Rpc B X I A) → Every Reading Same AnyError c → Clean c
  Reading-Clean (returns a) h = tt
  Reading-Clean (refuses e) h = tt
  Reading-Clean panics h = tt
  Reading-Clean (asks r k) h = (inl h.0, λ x. Reading-Clean (k x) (h.1 x))
  Reading-Clean (manager_env k) h = λ env. Reading-Clean (k env) (h env)
  Reading-Clean (locked f k) h = (inl h.0, λ table. Reading-Clean (k table) (h.1 table))

  -- What is accepted from now on is clean.
  Accepted-Clean : (c : Rpc B X I A) → Accepted c → Clean c
  Accepted-Clean (returns a) h = tt
  Accepted-Clean (refuses e) h = tt
  Accepted-Clean panics h = tt
  Accepted-Clean (asks r k) h = (inr (λ x. h.1 x), λ x. Accepted-Clean (k x) (h.1 x))
  Accepted-Clean (manager_env k) h = λ env. Accepted-Clean (k env) (h env)
  Accepted-Clean (locked f k) h = (inr (λ t. h.1 t), λ t. Accepted-Clean (k t) (h.1 t))

  pub try-Clean :
      {C : Type 0} (r : Result RpcErrorObj C) (k : C → Rpc B X I A)
      → ((c : C) → Clean (k c))
      → Clean (try r k)
  unfolding try
  try-Clean (ok c) k h = h c
  try-Clean (err e) k h = tt

  answered-Clean :
      {C : Type 0} (reasons : Reasons I) (k : C → Rpc B X I A) (x : Result (SessionError I) C)
      → ((c : C) → Clean (k c))
      → Clean (answered reasons k x)
  unfolding answered
  answered-Clean reasons k (ok c) h = h c
  answered-Clean reasons k (err e) h = tt

module _ {I : Type 0} (reasons : Reasons I) where
  rejected-NotParams : (r : Reason) (e : SessionError I) → NotParams (rejected reasons r e)
  unfolding rejected
  rejected-NotParams Reason.gas_price_less_than_basefee e = (ground arith, ground arith)
  rejected-NotParams (Reason.lack_of_fund_for_max_fee fee balance) e = (ground arith, ground arith)
  rejected-NotParams Reason.another e = (ground arith, ground arith)

  from_session-NotParams : (e : SessionError I) → NotParams (from_session reasons e)
  unfolding from_session
  from_session-NotParams (SessionError.unknown id) = (ground arith, ground arith)
  from_session-NotParams (SessionError.execution msg) = (ground arith, ground arith)
  from_session-NotParams (SessionError.invalid_transaction i) =
      rejected-NotParams (reasons.reason i) (SessionError.invalid_transaction i)
  from_session-NotParams SessionError.worker_gone = (ground arith, ground arith)
  from_session-NotParams (SessionError.block_unavailable n why) = (ground arith, ground arith)
  from_session-NotParams (SessionError.snapshot why) = (ground arith, ground arith)

  module _ {B X A : Type 0} where
    -- A request after which nothing is refused for its parameters.
    ask-Accepted :
        (r : Request B TxEnv) (k : Answered X r → Rpc B X I A)
        → ((a : Answered X r) → Accepted (k a))
        → Accepted (ask reasons r k)
    ask-Accepted r k h =
        ask-Every AnyRequest AnyChange NotParams reasons r k from_session-NotParams tt h

    pub ask-Clean :
        (r : Request B TxEnv) (k : Answered X r → Rpc B X I A)
        → ((a : Answered X r) → Accepted (k a))
        → Clean (ask reasons r k)
    ask-Clean r k h = Accepted-Clean (ask reasons r k) (ask-Accepted r k h)

    -- A request that leaves everything as it is.
    pub look-Clean :
        (r : Request B TxEnv) (k : Answered X r → Rpc B X I A)
        → Reading r
        → ((a : Answered X r) → Clean (k a))
        → Clean (ask reasons r k)
    unfolding ask
    look-Clean r k reading h = (inl reading, λ x. answered-Clean reasons k x h)
