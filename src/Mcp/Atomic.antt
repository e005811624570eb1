-- ===== src/Mcp/Atomic.antt =====
-- When a tool of crates/api-mcp/src/lib.rs is refused only where it has changed nothing.
use forkyard.Base.{Result, ok, err, ◌⊎◌, inl, inr}
use forkyard.Http.Codec.{TxEnv}
use forkyard.Http.Errors.{Reasons}
use forkyard.Http.ReadOnly.{Reading}
use forkyard.Mcp.Every.{Every}
use forkyard.Mcp.Tool.{ErrorData, Tool, returns, refuses, asks, try, answered, ask}
use forkyard.Sessions.Jobs.{SessionError}
use forkyard.Sessions.Requests.{Request, Answered}

module _ {B X I A : Type 0} where
  -- It is refused in no case.
  abbrev pub Unrefused : Tool B X I A → Type 0
  Unrefused (returns a) = Unit
  Unrefused (refuses e) = ⊥
  Unrefused (asks r k) = (x : Result (SessionError I) (Answered X r)) → Unrefused (k x)

  -- Once a request that may change a session or write a file has succeeded, it is refused in no
  -- case.
  abbrev pub Atomic : Tool B X I A → Type 0
  Atomic (returns a) = Unit
  Atomic (refuses e) = Unit
  Atomic (asks r k) =
      (Reading r ⊎ ((a : Answered X r) → Unrefused (k (ok a))))
      × ((x : Result (SessionError I) (Answered X r)) → Atomic (k x))

  Unrefused-Atomic : (t : Tool B X I A) → Unrefused t → Atomic t
  Unrefused-Atomic (returns a) h = tt
  Unrefused-Atomic (refuses e) h = tt
  Unrefused-Atomic (asks r k) h = (inr (λ a. h (ok a)), λ x. Unrefused-Atomic (k x) (h x))

  pub Reading-Atomic : (t : Tool B X I A) → Every Reading t → Atomic t
  Reading-Atomic (returns a) h = tt
  Reading-Atomic (refuses e) h = tt
  Reading-Atomic (asks r k) h = (inl h.0, λ x. Reading-Atomic (k x) (h.1 x))

  pub try-Atomic :
      {C : Type 0} (r : Result ErrorData C) (k : C → Tool B X I A)
      → ((c : C) → Atomic (k c))
      → Atomic (try r k)
  unfolding try
  try-Atomic (ok c) k h = h c
  try-Atomic (err e) k h = tt

  module _ (reasons : Reasons I) where
    answered-Atomic :
        {C : Type 0} (k : C → Tool B X I A) (x : Result (SessionError I) C)
        → ((c : C) → Atomic (k c))
        → Atomic (answered reasons k x)
    unfolding answered
    answered-Atomic k (ok c) h = h c
    answered-Atomic k (err e) h = tt

    -- A request that leaves everything as it is.
    pub look-Atomic :
        (r : Request B TxEnv) (k : Answered X r → Tool B X I A)
        → Reading r
        → ((a : Answered X r) → Atomic (k a))
        → Atomic (ask reasons r k)
    unfolding ask
    look-Atomic r k reading h = (inl reading, λ x. answered-Atomic k x h)

    -- A request after which nothing is refused.
    pub change-Atomic :
        (r : Request B TxEnv) (k : Answered X r → Tool B X I A)
        → ((a : Answered X r) → Unrefused (k a))
        → Atomic (ask reasons r k)
    unfolding ask answered
    change-Atomic r k h =
        (inr (λ a. h a), λ x. answered-Atomic k x (λ a. Unrefused-Atomic (k a) (h a)))
