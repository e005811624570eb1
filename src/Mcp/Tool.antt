-- ===== src/Mcp/Tool.antt =====
-- What is left of a tool call of crates/api-mcp/src/lib.rs: what it asks the manager.
use Prim.Native.String.{String}
use forkyard.Base.{Result, ok, err}
use forkyard.Http.Codec.{TxEnv}
use forkyard.Http.Errors.{Reasons, to_string}
use forkyard.Sessions.Jobs.{SessionError}
use forkyard.Sessions.Requests.{Request, Answered}

-- rmcp's `ErrorData`, by the function that makes it.
pub data ErrorData : Type 0 where
  invalid_params : String → ErrorData
  internal_error : String → ErrorData

pub data Tool (B X I A : Type 0) : Type 0 where
  returns : A → Tool B X I A
  refuses : ErrorData → Tool B X I A
  asks :
      (r : Request B TxEnv) → (Result (SessionError I) (Answered X r) → Tool B X I A) → Tool B X I A

unfoldable pub tool_err : {I : Type 0} → Reasons I → SessionError I → ErrorData
unfolding to_string
tool_err reasons e = internal_error (to_string reasons e)

module _ {B X I A : Type 0} where
  -- `?` on a result that is at hand.
  unfoldable pub try : {C : Type 0} → Result ErrorData C → (C → Tool B X I A) → Tool B X I A
  try (ok c) k = k c
  try (err e) k = refuses e

  unfoldable pub answered :
      {C : Type 0} → Reasons I → (C → Tool B X I A) → Result (SessionError I) C → Tool B X I A
  unfolding tool_err
  answered reasons k (ok c) = k c
  answered reasons k (err e) = refuses (tool_err reasons e)

  -- `.await.map_err(tool_err)?`
  unfoldable pub ask :
      Reasons I → (r : Request B TxEnv) → (Answered X r → Tool B X I A) → Tool B X I A
  unfolding answered
  ask reasons r k = asks r (answered reasons k)
