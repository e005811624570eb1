-- ===== src/Mcp/Every.antt =====
-- What holds of every request that a tool of crates/api-mcp/src/lib.rs makes.
use forkyard.Base.{ℕ, Bool, true, false, Option, none, some, Result, ok, err}
use forkyard.Http.Codec.{Codec, TxEnv}
use forkyard.Http.Errors.{Reasons, Reason}
use forkyard.Mcp.Args.{TransferArgs}
use forkyard.Mcp.Tool.{ErrorData, Tool, returns, refuses, asks, try, answered, ask}
use forkyard.Mcp.Transfers.{
  transfer_parts, priced, explained, explain_fee_error, reported, executed, run_transfer,
}
use forkyard.Sessions.Jobs.{SessionError}
use forkyard.Sessions.Requests.{Request, Answered}

-- What a transfer asks for in the end.
abbrev pub sent : {B : Type 0} → Bool → ℕ → TxEnv → Request B TxEnv
sent true id tx = Request.advance id tx
sent false id tx = Request.simulate id tx

module _ {B X I A : Type 0} where
  -- Each request is one of `P`, whatever the manager answers.
  abbrev pub Every : (Request B TxEnv → Type 0) → Tool B X I A → Type 0
  Every P (returns a) = Unit
  Every P (refuses e) = Unit
  Every P (asks r k) = P r × ((x : Result (SessionError I) (Answered X r)) → Every P (k x))

  module _ (P : Request B TxEnv → Type 0) where
    pub try-Every :
        {C : Type 0} (r : Result ErrorData C) (k : C → Tool B X I A)
        → ((c : C) → Every P (k c))
        → Every P (try r k)
    unfolding try
    try-Every (ok c) k h = h c
    try-Every (err e) k h = tt

    pub answered-Every :
        {C : Type 0} (reasons : Reasons I) (k : C → Tool B X I A) (x : Result (SessionError I) C)
        → ((c : C) → Every P (k c))
        → Every P (answered reasons k x)
    unfolding answered
    answered-Every reasons k (ok c) h = h c
    answered-Every reasons k (err e) h = tt

    pub ask-Every :
        (reasons : Reasons I) (r : Request B TxEnv) (k : Answered X r → Tool B X I A)
        → P r
        → ((a : Answered X r) → Every P (k a))
        → Every P (ask reasons r k)
    unfolding ask
    ask-Every reasons r k p h = (p, λ x. answered-Every reasons k x h)

module _ {B X I Envelope : Type 0} (codec : Codec Envelope X) (reasons : Reasons I)
    (P : Request B TxEnv → Type 0) (id : ℕ) (block : P (Request.session_block_env id)) where
  explained-Every :
      (reason : Reason) (e : SessionError I) (caller gas_price gas_limit : ℕ)
      → Every P (explained {B = B} {X = X} reasons reason id e caller gas_price gas_limit)
  unfolding explained
  explained-Every Reason.gas_price_less_than_basefee e caller gas_price gas_limit = (block, λ x. tt)
  explained-Every (Reason.lack_of_fund_for_max_fee fee balance) e caller gas_price gas_limit = tt
  explained-Every Reason.another e caller gas_price gas_limit = tt

  pub explain-Every :
      (e : SessionError I) (caller gas_price gas_limit : ℕ)
      → Every P (explain_fee_error {B = B} {X = X} reasons id e caller gas_price gas_limit)
  unfolding explain_fee_error
  explain-Every (SessionError.invalid_transaction i) caller gas_price gas_limit =
      explained-Every (reasons.reason i) (SessionError.invalid_transaction i) caller gas_price
        gas_limit
  explain-Every _ caller gas_price gas_limit = tt

  reported-Every :
      (caller gas_price gas_limit : ℕ) (x : Result (SessionError I) X)
      → Every P (reported {B = B} reasons codec id caller gas_price gas_limit x)
  unfolding reported
  reported-Every caller gas_price gas_limit (ok result) = tt
  reported-Every caller gas_price gas_limit (err e) = explain-Every e caller gas_price gas_limit

module _ {B X I Envelope : Type 0} (codec : Codec Envelope X) (reasons : Reasons I)
    (P : Request B TxEnv → Type 0) (args : TransferArgs)
    (block : P (Request.session_block_env args.session_id)) where
  executed-Every :
      (commit : Bool) (tx : TxEnv)
      → P (sent commit args.session_id tx)
      → Every P (executed reasons codec args commit tx)
  unfolding executed Answered
  executed-Every true tx h = (h, reported-Every codec reasons P args.session_id block _ _ _)
  executed-Every false tx h = (h, reported-Every codec reasons P args.session_id block _ _ _)

  priced-Every :
      (price : Option ℕ) (k : ℕ → Tool B X I _)
      → ((n : ℕ) → Every P (k n))
      → Every P (priced reasons args.session_id price k)
  unfolding priced Answered
  priced-Every (some n) k h = h n
  priced-Every none k h =
      ask-Every P reasons (Request.session_block_env args.session_id) _ block (λ env. h env.basefee)

  pub run_transfer-Every :
      (commit : Bool)
      → ((tx : TxEnv) → P (sent commit args.session_id tx))
      → Every P (run_transfer reasons codec args commit)
  unfolding run_transfer
  run_transfer-Every commit h =
      try-Every P (transfer_parts codec args) _
        (λ parts. priced-Every args.gas_price _ (λ n. executed-Every commit _ (h _)))
