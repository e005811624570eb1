-- ===== src/Mcp/Pricing.antt =====
-- crates/api-mcp/src/lib.rs, `run_transfer`: the price of a transfer that is given none, and the
-- advice on one whose price is too low.
use Prim.Native.String.{String}
use forkyard.Base.{
  ℕ, List, Bool, true, false, Option, none, some, Result, ok, err, ◌≡◌, sym, ap, ◌∙◌,
}
use forkyard.Engine.Types.{BlockEnv}
use forkyard.Http.Codec.{Codec, TxEnv, TxKind}
use forkyard.Http.Errors.{Reasons, Reason, gas_price_less_than_basefee}
use forkyard.Http.Run.{Manager, AtBlock}
use forkyard.Mcp.Args.{TransferArgs}
use forkyard.Mcp.Tool.{ErrorData, Tool, returns, refuses, asks, try, answered, ask}
use forkyard.Mcp.Transfers.{
  transfer_parts, transfer_tx, basefee_or_default, price_advice, priced, explained,
  explain_fee_error, reported, executed, run_transfer,
}
use forkyard.Sessions.Jobs.{SessionError}
use forkyard.Sessions.Requests
use forkyard.Sessions.Requests.{Request, Answered}

-- The manager refuses to run the transaction, as revm finds it invalid for a reason.
abbrev pub Rejects : {B I : Type 0} (X : Type 0) → Manager B X I → Bool → ℕ → TxEnv → I → Type 0
unfolding Answered
Rejects X manager true id tx i =
    manager (Requests.advance id tx) ≡ err (SessionError.invalid_transaction i)
Rejects X manager false id tx i =
    manager (Requests.simulate id tx) ≡ err (SessionError.invalid_transaction i)

module _ {B X I A : Type 0} (manager : Manager B X I) where
  -- A tool that runs alone, against a manager that answers by a function.
  unfoldable pub run : Tool B X I A → Result ErrorData A
  run (returns a) = ok a
  run (refuses e) = err e
  run (asks r k) = run (k (manager r))

  run-try :
      {C : Type 0} (r : Result ErrorData C) (k : C → Tool B X I A) (c : C)
      → r ≡ ok c
      → run (try r k) ≡ run (k c)
  unfolding try
  run-try r k c e = ap (λ x. run (try x k)) e

module _ {B Envelope X I : Type 0} (codec : Codec Envelope X) (reasons : Reasons I)
    (manager : Manager B X I) (id : ℕ) (env : BlockEnv) (at_block : AtBlock X manager id env) where
  run-priced :
      (k : ℕ → Tool B X I String)
      → run manager (priced reasons id none k) ≡ run manager (k env.basefee)
  unfolding priced run ask answered Answered
  run-priced k = ap (λ x. run manager (answered reasons (λ env. k env.basefee) x)) at_block

  run-explained :
      (reason : Reason) (e : SessionError I) (caller gas_price gas_limit : ℕ)
      → reason ≡ gas_price_less_than_basefee
      → run manager (explained {B = B} {X = X} reasons reason id e caller gas_price gas_limit)
        ≡ err (price_advice gas_price env.basefee)
  unfolding explained run basefee_or_default Answered
  run-explained reason e caller gas_price gas_limit h =
      ap (λ x. run manager (explained {B = B} {X = X} reasons x id e caller gas_price gas_limit)) h
      ∙ ap (λ x. err (price_advice gas_price (basefee_or_default x))) at_block

module _ {B Envelope X I : Type 0} (codec : Codec Envelope X) (reasons : Reasons I)
    (manager : Manager B X I) (args : TransferArgs) (env : BlockEnv)
    (at_block : AtBlock X manager args.session_id env) (parts : ℕ × TxKind × ℕ × List ℕ)
    (parsed : transfer_parts codec args ≡ ok parts) where
  -- The tool at a price, or without one.
  abbrev at_price : Bool → Option ℕ → Result ErrorData String
  at_price commit price =
      run manager (run_transfer reasons codec (record args { gas_price = price }) commit)

  run-executed :
      (commit : Bool) (gas_price : ℕ) (i : I)
      → reasons.reason i ≡ gas_price_less_than_basefee
      → Rejects X manager commit args.session_id (transfer_tx args parts gas_price) i
      → run manager (executed reasons codec args commit (transfer_tx args parts gas_price))
        ≡ err (price_advice gas_price env.basefee)
  unfolding executed run reported explain_fee_error transfer_tx Answered
  run-executed true gas_price i low rejected =
      ap
        (λ x.
          run manager
            (reported {B = B} reasons codec args.session_id parts.0 gas_price args.gas_limit x))
        rejected
      ∙ run-explained codec reasons manager args.session_id env at_block (reasons.reason i) _ _ _ _
          low
  run-executed false gas_price i low rejected =
      ap
        (λ x.
          run manager
            (reported {B = B} reasons codec args.session_id parts.0 gas_price args.gas_limit x))
        rejected
      ∙ run-explained codec reasons manager args.session_id env at_block (reasons.reason i) _ _ _ _
          low

  given_price :
      (commit : Bool) (gas_price : ℕ)
      → at_price commit (some gas_price)
        ≡ run manager (executed reasons codec args commit (transfer_tx args parts gas_price))
  unfolding run_transfer transfer_parts priced executed transfer_tx
  given_price commit gas_price = run-try manager (transfer_parts codec args) _ parts parsed

  -- Where the text arguments of a transfer are valid and the block of its session is answered: without
  -- a price it does what it does at the basefee of that block.
  pub omitted_price : (commit : Bool) → at_price commit none ≡ at_price commit (some env.basefee)
  unfolding run_transfer transfer_parts priced executed transfer_tx
  omitted_price commit =
      run-try manager (transfer_parts codec args) _ parts parsed
      ∙ run-priced codec reasons manager args.session_id env at_block
          (λ n. executed reasons codec args commit (transfer_tx args parts n))
      ∙ sym (run-try manager (transfer_parts codec args) _ parts parsed)

  -- Where the text arguments of a transfer are valid and the block of its session is answered: at a
  -- price at which the manager rejects the transfer as below the basefee, it is refused with the advice
  -- that names this price and this basefee, whether it is to be committed or not.
  pub low_price :
      (commit : Bool) (gas_price : ℕ) (i : I)
      → reasons.reason i ≡ gas_price_less_than_basefee
      → Rejects X manager commit args.session_id (transfer_tx args parts gas_price) i
      → at_price commit (some gas_price) ≡ err (price_advice gas_price env.basefee)
  low_price commit gas_price i low rejected =
      given_price commit gas_price ∙ run-executed commit gas_price i low rejected
