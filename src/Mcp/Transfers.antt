-- ===== src/Mcp/Transfers.antt =====
-- crates/api-mcp/src/lib.rs: `run_transfer` and what it uses.
use Prim.Native.String.{String, ◌++◌ as ◌+text+◌}
use forkyard.Base.{ℕ, ◌*◌, List, [], Bool, true, false, Option, none, some, Result, ok, err, ◌>>=◌}
use forkyard.Engine.Types.{BlockEnv}
use forkyard.Http.Codec.{Codec, TxEnv, TxKind, Outcome, success, revert, halt, is_success}
use forkyard.Http.Digits.{plain, address_hex}
use forkyard.Http.Errors.{
  Reasons, Reason, gas_price_less_than_basefee, lack_of_fund_for_max_fee, another,
}
use forkyard.Mcp.Args.{TransferArgs, parse_address, parse_bytes_hex, parse_u256_hex}
use forkyard.Mcp.Tool.{ErrorData, invalid_params, Tool, returns, refuses, asks, tool_err, try, ask}
use forkyard.Sessions.Jobs.{SessionError}
use forkyard.Sessions.Requests
use forkyard.Sessions.Requests.{Answered}

abbrev pub shown_bool : Bool → String
shown_bool true = "true"
shown_bool false = "false"

module _ {Envelope X : Type 0} (codec : Codec Envelope X) where
  unfoldable pub output_text : Outcome → String
  output_text (success output) = "0x" +text+ codec.encode_hex output
  output_text (revert output) = "0x" +text+ codec.encode_hex output
  output_text (halt reason) = ""

  unfoldable pub created_text : Option ℕ → String
  unfolding address_hex
  created_text none = ""
  created_text (some a) = ",\"contract_address\":\"" +text+ (address_hex a +text+ "\"")

  unfoldable pub render_result : X → String
  unfolding output_text created_text plain
  render_result result =
      "{\"success\":"
      +text+ (shown_bool (is_success (codec.outcome result))
          +text+ (",\"gas_used\":"
              +text+ (plain (codec.tx_gas_used result)
                  +text+ (",\"output\":\""
                      +text+ (output_text (codec.outcome result)
                          +text+ ("\""
                              +text+ (created_text (codec.created_address result) +text+ "}")))))))

  -- `kind`: no `to` is a deploy.
  unfoldable pub kind_of : Option String → Result ErrorData TxKind
  unfolding parse_address
  kind_of none = ok none
  kind_of (some to) = parse_address codec to >>= λ a. ok (some a)

  unfoldable pub data_of : Option String → Result ErrorData (List ℕ)
  unfolding parse_bytes_hex
  data_of none = ok []
  data_of (some text) = parse_bytes_hex codec text

  -- The sender, the recipient, the value and the data of a transfer, parsed in this order.
  unfoldable pub transfer_parts : TransferArgs → Result ErrorData (ℕ × TxKind × ℕ × List ℕ)
  unfolding parse_address kind_of parse_u256_hex data_of
  transfer_parts args = do
    from ← parse_address codec args.from
    kind ← kind_of args.to
    value ← parse_u256_hex codec args.value
    input ← data_of args.calldata
    ok (from, kind, value, input)

-- The transaction that is built.
unfoldable pub transfer_tx : TransferArgs → ℕ × TxKind × ℕ × List ℕ → ℕ → TxEnv
transfer_tx args parts gas_price = record {
  caller = parts.0;
  kind = parts.1;
  value = parts.2;
  input = parts.3;
  gas_limit = args.gas_limit;
  gas_price = gas_price;
  nonce = some args.nonce;
  chain_id = none;
}

unfoldable pub basefee_or_default : {I : Type 0} → Result (SessionError I) BlockEnv → ℕ
basefee_or_default (ok env) = env.basefee
basefee_or_default (err e) = 0

-- The advice on a price that is too low.
unfoldable pub price_advice : ℕ → ℕ → ErrorData
unfolding plain
price_advice gas_price basefee = invalid_params (
    "gas_price "
    +text+ (plain gas_price
        +text+ (" is below this fork's basefee of "
            +text+ (plain basefee
                +text+ (" - pass gas_price of at least "
                    +text+ (plain basefee
                        +text+ ", or omit gas_price entirely to price at the basefee automatically"))))))

-- The advice on a sender that has too little.
unfoldable pub funds_advice : ℕ → ℕ → ℕ → ℕ → ℕ → ErrorData
unfolding plain address_hex
funds_advice caller gas_price gas_limit fee balance = invalid_params (
    "sender "
    +text+ (address_hex caller
        +text+ (" holds "
            +text+ (plain balance
                +text+ (" wei, but this transaction needs "
                    +text+ (plain fee
                        +text+ (" wei in total: gas_limit * gas_price = "
                            +text+ (plain gas_limit
                                +text+ (" * "
                                    +text+ (plain gas_price
                                        +text+ (" = "
                                            +text+ (plain (gas_limit * gas_price)
                                                +text+ " wei of gas, plus the value sent; fund it with set_balance, or lower gas_limit"))))))))))))

module _ {B X I : Type 0} (reasons : Reasons I) where
  unfoldable pub basefee_of : ℕ → (ℕ → Tool B X I String) → Tool B X I String
  unfolding ask Answered
  basefee_of id k = ask reasons (Requests.session_block_env id) (λ env. k env.basefee)

  -- The price given, or the session's own basefee.
  unfoldable pub priced : ℕ → Option ℕ → (ℕ → Tool B X I String) → Tool B X I String
  unfolding basefee_of
  priced id (some price) k = k price
  priced id none k = basefee_of id k

  unfoldable pub explained : Reason → ℕ → SessionError I → ℕ → ℕ → ℕ → Tool B X I String
  unfolding tool_err price_advice funds_advice basefee_or_default Answered
  explained gas_price_less_than_basefee id error caller gas_price gas_limit =
      asks (Requests.session_block_env id)
        (λ found. refuses (price_advice gas_price (basefee_or_default found)))
  explained (lack_of_fund_for_max_fee fee balance) id error caller gas_price gas_limit =
      refuses (funds_advice caller gas_price gas_limit fee balance)
  explained another id error caller gas_price gas_limit = refuses (tool_err reasons error)

  unfoldable pub explain_fee_error : ℕ → SessionError I → ℕ → ℕ → ℕ → Tool B X I String
  unfolding explained tool_err
  explain_fee_error id (SessionError.invalid_transaction i) caller gas_price gas_limit =
      explained (reasons.reason i) id (SessionError.invalid_transaction i) caller gas_price
        gas_limit
  explain_fee_error id error caller gas_price gas_limit = refuses (tool_err reasons error)

  module _ {Envelope : Type 0} (codec : Codec Envelope X) where
    unfoldable pub reported : ℕ → ℕ → ℕ → ℕ → Result (SessionError I) X → Tool B X I String
    unfolding explain_fee_error render_result
    reported id caller gas_price gas_limit (ok result) = returns (render_result codec result)
    reported id caller gas_price gas_limit (err e) =
        explain_fee_error id e caller gas_price gas_limit

    unfoldable pub executed : TransferArgs → Bool → TxEnv → Tool B X I String
    unfolding reported Answered
    executed args true tx =
        asks (Requests.advance args.session_id tx)
          (reported args.session_id tx.caller tx.gas_price args.gas_limit)
    executed args false tx =
        asks (Requests.simulate args.session_id tx)
          (reported args.session_id tx.caller tx.gas_price args.gas_limit)

    unfoldable pub run_transfer : TransferArgs → Bool → Tool B X I String
    unfolding try transfer_parts priced transfer_tx executed
    run_transfer args commit = try (transfer_parts codec args) (λ parts.
        priced args.session_id args.gas_price
          (λ gas_price. executed args commit (transfer_tx args parts gas_price)))
