-- ===== src/Http/Transactions.antt =====
-- crates/api-http/src/lib.rs, `dispatch`: the transactions that the parameters of a call stand for.
use Prim.Native.String.{String, ◌++◌ as ◌+text+◌}
use forkyard.Base.{
  ℕ, ◌-◌, ◌^◌, List, [], Option, none, some, Result, ok, ◌>>=◌, map_err, if◌then◌else◌, ltb,
}
use forkyard.Http.Codec.{Codec, TxEnv, Legacy}
use forkyard.Http.Errors.{RpcErrorObj, invalid_params}
use forkyard.Http.Json.{Value, get_elem?}
use forkyard.Http.Params.{
  or_default, or_else, map_some, ok_or, traverse, trim_0x, field_str, parse_raw_tx, address_field,
  word_field,
}

abbrev pub estimate_gas_limit : ℕ
estimate_gas_limit = 16777216

-- `U256::saturating_to::<u64>`.
abbrev pub saturating_u64 : ℕ → ℕ
saturating_u64 n = if ltb n (2 ^ 64) then n else 2 ^ 64 - 1

unfoldable pub first_param : List Value → Result RpcErrorObj Value
unfolding invalid_params
first_param params = ok_or (invalid_params "missing call object") (get_elem? params 0)

abbrev pub only_legacy : String
only_legacy = "only legacy transactions are supported for now"

module _ {Envelope X : Type 0} (codec : Codec Envelope X) where
  -- The transaction of `eth_call`.
  unfoldable pub call_tx : ℕ → Value → Result RpcErrorObj TxEnv
  unfolding address_field word_field field_str trim_0x invalid_params
  call_tx chain_id given = do
    from ← address_field codec given "from"
    to ← address_field codec given "to"
    value ← word_field codec given "value"
    bytes ← map_err invalid_params (
        traverse (λ s. codec.decode_hex (trim_0x s))
          (or_else (field_str given "data") (field_str given "input")))
    gas ← word_field codec given "gas"
    ok (record {
      caller = or_default 0 from;
      kind = to;
      value = or_default 0 value;
      input = or_default [] bytes;
      gas_limit = or_default estimate_gas_limit (map_some saturating_u64 gas);
      gas_price = 0;
      nonce = none;
      chain_id = some chain_id;
    })

  -- The parts of the call given of `eth_estimateGas`.
  unfoldable pub estimate_parts : Value → Result RpcErrorObj (ℕ × Option ℕ × ℕ × List ℕ)
  unfolding address_field word_field field_str invalid_params
  estimate_parts given = do
    from ← address_field codec given "from"
    to ← address_field codec given "to"
    value ← word_field codec given "value"
    bytes ← map_err invalid_params (traverse codec.decode_hex (field_str given "data"))
    ok (or_default 0 from, to, or_default 0 value, or_default [] bytes)

  -- The signed transaction of `eth_sendRawTransaction`, with its sender.
  unfoldable pub signed_tx : List Value → Result RpcErrorObj (Legacy × ℕ)
  unfolding parse_raw_tx invalid_params
  signed_tx params = do
    raw ← parse_raw_tx codec params 0
    envelope ← map_err invalid_params (codec.decode_2718 raw)
    tx ← ok_or (invalid_params only_legacy) (codec.legacy envelope)
    sender ←
        map_err (λ e. invalid_params ("could not recover sender: " +text+ e))
          (codec.recover_signer envelope)
    ok (tx, sender)

unfoldable pub sent_tx : Legacy → ℕ → TxEnv
sent_tx tx sender = record {
  caller = sender;
  kind = tx.to;
  value = tx.value;
  input = tx.input;
  gas_limit = tx.gas_limit;
  gas_price = tx.gas_price;
  nonce = some tx.nonce;
  chain_id = tx.chain_id;
}
