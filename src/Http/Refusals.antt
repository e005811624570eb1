-- ===== src/Http/Refusals.antt =====
-- crates/api-http/src/lib.rs, `dispatch`: a call that is refused for its parameters has changed
-- nothing.
use Prim.Native.String.{String}
use forkyard.Base.{ℕ, List, Bool, true, false, Option, none, some, ◌≡◌, refl}
use forkyard.Engine.Types.{AccountInfo, default_account}
use forkyard.Http.Codec.{Codec}
use forkyard.Http.Errors.{Reasons}
use forkyard.Http.Every.{session_block_env-Every, to_u64-Every}
use forkyard.Http.Json.{Value}
use forkyard.Http.Methods.{
  RpcMethod, parse, eth_chain_id, eth_block_number, eth_gas_price, eth_get_balance,
  eth_get_transaction_count, eth_call, eth_get_storage_at, eth_get_code, eth_send_raw_transaction,
  eth_send_raw_transaction_sync, eth_get_transaction_receipt, eth_estimate_gas,
  forkyard_set_balance, forkyard_set_storage_at, forkyard_fork_from, forkyard_snapshot,
  forkyard_discard,
}
use forkyard.Http.Params.{or_default, parse_address, parse_word}
use forkyard.Http.ReadArms.{is_read, reads-Every}
use forkyard.Http.ReadOnly.{Reading, Same}
use forkyard.Http.Surface.{dispatch, dispatched, handled}
use forkyard.Http.Transactions.{signed_tx, sent_tx}
use forkyard.Http.Writes
use forkyard.Sessions.Requests.{Request, Answered}
use forkyard.Http.Cleanly.{
  Clean, Reading-Clean, try-Clean, ask-Clean, look-Clean, AnyRequest, AnyChange, NotParams,
}

module _ (B : Type 0) {Envelope X I : Type 0} (codec : Codec Envelope X) (reasons : Reasons I)
    (id : ℕ) where
  set_balance-Clean :
      (params : List Value) → Clean {B = B} (Writes.set_balance codec reasons id params)
  unfolding Writes.set_balance
  set_balance-Clean params = try-Clean (parse_address codec params 0) _ (λ address.
      try-Clean (parse_word codec params 1) _ (λ balance.
        look-Clean reasons (Request.basic id address) _ tt (λ found.
          unfold Answered in
          let info : AccountInfo B = or_default default_account found in
          ask-Clean reasons (Request.set_account id address (record info { balance = balance })) _
            (λ w. tt))))

  set_storage_at-Clean :
      (params : List Value) → Clean {B = B} (Writes.set_storage_at codec reasons id params)
  unfolding Writes.set_storage_at
  set_storage_at-Clean params = try-Clean (parse_address codec params 0) _ (λ address.
      try-Clean (parse_word codec params 1) _ (λ key.
        try-Clean (parse_word codec params 2) _
          (λ value. (ask-Clean reasons (Request.set_storage id address key value) _ (λ w. tt)))))

  send-Clean :
      (sync : Bool) (params : List Value)
      → Clean {B = B} (Writes.send_raw_transaction codec reasons sync id params)
  unfolding Writes.send_raw_transaction Writes.kept Answered
  send-Clean sync params = try-Clean (signed_tx codec params) _ (λ signed.
      (ask-Clean reasons (Request.advance id (sent_tx signed.0 signed.1)) _ (λ result.
        session_block_env-Every AnyRequest AnyChange NotParams reasons id _ tt (λ env.
          to_u64-Every AnyRequest AnyChange NotParams reasons env.number
            (Writes.kept codec reasons sync id signed.0 signed.1 result) (tt, λ table. tt)))))

  fork_from-Clean : Clean {B = B} (Writes.fork_from {X = X} reasons id)
  unfolding Writes.fork_from
  fork_from-Clean = (ask-Clean reasons (Request.fork_from id) _ (λ child. (tt, λ table. tt)))

  snapshot-Clean : Clean {B = B} (Writes.snapshot {X = X} reasons id)
  unfolding Writes.snapshot
  snapshot-Clean = (ask-Clean reasons (Request.snapshot id) _ (λ info. tt))

  discard-Clean : Clean {B = B} (Writes.discard {X = X} reasons id)
  unfolding Writes.discard
  discard-Clean = (ask-Clean reasons (Request.discard id) _ (λ w. (tt, λ table. tt)))

  read-Clean :
      (chain_id : ℕ) (method : RpcMethod) (params : List Value)
      → is_read method ≡ true
      → Clean {B = B} (handled codec reasons chain_id method id params)
  read-Clean chain_id method params r =
      Reading-Clean (handled codec reasons chain_id method id params) (
        reads-Every codec reasons Reading Same id
          (tt, λ a. tt, λ a k. tt, λ a. tt, λ tx. tt, λ tx. tt) (λ table. refl) chain_id method
          params r)

  handled-Clean :
      (chain_id : ℕ) (method : RpcMethod) (params : List Value)
      → Clean {B = B} (handled codec reasons chain_id method id params)
  unfolding handled
  handled-Clean chain_id forkyard_set_balance params = set_balance-Clean params
  handled-Clean chain_id forkyard_set_storage_at params = set_storage_at-Clean params
  handled-Clean chain_id forkyard_fork_from params = fork_from-Clean
  handled-Clean chain_id forkyard_snapshot params = snapshot-Clean
  handled-Clean chain_id forkyard_discard params = discard-Clean
  handled-Clean chain_id eth_send_raw_transaction params = send-Clean false params
  handled-Clean chain_id eth_send_raw_transaction_sync params = send-Clean true params
  handled-Clean chain_id eth_chain_id params = read-Clean chain_id eth_chain_id params refl
  handled-Clean chain_id eth_block_number params = read-Clean chain_id eth_block_number params refl
  handled-Clean chain_id eth_gas_price params = read-Clean chain_id eth_gas_price params refl
  handled-Clean chain_id eth_get_balance params = read-Clean chain_id eth_get_balance params refl
  handled-Clean chain_id eth_get_transaction_count params =
      read-Clean chain_id eth_get_transaction_count params refl
  handled-Clean chain_id eth_get_storage_at params =
      read-Clean chain_id eth_get_storage_at params refl
  handled-Clean chain_id eth_get_code params = read-Clean chain_id eth_get_code params refl
  handled-Clean chain_id eth_get_transaction_receipt params =
      read-Clean chain_id eth_get_transaction_receipt params refl
  handled-Clean chain_id eth_call params = read-Clean chain_id eth_call params refl
  handled-Clean chain_id eth_estimate_gas params = read-Clean chain_id eth_estimate_gas params refl

  dispatched-Clean :
      (chain_id : ℕ) (name : String) (method : Option RpcMethod) (params : List Value)
      → Clean {B = B} (dispatched codec reasons chain_id name method id params)
  unfolding dispatched
  dispatched-Clean chain_id name none params = tt
  dispatched-Clean chain_id name (some method) params = handled-Clean chain_id method params

  -- Whatever the manager answers in between, once a call has asked for something that may change a
  -- session or write a file, or has changed the side table, it is refused with neither of the codes
  -- for invalid parameters and unknown methods.
  pub dispatch-Clean :
      (chain_id : ℕ) (name : String) (params : List Value)
      → Clean {B = B} (dispatch codec reasons chain_id id name params)
  unfolding dispatch
  dispatch-Clean chain_id name params = dispatched-Clean chain_id name (parse name) params
