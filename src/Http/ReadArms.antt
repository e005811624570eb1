-- ===== src/Http/ReadArms.antt =====
-- The methods of `dispatch` in crates/api-http/src/lib.rs that only read, one by one: what they
-- ask.
use forkyard.Base.{ℕ, ◌+◌, List, Bool, true, false, ◌>>=◌, ◌≡◌, Bool-cases, inl, inr}
use forkyard.Http.Codec.{Codec, TxEnv, Outcome, success, revert, halt, is_success}
use forkyard.Http.Errors.{RpcErrorObj, Reasons}
use forkyard.Http.Every.{Every, try-Every, ask-Every, session_block_env-Every, to_u64-Every}
use forkyard.Http.Digits.{hex}
use forkyard.Http.Json.{Value, string}
use forkyard.Http.Methods.{
  RpcMethod, eth_chain_id, eth_block_number, eth_gas_price, eth_get_balance,
  eth_get_transaction_count, eth_call, eth_get_storage_at, eth_get_code, eth_send_raw_transaction,
  eth_send_raw_transaction_sync, eth_get_transaction_receipt, eth_estimate_gas,
  forkyard_set_balance, forkyard_set_storage_at, forkyard_fork_from, forkyard_snapshot,
  forkyard_discard,
}
use forkyard.Http.Params.{param_str, parse_address, parse_word}
use forkyard.Http.Reads
use forkyard.Http.Reads.{called, estimated}
use forkyard.Http.Receipts.{Table}
use forkyard.Http.Rpc.{returns}
use forkyard.Http.Surface.{handled}
use forkyard.Http.Transactions.{first_param, call_tx, estimate_parts}
use forkyard.Sessions.Requests
use forkyard.Sessions.Requests.{Request, Answered}

-- The methods that read.
abbrev pub is_read : RpcMethod → Bool
is_read eth_chain_id = true
is_read eth_block_number = true
is_read eth_gas_price = true
is_read eth_get_balance = true
is_read eth_get_transaction_count = true
is_read eth_get_storage_at = true
is_read eth_get_code = true
is_read eth_get_transaction_receipt = true
is_read eth_call = true
is_read eth_estimate_gas = true
is_read _ = false

abbrev pub AnyError : RpcErrorObj → Type 0
AnyError e = Unit

-- The requests that the methods that read make about a session.
abbrev pub Peeks : {B : Type 0} → ℕ → (Request B TxEnv → Type 0) → Type 0
Peeks id P =
    P (Requests.session_block_env id)
    × ((address : ℕ) → P (Requests.basic id address))
    × ((address key : ℕ) → P (Requests.storage id address key))
    × ((address : ℕ) → P (Requests.code id address))
    × ((tx : TxEnv) → P (Requests.call id tx))
    × ((tx : TxEnv) → P (Requests.estimate_gas id tx))

module _ {B Envelope X I : Type 0} (codec : Codec Envelope X) (reasons : Reasons I)
    (P : Request B TxEnv → Type 0) (U : (Table → Table) → Type 0) (id : ℕ) (peeks : Peeks id P)
    (same : U (λ table. table)) where
  pub block_number-Every : Every {X = X} {I = I} P U AnyError (Reads.block_number id)
  unfolding Reads.block_number Reads.real_block_number
  block_number-Every = (
    same,
    λ table. session_block_env-Every P U AnyError reasons id _ peeks.0 (λ env.
        to_u64-Every P U AnyError reasons env.number
          (λ start. returns (string (hex (Reads.u64 (start + Reads.sent_count id table))))) tt),
  )

  pub gas_price-Every : Every {X = X} {I = I} P U AnyError (Reads.gas_price id)
  unfolding Reads.gas_price
  gas_price-Every = session_block_env-Every P U AnyError reasons id _ peeks.0 (λ env. tt)

  pub get_receipt-Every :
      (params : List Value) → Every {X = X} {I = I} P U AnyError (Reads.get_receipt id params)
  unfolding Reads.get_receipt
  get_receipt-Every params =
      try-Every P U AnyError reasons (param_str params 0) _ (λ e h. tt)
        (λ hash. (same, λ table. tt))

  pub get_balance-Every :
      (params : List Value) → Every P U AnyError (Reads.get_balance codec reasons id params)
  unfolding Reads.get_balance
  get_balance-Every params =
      try-Every P U AnyError reasons (parse_address codec params 0) _ (λ e h. tt)
        (λ address.
          ask-Every P U AnyError reasons (Requests.basic id address) _ (λ e. tt) (peeks.1 address)
            (λ info. tt))

  pub get_transaction_count-Every :
      (params : List Value)
      → Every P U AnyError (Reads.get_transaction_count codec reasons id params)
  unfolding Reads.get_transaction_count
  get_transaction_count-Every params =
      try-Every P U AnyError reasons (parse_address codec params 0) _ (λ e h. tt)
        (λ address.
          ask-Every P U AnyError reasons (Requests.basic id address) _ (λ e. tt) (peeks.1 address)
            (λ info. tt))

  pub get_storage_at-Every :
      (params : List Value) → Every P U AnyError (Reads.get_storage_at codec reasons id params)
  unfolding Reads.get_storage_at
  get_storage_at-Every params =
      try-Every P U AnyError reasons (parse_address codec params 0) _ (λ e h. tt)
        (λ address.
          try-Every P U AnyError reasons (parse_word codec params 1) _ (λ e h. tt)
            (λ slot.
              ask-Every P U AnyError reasons (Requests.storage id address slot) _ (λ e. tt)
                (peeks.2 address slot) (λ value. tt)))

  pub get_code-Every :
      (params : List Value) → Every P U AnyError (Reads.get_code codec reasons id params)
  unfolding Reads.get_code
  get_code-Every params =
      try-Every P U AnyError reasons (parse_address codec params 0) _ (λ e h. tt)
        (λ address.
          ask-Every P U AnyError reasons (Requests.code id address) _ (λ e. tt) (peeks.3 address)
            (λ code. tt))

  pub called-Every :
      (o : Outcome) → Every {B = B} {X = X} {I = I} P U AnyError (called codec reasons o)
  unfolding called
  called-Every (success output) = tt
  called-Every (revert output) = tt
  called-Every (halt why) = tt

  pub call-Every :
      (chain_id : ℕ) (params : List Value)
      → Every P U AnyError (Reads.call codec reasons chain_id id params)
  unfolding Reads.call
  call-Every chain_id params =
      try-Every P U AnyError reasons (first_param params >>= call_tx codec chain_id) _ (λ e h. tt)
        (λ tx.
          ask-Every P U AnyError reasons (Requests.call id tx) _ (λ e. tt) (peeks.4 tx)
            (λ result. unfold Answered in called-Every (codec.outcome result)))

  pub estimated-Every : (x : X) → Every {B = B} {I = I} P U AnyError (estimated codec reasons x)
  unfolding estimated
  estimated-Every x = elim (Bool-cases (is_success (codec.outcome x))) [
    | inl good ↦ rw good tt
    | inr bad ↦ rw bad tt
  ]

  pub estimate_gas-Every :
      (params : List Value) → Every P U AnyError (Reads.estimate_gas codec reasons id params)
  unfolding Reads.estimate_gas
  estimate_gas-Every params =
      try-Every P U AnyError reasons (first_param params >>= estimate_parts codec) _ (λ e h. tt)
        (λ parts.
          ask-Every P U AnyError reasons (Requests.basic id parts.0) _ (λ e. tt) (peeks.1 parts.0)
            (λ info.
              ask-Every P U AnyError reasons (Requests.estimate_gas id _) _ (λ e. tt) (peeks.5 _)
                (λ x. unfold Answered in estimated-Every x)))

  chain_id_of-Every :
      (chain_id : ℕ) → Every {B = B} {X = X} {I = I} P U AnyError (Reads.chain_id_of chain_id)
  unfolding Reads.chain_id_of
  chain_id_of-Every chain_id = tt

  -- The methods that only read.
  pub reads-Every :
      (chain_id : ℕ) (method : RpcMethod) (params : List Value)
      → is_read method ≡ true
      → Every P U AnyError (handled codec reasons chain_id method id params)
  unfolding handled
  reads-Every chain_id eth_chain_id params r = chain_id_of-Every chain_id
  reads-Every chain_id eth_block_number params r = block_number-Every
  reads-Every chain_id eth_gas_price params r = gas_price-Every
  reads-Every chain_id eth_get_balance params r = get_balance-Every params
  reads-Every chain_id eth_get_transaction_count params r = get_transaction_count-Every params
  reads-Every chain_id eth_get_storage_at params r = get_storage_at-Every params
  reads-Every chain_id eth_get_code params r = get_code-Every params
  reads-Every chain_id eth_get_transaction_receipt params r = get_receipt-Every params
  reads-Every chain_id eth_call params r = call-Every chain_id params
  reads-Every chain_id eth_estimate_gas params r = estimate_gas-Every params
  reads-Every chain_id eth_send_raw_transaction params r = cc
  reads-Every chain_id eth_send_raw_transaction_sync params r = cc
  reads-Every chain_id forkyard_set_balance params r = cc
  reads-Every chain_id forkyard_set_storage_at params r = cc
  reads-Every chain_id forkyard_fork_from params r = cc
  reads-Every chain_id forkyard_snapshot params r = cc
  reads-Every chain_id forkyard_discard params r = cc
