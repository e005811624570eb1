-- ===== src/Http/Surface.antt =====
-- crates/api-http/src/lib.rs: `dispatch`, `rpc_handler` and `open_session`.
use Prim.Native.String.{String, ◌++◌ as ◌+text+◌}
use forkyard.Base.{
  ℕ, List, [], ◌∷◌, Bool, ◌&&◌, ◌||◌, ◌==◌, if◌then◌else◌, true, false, Option, none, some, Result,
  ok, err,
}
use forkyard.Http.Codec.{Codec}
use forkyard.Http.Errors.{Reasons, method_not_found, to_string}
use forkyard.Http.Json.{Value, number, string, object, end, field}
use forkyard.Http.Methods.{
  RpcMethod, parse, eth_chain_id, eth_block_number, eth_gas_price, eth_get_balance,
  eth_get_transaction_count, eth_call, eth_get_storage_at, eth_get_code, eth_send_raw_transaction,
  eth_send_raw_transaction_sync, eth_get_transaction_receipt, eth_estimate_gas,
  forkyard_set_balance, forkyard_set_storage_at, forkyard_fork_from, forkyard_snapshot,
  forkyard_discard,
}
use forkyard.Http.Reads
use forkyard.Http.Rpc.{Rpc, returns, refuses, asks}
use forkyard.Http.Writes
use forkyard.Sessions.Jobs.{SessionError}
use forkyard.Sessions.Requests
use forkyard.Sessions.Requests.{Answered}

module _ {B Envelope X I : Type 0} (codec : Codec Envelope X) (reasons : Reasons I)
    (chain_id : ℕ) where
  unfoldable pub handled : RpcMethod → ℕ → List Value → Rpc B X I Value
  handled eth_chain_id id params = Reads.chain_id_of chain_id
  handled eth_block_number id params = Reads.block_number id
  handled eth_gas_price id params = Reads.gas_price id
  handled eth_get_balance id params = Reads.get_balance codec reasons id params
  handled eth_get_transaction_count id params = Reads.get_transaction_count codec reasons id params
  handled forkyard_set_balance id params = Writes.set_balance codec reasons id params
  handled forkyard_set_storage_at id params = Writes.set_storage_at codec reasons id params
  handled forkyard_fork_from id params = Writes.fork_from reasons id
  handled forkyard_snapshot id params = Writes.snapshot reasons id
  handled forkyard_discard id params = Writes.discard reasons id
  handled eth_send_raw_transaction id params =
      Writes.send_raw_transaction codec reasons false id params
  handled eth_send_raw_transaction_sync id params =
      Writes.send_raw_transaction codec reasons true id params
  handled eth_get_transaction_receipt id params = Reads.get_receipt id params
  handled eth_call id params = Reads.call codec reasons chain_id id params
  handled eth_get_storage_at id params = Reads.get_storage_at codec reasons id params
  handled eth_get_code id params = Reads.get_code codec reasons id params
  handled eth_estimate_gas id params = Reads.estimate_gas codec reasons id params

  unfoldable pub dispatched : String → Option RpcMethod → ℕ → List Value → Rpc B X I Value
  unfolding handled method_not_found
  dispatched name none id params = refuses (method_not_found name)
  dispatched name (some method) id params = handled method id params

  unfoldable pub dispatch : ℕ → String → List Value → Rpc B X I Value
  unfolding dispatched parse
  dispatch id method params = dispatched method (parse method) id params

-- `is_ascii_whitespace`.
abbrev pub is_space : ℕ → Bool
is_space c = c == 32 || c == 9 || c == 10 || c == 12 || c == 13

abbrev pub all_space : List ℕ → Bool
all_space [] = true
all_space (c ∷ cs) = is_space c && all_space cs

-- What is answered where both fields are given.
abbrev pub not_both : String
not_both = "a snapshot carries its own block: pass snapshot_id or block_number, not both"

-- `OpenSessionRequest`.
pub record OpenSessionRequest : Type 0 where
  pub block_number : Option ℕ
  pub snapshot_id : Option String

module _ {B X I : Type 0} (reasons : Reasons I) where
  unfoldable pub opened : Result (SessionError I) ℕ → Rpc B X I Value
  unfolding to_string
  opened (ok id) = returns (object (field "session_id" (number id) end))
  opened (err e) = returns (object (field "error" (string (to_string reasons e)) end))

  unfoldable pub open_request : Option ℕ → Option String → Rpc B X I Value
  unfolding opened Answered
  open_request (some n) (some id) = returns (object (field "error" (string not_both) end))
  open_request none (some id) = asks (Requests.resume id) opened
  open_request (some n) none = asks (Requests.fork_at_block n) opened
  open_request none none = asks Requests.fork opened

  -- What serde makes of the body: an error, or the request, which `null` leaves out.
  unfoldable pub open_parsed : Result String (Option OpenSessionRequest) → Rpc B X I Value
  unfolding open_request
  open_parsed (err e) =
      returns (object (field "error" (string ("invalid POST /session body: " +text+ e)) end))
  open_parsed (ok none) = open_request none none
  open_parsed (ok (some r)) = open_request r.block_number r.snapshot_id

  -- `parsed` is what `serde_json::from_slice` makes of a body.
  unfoldable pub open_session :
      (List ℕ → Result String (Option OpenSessionRequest)) → List ℕ → Rpc B X I Value
  unfolding open_parsed
  open_session parsed body =
      if all_space body then open_request none none else open_parsed (parsed body)
