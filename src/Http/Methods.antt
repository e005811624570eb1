-- ===== src/Http/Methods.antt =====
-- crates/api-http/src/lib.rs, `RpcMethod`.
use Prim.Native.String.{String}
use text.Mathlib.Text.{◌==◌}
use forkyard.Base.{Option, none, some, if◌then◌else◌}

pub data RpcMethod : Type 0 where
  eth_chain_id eth_block_number eth_gas_price eth_get_balance eth_get_transaction_count : RpcMethod
  eth_call eth_get_storage_at eth_get_code eth_send_raw_transaction : RpcMethod
  eth_send_raw_transaction_sync eth_get_transaction_receipt eth_estimate_gas : RpcMethod
  forkyard_set_balance forkyard_set_storage_at forkyard_fork_from forkyard_snapshot : RpcMethod
  forkyard_discard : RpcMethod

unfoldable pub parse : String → Option RpcMethod
parse name =
    if name == "eth_chainId"
    then some eth_chain_id
    else if name == "eth_blockNumber"
    then some eth_block_number
    else if name == "eth_gasPrice"
    then some eth_gas_price
    else if name == "eth_getBalance"
    then some eth_get_balance
    else if name == "eth_getTransactionCount"
    then some eth_get_transaction_count
    else if name == "eth_call"
    then some eth_call
    else if name == "eth_getStorageAt"
    then some eth_get_storage_at
    else if name == "eth_getCode"
    then some eth_get_code
    else if name == "eth_sendRawTransaction"
    then some eth_send_raw_transaction
    else if name == "eth_sendRawTransactionSync"
    then some eth_send_raw_transaction_sync
    else if name == "eth_getTransactionReceipt"
    then some eth_get_transaction_receipt
    else if name == "eth_estimateGas"
    then some eth_estimate_gas
    else if name == "forkyard_setBalance"
    then some forkyard_set_balance
    else if name == "forkyard_setStorageAt"
    then some forkyard_set_storage_at
    else if name == "forkyard_forkFrom"
    then some forkyard_fork_from
    else if name == "forkyard_snapshot"
    then some forkyard_snapshot
    else if name == "forkyard_discard"
    then some forkyard_discard
    else none
