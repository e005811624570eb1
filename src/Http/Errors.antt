-- ===== src/Http/Errors.antt =====
-- crates/api-http/src/lib.rs, `RpcErrorObj`, with `Display for SessionError` of
-- crates/session/src/lib.rs.
use Prim.Native.String.{String, ◌++◌ as ◌+text+◌}
use forkyard.Base.{ℕ}
use forkyard.Http.Digits.{plain}
use forkyard.Sessions.Jobs.{SessionError}

-- The codes are negative: `code` is how far below zero.
pub record RpcErrorObj : Type 0 where
  pub code : ℕ
  pub message : String

unfoldable pub invalid_params : String → RpcErrorObj
invalid_params message = record { code = 32602; message = message }

unfoldable pub method_not_found : String → RpcErrorObj
method_not_found method = record { code = 32601; message = "method not found: " +text+ method }

unfoldable pub execution : String → RpcErrorObj
execution message = record { code = 32000; message = message }

-- What the source tells apart of revm's `InvalidTransaction`.
pub data Reason : Type 0 where
  gas_price_less_than_basefee : Reason
  lack_of_fund_for_max_fee : ℕ → ℕ → Reason
  another : Reason

pub record Reasons (I : Type 0) : Type 0 where
  pub reason : I → Reason
  pub shown : I → String

module _ {I : Type 0} (reasons : Reasons I) where
  -- `Display for SessionError`.
  unfoldable pub to_string : SessionError I → String
  unfolding plain
  to_string (SessionError.unknown id) = "unknown or expired session " +text+ plain id
  to_string (SessionError.execution msg) = "execution error: " +text+ msg
  to_string (SessionError.invalid_transaction i) = "invalid transaction: " +text+ reasons.shown i
  to_string SessionError.worker_gone = "worker thread is gone"
  to_string (SessionError.block_unavailable number why) =
      "cannot open a session at block " +text+ (plain number +text+ (": " +text+ why))
  to_string (SessionError.snapshot why) = "snapshot: " +text+ why

  unfoldable pub rejected : Reason → SessionError I → RpcErrorObj
  unfolding execution to_string plain
  rejected gas_price_less_than_basefee e = execution (
      to_string e
      +text+ " - read eth_gasPrice for a valid price on this fork (it includes a priority-fee margin over the basefee) and re-sign at that price")
  rejected (lack_of_fund_for_max_fee fee balance) e = execution (
      "sender holds "
      +text+ (plain balance
          +text+ (" wei but this transaction needs "
              +text+ (plain fee
                  +text+ " wei in total - the value sent plus gas_limit * gas_price; fund it with forkyard_setBalance, or lower the gas limit or price"))))
  rejected another e = execution (to_string e)

  -- `From<SessionError>`.
  unfoldable pub from_session : SessionError I → RpcErrorObj
  unfolding execution to_string rejected plain
  from_session (SessionError.unknown id) = record {
    code = 32001;
    message = "unknown or expired session " +text+ plain id;
  }
  from_session (SessionError.invalid_transaction i) =
      rejected (reasons.reason i) (SessionError.invalid_transaction i)
  from_session (SessionError.execution msg) = execution (to_string (SessionError.execution msg))
  from_session SessionError.worker_gone = execution (to_string SessionError.worker_gone)
  from_session (SessionError.block_unavailable number why) =
      execution (to_string (SessionError.block_unavailable number why))
  from_session (SessionError.snapshot why) = execution (to_string (SessionError.snapshot why))
