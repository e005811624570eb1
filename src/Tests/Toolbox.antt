-- ===== src/Tests/Toolbox.antt =====
-- Calls of the tools of the MCP surface, with a manager that refuses a price below the basefee.
use forkyard.Base.{ℕ, [], ◌∷◌, true, none, some, ok, err, ◌≡◌, refl, ltb, if◌then◌else◌}
use forkyard.Http.Codec.{TxEnv}
use forkyard.Http.Digits.{digits}
use forkyard.Http.Errors.{Reasons, gas_price_less_than_basefee}
use forkyard.Http.Json.{string}
use forkyard.Http.Run.{Manager}
use forkyard.Http.Scope.{About}
use forkyard.Mcp.Args.{SetBalanceArgs, TransferArgs, default_gas_limit}
use forkyard.Mcp.Atomic.{Atomic}
use forkyard.Mcp.Every.{Every}
use forkyard.Mcp.Pricing.{run, omitted_price, low_price}
use forkyard.Mcp.Refused.{call_tool-Atomic}
use forkyard.Mcp.Scope.{call_tool-Every, call_tool-Harmless}
use forkyard.Mcp.Tool.{invalid_params}
use forkyard.Mcp.Tools.{set_balance_call, simulate_call, advance_call, call_tool, advance}
use forkyard.Mcp.Transfers.{transfer_tx, price_advice, render_result, run_transfer, transfer_parts}
use forkyard.Mcp.Twins.{of_rpc, of_tool, call_tool-twin}
use forkyard.Http.Surface.{dispatch}
use forkyard.Sessions.Harmless.{Harmless}
use forkyard.Sessions.Jobs.{SessionError}
use forkyard.Sessions.Requests.{Request, Answered}
use forkyard.Tests.{Bytes, NoError, World}
use forkyard.Tests.Surfaces.{codec, block}

abbrev fees : Reasons (Unit {0})
fees = record { reason = λ i. gas_price_less_than_basefee; shown = λ i. "rejected" }

-- The session's basefee is 3.
abbrev strict : Manager Bytes ℕ (Unit {0})
unfolding Answered
strict (Request.session_block_env id) = ok block
strict (Request.advance id tx) =
    if ltb tx.gas_price 3 then err (SessionError.invalid_transaction tt) else ok 21000
strict (Request.simulate id tx) =
    if ltb tx.gas_price 3 then err (SessionError.invalid_transaction tt) else ok 21000
strict _ = err SessionError.worker_gone

abbrev transfer : TransferArgs
transfer = record {
  session_id = 4;
  from = "0x01";
  to = none;
  value = "0x5";
  gas_limit = default_gas_limit;
  gas_price = some 2;
  nonce = 0;
  calldata = none;
}

too_low :
    run strict (call_tool fees codec (advance_call transfer))
    ≡ err (
        invalid_params
          "gas_price 2 is below this fork's basefee of 3 - pass gas_price of at least 3, or omit gas_price entirely to price at the basefee automatically")
unfolding run call_tool price_advice advance digits
too_low = refl

unpriced :
    run strict (call_tool fees codec (advance_call (record transfer { gas_price = none })))
    ≡ ok "{\"success\":true,\"gas_used\":21000,\"output\":\"0x\"}"
unfolding run call_tool render_result advance digits
unpriced = refl

omitted_price_example :
    run strict (run_transfer fees codec (record transfer { gas_price = none }) true)
    ≡ run strict (run_transfer fees codec (record transfer { gas_price = some 3 }) true)
unfolding transfer_parts Answered
omitted_price_example =
    omitted_price codec fees strict transfer block refl (1, none, 5, []) refl true

low_price_example :
    run strict (run_transfer fees codec (record transfer { gas_price = some 2 }) true)
    ≡ err (price_advice 2 3)
unfolding transfer_parts Answered transfer_tx
low_price_example =
    low_price codec fees strict transfer block refl (1, none, 5, []) refl true 2 tt refl refl

call_tool-Every_example :
    Every (About {B = Bytes} 4) (call_tool {I = Unit {0}} fees codec (advance_call transfer))
call_tool-Every_example = call_tool-Every Bytes codec fees (advance_call transfer) 4 refl

call_tool-Harmless_example :
    Every
      (Harmless Bytes NoError World TxEnv ℕ (Unit {0}))
      (call_tool {I = Unit {0}} fees codec (simulate_call transfer))
call_tool-Harmless_example =
    call_tool-Harmless Bytes NoError World codec fees (simulate_call transfer) refl

call_tool-Atomic_example :
    Atomic {B = Bytes} (call_tool {I = Unit {0}} fees codec (advance_call transfer))
call_tool-Atomic_example = call_tool-Atomic Bytes codec fees (advance_call transfer)

abbrev rich : SetBalanceArgs
rich = record { session_id = 4; address = "0x01"; balance = "0xff" }

call_tool-twin_example :
    of_rpc block [] (
      dispatch {B = Bytes} {X = ℕ} {I = Unit {0}} codec fees 1 4 "forkyard_setBalance"
        (string "0x01" ∷ string "0xff" ∷ []))
    ≡ of_tool (call_tool fees codec (set_balance_call rich))
call_tool-twin_example =
    call_tool-twin Bytes codec fees 1 block [] (set_balance_call rich)
      ("forkyard_setBalance", 4, string "0x01" ∷ string "0xff" ∷ []) refl
