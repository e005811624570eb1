-- ===== src/Tests/Surfaces.antt =====
-- Calls on the JSON-RPC surface, with one account, one transaction and a manager that runs it.
use text.Mathlib.Text.{◌==◌ as ◌=text=◌}
use forkyard.Base.{
  ℕ, ◌+◌, List, [], ◌∷◌, true, false, none, some, ok, err, ◌≡◌, refl, arith, if◌then◌else◌,
}
use forkyard.Engine.Types.{BlockEnv}
use forkyard.Http.Cleanly.{Clean}
use forkyard.Http.Codec.{Codec, Legacy, TxEnv, success}
use forkyard.Http.Digits.{hex, digits, word_hex}
use forkyard.Http.Errors.{Reasons, another, invalid_params}
use forkyard.Http.Every.{Every}
use forkyard.Http.Json.{Value, string}
use forkyard.Http.Methods.{parse, eth_get_balance}
use forkyard.Http.ReadArms.{AnyError}
use forkyard.Http.ReadOnly.{Same, dispatch-Harmless}
use forkyard.Http.Reads
use forkyard.Http.Receipts.{Table, build_receipt}
use forkyard.Http.Refusals.{dispatch-Clean}
use forkyard.Http.Run.{Manager, run}
use forkyard.Http.Scope.{About, Spares, dispatch-Every}
use forkyard.Http.Sending.{sent_found}
use forkyard.Http.SideTable.{receipt_in, record_send}
use forkyard.Http.Surface.{dispatch}
use forkyard.Http.Transactions.{signed_tx}
use forkyard.Http.Writes
use forkyard.Sessions.Harmless.{Harmless}
use forkyard.Sessions.Jobs.{SessionError}
use forkyard.Sessions.Requests.{Request, Answered}
use forkyard.Tests.{Bytes, NoError, World}

abbrev transfer : Legacy
transfer = record {
  to = some 2;
  value = 5;
  input = [];
  gas_limit = 21000;
  gas_price = 7;
  nonce = 0;
  chain_id = some 1;
  hash = 0xabc;
}

abbrev pub codec : Codec (Unit {0}) ℕ
codec = record {
  parse_address = λ text. if text =text= "0x01" then ok 1 else err "no address";
  decode_hex = λ text. ok [];
  encode_hex = λ bytes. "";
  from_radix_16 = λ text. ok 5;
  decode_2718 = λ bytes. ok tt;
  legacy = λ envelope. some transfer;
  recover_signer = λ envelope. ok 9;
  outcome = λ gas. success [];
  tx_gas_used = λ gas. gas;
  created_address = λ gas. none;
  logs = λ gas. [];
}

abbrev pub reasons : Reasons (Unit {0})
reasons = record { reason = λ i. another; shown = λ i. "rejected" }

abbrev pub block : BlockEnv
block = record { number = 100; timestamp = 0; basefee = 3; gas_limit = 30000000 }

abbrev pub manager : Manager Bytes ℕ (Unit {0})
unfolding Answered
manager (Request.session_block_env id) = ok block
manager (Request.advance id tx) = ok 21000
manager _ = err SessionError.worker_gone

abbrev raw : List Value
raw = string "0x00" ∷ []

abbrev owner : List Value
owner = string "0x01" ∷ []

gas_price_answer :
    (run manager block (dispatch codec reasons 1 4 "eth_gasPrice" []) []).0
    ≡ some (ok (string "0x59682f03"))
unfolding run dispatch Answered hex digits Reads.gas_price
gas_price_answer = refl

no_such_method :
    (run manager block (dispatch codec reasons 1 4 "eth_foo" []) []).0
    ≡ some (err (record { code = 32601; message = "method not found: eth_foo" }))
unfolding run dispatch
no_such_method = refl

no_address :
    (run manager block (dispatch codec reasons 1 4 "eth_getBalance" (string "x" ∷ [])) []).0
    ≡ some (err (invalid_params "no address"))
unfolding run dispatch invalid_params Reads.get_balance
no_address = refl

dispatch-Every_example :
    Every {X = ℕ} {I = Unit {0}}
      (About {B = Bytes} 4)
      (Spares 4)
      AnyError
      (dispatch codec reasons 1 4 "eth_sendRawTransaction" raw)
dispatch-Every_example = dispatch-Every Bytes codec reasons 4 1 "eth_sendRawTransaction" raw

dispatch-Harmless_example :
    Every {X = ℕ} {I = Unit {0}}
      (Harmless Bytes NoError World TxEnv ℕ (Unit {0}))
      Same
      AnyError
      (dispatch codec reasons 1 4 "eth_getBalance" owner)
unfolding parse
dispatch-Harmless_example =
    dispatch-Harmless Bytes NoError World codec reasons 1 4 "eth_getBalance" eth_get_balance owner
      refl refl

dispatch-Clean_example : Clean {B = Bytes} (dispatch codec reasons 1 4 "forkyard_setBalance" owner)
dispatch-Clean_example = dispatch-Clean Bytes codec reasons 4 1 "forkyard_setBalance" owner

abbrev after : Table
after = record_send codec 4 transfer 9 21000 100 []

abbrev receipt : Value
receipt = receipt_in codec 4 transfer 9 21000 100 []

sent_found_example :
    (run manager block (Writes.send_raw_transaction codec reasons true 4 raw) []
      ≡ (some (ok receipt), after))
    × (run manager block (Writes.send_raw_transaction codec reasons false 4 raw) []
        ≡ (some (ok (string (word_hex 0xabc))), after))
    × (run manager block (Reads.get_receipt 4 (string (word_hex 0xabc) ∷ [])) after
        ≡ (some (ok receipt), after))
    × (run manager block (Reads.block_number 4) after
        ≡ (some (ok (string (hex (Reads.u64 (100 + Reads.sent_count 4 after))))), after))
    × (receipt
        ≡ build_receipt codec 0xabc 9 (some 2) 21000 (Reads.u64 (100 + Reads.sent_count 4 after)))
    × (Reads.sent_count 4 after ≡ Reads.u64 (Reads.sent_count 4 [] + 1))
unfolding signed_tx Answered
sent_found_example =
    sent_found codec reasons manager block 4 9 transfer 21000 block raw [] refl refl refl
      (omega arith)
