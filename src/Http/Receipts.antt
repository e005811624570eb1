-- ===== src/Http/Receipts.antt =====
-- crates/api-http/src/lib.rs, `SessionRpcState`, the side table of receipts, and `build_receipt`.
use Prim.Native.String.{String, ◌++◌ as ◌+text+◌}
use text.Mathlib.Text.{◌==◌ as ◌=text=◌}
use forkyard.Base.{
  ℕ, zero, suc, ◌+◌, List, [], ◌∷◌, Bool, Option, none, some, if◌then◌else◌, ℕ_discrete, map,
}
use forkyard.Base.Maps
use forkyard.Http.Codec.{Codec, Log, TxKind, is_success}
use forkyard.Http.Digits.{hex, word_hex, address_hex}
use forkyard.Http.Json.{Value, null, boolean, string, array, object, end, field, values}

-- Maps from texts.
module _ {V : Type 0} where
  unfoldable pub lookup : String → List (String × V) → Option V
  lookup k [] = none
  lookup k ((j, v) ∷ m) = if j =text= k then some v else lookup k m

  unfoldable pub put : String → V → List (String × V) → List (String × V)
  put k v [] = (k, v) ∷ []
  put k v ((j, w) ∷ m) = if j =text= k then (k, v) ∷ m else (j, w) ∷ put k v m

pub record SessionRpcState : Type 0 where
  pub receipts : List (String × Value)
  pub block_number : ℕ

abbrev pub default_state : SessionRpcState
default_state = record { receipts = []; block_number = 0 }

abbrev pub Table : Type 0
Table = List (ℕ × SessionRpcState)

abbrev pub get_state : ℕ → Table → Option SessionRpcState
get_state session_id table = Maps.get ℕ_discrete session_id table

abbrev pub to_field : TxKind → Value
to_field (some address) = string (address_hex address)
to_field none = null

abbrev pub created_field : Option ℕ → Value
created_field (some address) = string (address_hex address)
created_field none = null

unfoldable pub zeros : ℕ → String
zeros zero = ""
zeros (suc n) = "00" +text+ zeros n

module _ {Envelope X : Type 0} (codec : Codec Envelope X) where
  unfoldable pub log_json : ℕ → ℕ → ℕ → Log → Value
  unfolding hex word_hex address_hex values
  log_json tx_hash block_number i log = object (
      field "address" (string (address_hex log.address)) (
        field "topics" (array (values (map (λ t. string (word_hex t)) log.topics))) (
          field "data" (string ("0x" +text+ codec.encode_hex log.bytes)) (
            field "blockNumber" (string (hex block_number)) (
              field "transactionHash" (string (word_hex tx_hash)) (
                field "transactionIndex" (string "0x0") (
                  field "blockHash" (string (word_hex block_number)) (
                    field "logIndex" (string (hex i))
                      (field "removed" (boolean Bool.false) end)))))))))

  -- `enumerate` from `i`.
  unfoldable pub logs_json : ℕ → ℕ → ℕ → List Log → List Value
  unfolding log_json
  logs_json tx_hash block_number i [] = []
  logs_json tx_hash block_number i (log ∷ logs) =
      log_json tx_hash block_number i log ∷ logs_json tx_hash block_number (i + 1) logs

  unfoldable pub build_receipt : ℕ → ℕ → TxKind → X → ℕ → Value
  unfolding logs_json zeros hex word_hex address_hex values
  build_receipt tx_hash from to result block_number = object (
      field "transactionHash" (string (word_hex tx_hash)) (
        field "transactionIndex" (string "0x0") (
          field "blockHash" (string (word_hex block_number)) (
            field "blockNumber" (string (hex block_number)) (
              field "from" (string (address_hex from)) (
                field "to" (to_field to) (
                  field "cumulativeGasUsed" (string (hex (codec.tx_gas_used result))) (
                    field "gasUsed" (string (hex (codec.tx_gas_used result))) (
                      field "contractAddress" (created_field (codec.created_address result)) (
                        field "logs"
                          (array (values (logs_json tx_hash block_number 0 (codec.logs result))))
                          (field "logsBloom" (string ("0x" +text+ zeros 256)) (
                            field "status"
                              (string (if is_success (codec.outcome result) then "0x1" else "0x0"))
                              (field "type" (string "0x0") end)))))))))))))
