-- ===== src/Http/Reads.antt =====
-- crates/api-http/src/lib.rs, `dispatch`: the methods that only read.
use Prim.Native.String.{◌++◌ as ◌+text+◌}
use forkyard.Base.{ℕ, ◌+◌, ◌%◌, ◌^◌, List, Option, none, some, ◌>>=◌, if◌then◌else◌}
use forkyard.Engine.Types.{AccountInfo}
use forkyard.Http.Codec.{Codec, Outcome, success, revert, halt, is_success, is_halt}
use forkyard.Http.Digits.{hex, word_hex}
use forkyard.Http.Errors.{Reasons, execution}
use forkyard.Http.Json.{Value, null, string}
use forkyard.Http.Params.{
  or_default, map_some, bind_some, to_lowercase, param_str, parse_address, parse_word,
}
use forkyard.Http.Receipts.{Table, get_state, lookup}
use forkyard.Http.Rpc.{Rpc, returns, refuses, locked, try, ask, session_block_env, to_u64}
use forkyard.Http.Transactions.{estimate_gas_limit, first_param, call_tx, estimate_parts}
use forkyard.Sessions.Requests
use forkyard.Sessions.Requests.{Answered}

abbrev pub priority_fee_wei : ℕ
priority_fee_wei = 1500000000

abbrev pub u64 : ℕ → ℕ
u64 n = n % 2 ^ 64

abbrev pub sent_count : ℕ → Table → ℕ
sent_count session_id table =
    or_default 0 (map_some (λ s. s.block_number) (get_state session_id table))

abbrev pub balance_of : {B : Type 0} → Option (AccountInfo B) → ℕ
balance_of info = or_default 0 (map_some (λ i. i.balance) info)

abbrev pub nonce_of : {B : Type 0} → Option (AccountInfo B) → ℕ
nonce_of info = or_default 0 (map_some (λ i. i.nonce) info)

module _ {B X I : Type 0} where
  unfoldable pub chain_id_of : ℕ → Rpc B X I Value
  unfolding hex
  chain_id_of chain_id = returns (string (hex chain_id))

  -- `real_block_number`: the count is read first.
  unfoldable pub real_block_number : ℕ → (ℕ → Rpc B X I Value) → Rpc B X I Value
  unfolding session_block_env to_u64
  real_block_number session_id k =
      locked (λ table. table)
        (λ table.
          session_block_env session_id
            (λ env. to_u64 env.number (λ start. k (u64 (start + sent_count session_id table)))))

  unfoldable pub block_number : ℕ → Rpc B X I Value
  unfolding real_block_number hex
  block_number session_id = real_block_number session_id (λ n. returns (string (hex n)))

  unfoldable pub gas_price : ℕ → Rpc B X I Value
  unfolding session_block_env hex
  gas_price session_id =
      session_block_env session_id
        (λ env. returns (string (hex (u64 (env.basefee + priority_fee_wei)))))

  unfoldable pub get_receipt : ℕ → List Value → Rpc B X I Value
  unfolding try param_str to_lowercase lookup
  get_receipt session_id params = try (param_str params 0) (λ hash.
      locked (λ table. table)
        (λ table. returns (
          or_default null
            (bind_some (get_state session_id table) (λ s. lookup (to_lowercase hash) s.receipts)))))

module _ {B Envelope X I : Type 0} (codec : Codec Envelope X) (reasons : Reasons I) where
  unfoldable pub get_balance : ℕ → List Value → Rpc B X I Value
  unfolding try parse_address ask hex Answered
  get_balance session_id params = try (parse_address codec params 0) (λ address.
      ask reasons (Requests.basic session_id address)
        (λ info. returns (string (hex (balance_of info)))))

  unfoldable pub get_transaction_count : ℕ → List Value → Rpc B X I Value
  unfolding try parse_address ask hex Answered
  get_transaction_count session_id params = try (parse_address codec params 0) (λ address.
      ask reasons (Requests.basic session_id address)
        (λ info. returns (string (hex (nonce_of info)))))

  unfoldable pub get_storage_at : ℕ → List Value → Rpc B X I Value
  unfolding try parse_address parse_word ask word_hex Answered
  get_storage_at session_id params = try (parse_address codec params 0) (λ address.
      try (parse_word codec params 1) (λ slot.
        ask reasons (Requests.storage session_id address slot)
          (λ value. returns (string (word_hex value)))))

  unfoldable pub get_code : ℕ → List Value → Rpc B X I Value
  unfolding try parse_address ask Answered
  get_code session_id params = try (parse_address codec params 0) (λ address.
      ask reasons (Requests.code session_id address)
        (λ code. returns (string ("0x" +text+ codec.encode_hex code))))

  unfoldable pub called : Outcome → Rpc B X I Value
  unfolding execution
  called (success output) = returns (string ("0x" +text+ codec.encode_hex output))
  called (revert output) =
      refuses (execution ("execution reverted: 0x" +text+ codec.encode_hex output))
  called (halt reason) = refuses (execution ("execution halted: " +text+ reason))

  unfoldable pub call : ℕ → ℕ → List Value → Rpc B X I Value
  unfolding try first_param call_tx ask called Answered
  call chain_id session_id params =
      try (first_param params >>= call_tx codec chain_id)
        (λ tx. ask reasons (Requests.call session_id tx) (λ result. called (codec.outcome result)))

  unfoldable pub estimated : X → Rpc B X I Value
  unfolding execution hex
  estimated result =
      if is_success (codec.outcome result)
      then returns (string (hex (codec.tx_gas_used result)))
      else refuses (
          execution (
            "call would fail: "
            +text+ (if is_halt (codec.outcome result) then "halted" else "reverted")))

  unfoldable pub estimate_gas : ℕ → List Value → Rpc B X I Value
  unfolding try first_param estimate_parts ask estimated Answered
  estimate_gas session_id params = try (first_param params >>= estimate_parts codec) (λ parts.
      ask reasons (Requests.basic session_id parts.0) (λ info.
        ask reasons
          (Requests.estimate_gas session_id (record {
            caller = parts.0;
            kind = parts.1;
            value = parts.2;
            input = parts.3;
            gas_limit = estimate_gas_limit;
            gas_price = 0;
            nonce = some (nonce_of info);
            chain_id = none;
          }))
          estimated))
