-- ===== src/Mcp/Tools.antt =====
-- crates/api-mcp/src/lib.rs: the tools of `ForkyardMcpServer`.
use Prim.Native.String.{String, ◌++◌ as ◌+text+◌}
use forkyard.Base.{ℕ, true, false}
use forkyard.Engine.SnapshotStore.{SnapshotInfo}
use forkyard.Engine.Types.{AccountInfo, default_account}
use forkyard.Http.Codec.{Codec}
use forkyard.Http.Digits.{hex, plain, word_hex}
use forkyard.Http.Errors.{Reasons}
use forkyard.Http.Params.{or_default}
use forkyard.Mcp.Args.{
  BalanceArgs, SetBalanceArgs, SetStorageArgs, GetStorageArgs, TransferArgs, parse_address,
  parse_u256_hex,
}
use forkyard.Mcp.Tool.{Tool, returns, try, ask}
use forkyard.Mcp.Transfers.{run_transfer}
use forkyard.Sessions.Requests
use forkyard.Sessions.Requests.{Answered}

unfoldable pub account_text : {B : Type 0} → AccountInfo B → String
unfolding hex plain
account_text info =
    "{\"balance\":\""
    +text+ (hex info.balance +text+ ("\",\"nonce\":" +text+ (plain info.nonce +text+ "}")))

unfoldable pub info_text : SnapshotInfo → String
unfolding plain
info_text info =
    "{\"snapshot_id\":\""
    +text+ (info.id
        +text+ ("\",\"block_number\":"
            +text+ (plain info.block_number
                +text+ (",\"accounts\":"
                    +text+ (plain info.accounts
                        +text+ (",\"storage_slots\":"
                            +text+ (plain info.storage_slots
                                +text+ (",\"contracts\":"
                                    +text+ (plain info.contracts
                                        +text+ (",\"bytes\":"
                                            +text+ (plain info.bytes +text+ "}")))))))))))

module _ {B X I : Type 0} (reasons : Reasons I) where
  unfoldable pub fork : Tool B X I String
  unfolding ask plain Answered
  fork = ask reasons Requests.fork (λ id. returns (plain id))

  unfoldable pub snapshot : ℕ → Tool B X I String
  unfolding ask info_text Answered
  snapshot session_id =
      ask reasons (Requests.snapshot session_id) (λ info. returns (info_text info))

  unfoldable pub resume : String → Tool B X I String
  unfolding ask plain Answered
  resume snapshot_id = ask reasons (Requests.resume snapshot_id) (λ id. returns (plain id))

  unfoldable pub discard : ℕ → Tool B X I String
  unfolding ask Answered
  discard session_id = ask reasons (Requests.discard session_id) (λ _. returns "true")

  module _ {Envelope : Type 0} (codec : Codec Envelope X) where
    unfoldable pub get_balance : BalanceArgs → Tool B X I String
    unfolding try parse_address ask account_text Answered
    get_balance args = try (parse_address codec args.address) (λ address.
        ask reasons (Requests.basic args.session_id address)
          (λ info. returns (account_text (or_default default_account info))))

    unfoldable pub set_balance : SetBalanceArgs → Tool B X I String
    unfolding try parse_address parse_u256_hex ask Answered
    set_balance args = try (parse_address codec args.address) (λ address.
        try (parse_u256_hex codec args.balance) (λ balance.
          ask reasons (Requests.basic args.session_id address) (λ found.
            let info = or_default default_account found in
            ask reasons
              (Requests.set_account args.session_id address (record info { balance = balance }))
              (λ _. returns "true"))))

    unfoldable pub set_storage : SetStorageArgs → Tool B X I String
    unfolding try parse_address parse_u256_hex ask Answered
    set_storage args = try (parse_address codec args.address) (λ address.
        try (parse_u256_hex codec args.slot) (λ slot.
          try (parse_u256_hex codec args.value) (λ value.
            ask reasons (Requests.set_storage args.session_id address slot value)
              (λ _. returns "true"))))

    unfoldable pub get_storage : GetStorageArgs → Tool B X I String
    unfolding try parse_address parse_u256_hex ask word_hex Answered
    get_storage args = try (parse_address codec args.address) (λ address.
        try (parse_u256_hex codec args.slot) (λ slot.
          ask reasons (Requests.storage args.session_id address slot)
            (λ value. returns (word_hex value))))

    unfoldable pub get_code : BalanceArgs → Tool B X I String
    unfolding try parse_address ask Answered
    get_code args = try (parse_address codec args.address) (λ address.
        ask reasons (Requests.code args.session_id address)
          (λ code. returns ("0x" +text+ codec.encode_hex code)))

    unfoldable pub simulate : TransferArgs → Tool B X I String
    unfolding run_transfer
    simulate args = run_transfer reasons codec args false

    unfoldable pub advance : TransferArgs → Tool B X I String
    unfolding run_transfer
    advance args = run_transfer reasons codec args true

-- A call of a tool, as rmcp's router hands it over.
pub data ToolCall : Type 0 where
  fork_call : ToolCall
  get_balance_call : BalanceArgs → ToolCall
  set_balance_call : SetBalanceArgs → ToolCall
  set_storage_call : SetStorageArgs → ToolCall
  get_storage_call : GetStorageArgs → ToolCall
  get_code_call : BalanceArgs → ToolCall
  simulate_call : TransferArgs → ToolCall
  advance_call : TransferArgs → ToolCall
  snapshot_call : ℕ → ToolCall
  resume_call : String → ToolCall
  discard_call : ℕ → ToolCall

module _ {B Envelope X I : Type 0} (reasons : Reasons I) (codec : Codec Envelope X) where
  unfoldable pub call_tool : ToolCall → Tool B X I String
  call_tool fork_call = fork reasons
  call_tool (get_balance_call args) = get_balance reasons codec args
  call_tool (set_balance_call args) = set_balance reasons codec args
  call_tool (set_storage_call args) = set_storage reasons codec args
  call_tool (get_storage_call args) = get_storage reasons codec args
  call_tool (get_code_call args) = get_code reasons codec args
  call_tool (simulate_call args) = simulate reasons codec args
  call_tool (advance_call args) = advance reasons codec args
  call_tool (snapshot_call session_id) = snapshot reasons session_id
  call_tool (resume_call snapshot_id) = resume reasons snapshot_id
  call_tool (discard_call session_id) = discard reasons session_id
