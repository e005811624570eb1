-- ===== src/Mcp/Refused.antt =====
-- crates/api-mcp/src/lib.rs: a tool that is refused has changed nothing.
use forkyard.Base.{ℕ, Option, none, some, Result, ok, err, inr, refl}
use forkyard.Engine.Types.{AccountInfo, default_account}
use forkyard.Http.Codec.{Codec}
use forkyard.Http.Errors.{Reasons}
use forkyard.Http.Params.{or_default}
use forkyard.Http.ReadOnly.{Reading}
use forkyard.Mcp.Args.{SetBalanceArgs, SetStorageArgs, TransferArgs, parse_address, parse_u256_hex}
use forkyard.Mcp.Atomic.{Atomic, Reading-Atomic, try-Atomic, look-Atomic, change-Atomic}
use forkyard.Mcp.Every.{explain-Every}
use forkyard.Mcp.Scope.{call_tool-Reading}
use forkyard.Mcp.Tool.{Tool}
use forkyard.Mcp.Tools.{
  ToolCall, fork_call, get_balance_call, set_balance_call, set_storage_call, get_storage_call,
  get_code_call, simulate_call, advance_call, snapshot_call, resume_call, discard_call, call_tool,
  fork, set_balance, set_storage, advance, snapshot, resume, discard,
}
use forkyard.Mcp.Transfers.{
  transfer_parts, priced, explain_fee_error, reported, executed, run_transfer,
}
use forkyard.Sessions.Jobs.{SessionError}
use forkyard.Sessions.Requests.{Request, Answered}

module _ (B : Type 0) {Envelope X I : Type 0} (codec : Codec Envelope X) (reasons : Reasons I) where
  set_balance-Atomic :
      (args : SetBalanceArgs) → Atomic {B = B} (set_balance {X = X} reasons codec args)
  unfolding set_balance
  set_balance-Atomic args = try-Atomic (parse_address codec args.address) _ (λ a.
      try-Atomic (parse_u256_hex codec args.balance) _ (λ balance.
        look-Atomic reasons (Request.basic args.session_id a) _ tt (λ found.
          unfold Answered in
          let info : AccountInfo B = or_default default_account found in
          change-Atomic reasons
            (Request.set_account args.session_id a (record info { balance = balance })) _
            (λ u. tt))))

  set_storage-Atomic :
      (args : SetStorageArgs) → Atomic {B = B} (set_storage {X = X} reasons codec args)
  unfolding set_storage
  set_storage-Atomic args = try-Atomic (parse_address codec args.address) _ (λ a.
      try-Atomic (parse_u256_hex codec args.slot) _ (λ k.
        try-Atomic (parse_u256_hex codec args.value) _
          (λ v. change-Atomic reasons (Request.set_storage args.session_id a k v) _ (λ u. tt))))

  reported-Atomic :
      (id caller gas_price gas_limit : ℕ) (x : Result (SessionError I) X)
      → Atomic {B = B} (reported reasons codec id caller gas_price gas_limit x)
  unfolding reported
  reported-Atomic id caller gas_price gas_limit (ok result) = tt
  reported-Atomic id caller gas_price gas_limit (err e) =
      Reading-Atomic (explain_fee_error reasons id e caller gas_price gas_limit)
        (explain-Every codec reasons Reading id tt e caller gas_price gas_limit)

  priced-Atomic :
      (id : ℕ) (price : Option ℕ) (k : ℕ → Tool B X I _)
      → ((n : ℕ) → Atomic (k n))
      → Atomic (priced reasons id price k)
  unfolding priced Answered
  priced-Atomic id (some n) k h = h n
  priced-Atomic id none k h =
      look-Atomic reasons (Request.session_block_env id) _ tt (λ env. h env.basefee)

  advance-Atomic : (args : TransferArgs) → Atomic {B = B} (advance reasons codec args)
  unfolding advance run_transfer executed reported Answered
  advance-Atomic args = try-Atomic (transfer_parts codec args) _ (λ parts.
      priced-Atomic args.session_id args.gas_price _
        (λ n. (inr (λ a. tt), reported-Atomic args.session_id _ _ _)))

  -- Whatever the manager answers in between, once a request of a tool that may change a session or
  -- write a file has succeeded, the tool is refused in no case.
  pub call_tool-Atomic : (call : ToolCall) → Atomic {B = B} (call_tool reasons codec call)
  unfolding call_tool fork snapshot resume discard
  call_tool-Atomic fork_call = change-Atomic reasons Request.fork _ (λ id. tt)
  call_tool-Atomic (set_balance_call args) = set_balance-Atomic args
  call_tool-Atomic (set_storage_call args) = set_storage-Atomic args
  call_tool-Atomic (advance_call args) = advance-Atomic args
  call_tool-Atomic (snapshot_call id) = change-Atomic reasons (Request.snapshot id) _ (λ info. tt)
  call_tool-Atomic (resume_call id) = change-Atomic reasons (Request.resume id) _ (λ n. tt)
  call_tool-Atomic (discard_call id) = change-Atomic reasons (Request.discard id) _ (λ u. tt)
  call_tool-Atomic (get_balance_call args) =
      Reading-Atomic (call_tool reasons codec (get_balance_call args))
        (call_tool-Reading B codec reasons (get_balance_call args) refl)
  call_tool-Atomic (get_storage_call args) =
      Reading-Atomic (call_tool reasons codec (get_storage_call args))
        (call_tool-Reading B codec reasons (get_storage_call args) refl)
  call_tool-Atomic (get_code_call args) =
      Reading-Atomic (call_tool reasons codec (get_code_call args))
        (call_tool-Reading B codec reasons (get_code_call args) refl)
  call_tool-Atomic (simulate_call args) =
      Reading-Atomic (call_tool reasons codec (simulate_call args))
        (call_tool-Reading B codec reasons (simulate_call args) refl)
