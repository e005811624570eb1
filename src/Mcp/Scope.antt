-- ===== src/Mcp/Scope.antt =====
-- crates/api-mcp/src/lib.rs: whose session a tool is about, and which tools only read.
use forkyard.Base.{ℕ, Bool, true, false, Option, none, some, ◌≡◌}
use forkyard.Engine.Types.{AccountInfo, default_account}
use forkyard.Http.Codec.{Codec, TxEnv}
use forkyard.Http.Errors.{Reasons}
use forkyard.Http.Params.{or_default}
use forkyard.Http.ReadOnly.{Reading}
use forkyard.Http.Scope.{About}
use forkyard.Mcp.Args.{
  BalanceArgs, SetBalanceArgs, SetStorageArgs, GetStorageArgs, parse_address, parse_u256_hex,
}
use forkyard.Mcp.Every.{Every, try-Every, ask-Every, run_transfer-Every}
use forkyard.Mcp.Tools.{
  ToolCall, fork_call, get_balance_call, set_balance_call, set_storage_call, get_storage_call,
  get_code_call, simulate_call, advance_call, snapshot_call, resume_call, discard_call, call_tool,
  get_balance, set_balance, set_storage, get_storage, get_code, simulate, advance, snapshot,
  discard,
}
use forkyard.Sessions.Harmless.{
  Harmless, block_env-Harmless, basic-Harmless, storage-Harmless, code-Harmless, simulate-Harmless,
}
use forkyard.Sessions.Requests.{Request, Answered}

-- The session that a tool is called with; opening one takes none.
abbrev pub session_of : ToolCall → Option ℕ
session_of fork_call = none
session_of (get_balance_call args) = some args.session_id
session_of (set_balance_call args) = some args.session_id
session_of (set_storage_call args) = some args.session_id
session_of (get_storage_call args) = some args.session_id
session_of (get_code_call args) = some args.session_id
session_of (simulate_call args) = some args.session_id
session_of (advance_call args) = some args.session_id
session_of (snapshot_call session_id) = some session_id
session_of (resume_call snapshot_id) = none
session_of (discard_call session_id) = some session_id

-- `simulate` is among the tools that read.
abbrev pub is_read : ToolCall → Bool
is_read (get_balance_call args) = true
is_read (get_storage_call args) = true
is_read (get_code_call args) = true
is_read (simulate_call args) = true
is_read _ = false

module _ {B Envelope X I : Type 0} (codec : Codec Envelope X) (reasons : Reasons I)
    (P : Request B TxEnv → Type 0) where
  get_balance-Every :
      (args : BalanceArgs)
      → ((a : ℕ) → P (Request.basic args.session_id a))
      → Every P (get_balance {X = X} reasons codec args)
  unfolding get_balance
  get_balance-Every args h =
      try-Every P (parse_address codec args.address) _
        (λ a. ask-Every P reasons (Request.basic args.session_id a) _ (h a) (λ info. tt))

  get_storage-Every :
      (args : GetStorageArgs)
      → ((a k : ℕ) → P (Request.storage args.session_id a k))
      → Every P (get_storage {X = X} reasons codec args)
  unfolding get_storage
  get_storage-Every args h = try-Every P (parse_address codec args.address) _ (λ a.
      try-Every P (parse_u256_hex codec args.slot) _
        (λ k. ask-Every P reasons (Request.storage args.session_id a k) _ (h a k) (λ v. tt)))

  get_code-Every :
      (args : BalanceArgs)
      → ((a : ℕ) → P (Request.code args.session_id a))
      → Every P (get_code {X = X} reasons codec args)
  unfolding get_code
  get_code-Every args h =
      try-Every P (parse_address codec args.address) _
        (λ a. ask-Every P reasons (Request.code args.session_id a) _ (h a) (λ code. tt))

  set_balance-Every :
      (args : SetBalanceArgs)
      → ((a : ℕ) → P (Request.basic args.session_id a))
      → ((a : ℕ) (info : AccountInfo B) → P (Request.set_account args.session_id a info))
      → Every P (set_balance {X = X} reasons codec args)
  unfolding set_balance
  set_balance-Every args h w = try-Every P (parse_address codec args.address) _ (λ a.
      try-Every P (parse_u256_hex codec args.balance) _ (λ balance.
        ask-Every P reasons (Request.basic args.session_id a) _ (h a) (λ found.
          unfold Answered in
          let info : AccountInfo B = or_default default_account found in
          ask-Every P reasons
            (Request.set_account args.session_id a (record info { balance = balance })) _ (w a _)
            (λ u. tt))))

  set_storage-Every :
      (args : SetStorageArgs)
      → ((a k v : ℕ) → P (Request.set_storage args.session_id a k v))
      → Every P (set_storage {X = X} reasons codec args)
  unfolding set_storage
  set_storage-Every args h = try-Every P (parse_address codec args.address) _ (λ a.
      try-Every P (parse_u256_hex codec args.slot) _ (λ k.
        try-Every P (parse_u256_hex codec args.value) _ (λ v.
          ask-Every P reasons (Request.set_storage args.session_id a k v) _ (h a k v) (λ u. tt))))

module _ (B : Type 0) {Envelope X I : Type 0} (codec : Codec Envelope X) (reasons : Reasons I) where
  of_session : (n id : ℕ) → some n ≡ some id → n ≡ id
  of_session n id h = cc

  -- Whatever the manager answers in between, a tool that is called with a session asks the manager
  -- about no other session.
  pub call_tool-Every :
      (call : ToolCall) (id : ℕ)
      → session_of call ≡ some id
      → Every (About {B = B} id) (call_tool reasons codec call)
  unfolding call_tool simulate advance snapshot discard
  call_tool-Every fork_call id h = absurd (cc)
  call_tool-Every (get_balance_call args) id h =
      get_balance-Every codec reasons (About id) args (λ a. of_session _ id h)
  call_tool-Every (set_balance_call args) id h =
      set_balance-Every codec reasons (About id) args (λ a. of_session _ id h)
        (λ a info. of_session _ id h)
  call_tool-Every (set_storage_call args) id h =
      set_storage-Every codec reasons (About id) args (λ a k v. of_session _ id h)
  call_tool-Every (get_storage_call args) id h =
      get_storage-Every codec reasons (About id) args (λ a k. of_session _ id h)
  call_tool-Every (get_code_call args) id h =
      get_code-Every codec reasons (About id) args (λ a. of_session _ id h)
  call_tool-Every (simulate_call args) id h =
      run_transfer-Every codec reasons (About id) args (of_session _ id h) false
        (λ tx. of_session _ id h)
  call_tool-Every (advance_call args) id h =
      run_transfer-Every codec reasons (About id) args (of_session _ id h) true
        (λ tx. of_session _ id h)
  call_tool-Every (snapshot_call session_id) id h =
      ask-Every (About id) reasons (Request.snapshot session_id) _ (of_session _ id h) (λ info. tt)
  call_tool-Every (resume_call snapshot_id) id h = absurd (cc)
  call_tool-Every (discard_call session_id) id h =
      ask-Every (About id) reasons (Request.discard session_id) _ (of_session _ id h) (λ u. tt)

  -- A tool that reads makes none but the requests that read.
  pub call_tool-Reading :
      (call : ToolCall)
      → is_read call ≡ true
      → Every (Reading {B = B}) (call_tool reasons codec call)
  unfolding call_tool simulate
  call_tool-Reading (get_balance_call args) h =
      get_balance-Every codec reasons Reading args (λ a. tt)
  call_tool-Reading (get_storage_call args) h =
      get_storage-Every codec reasons Reading args (λ a k. tt)
  call_tool-Reading (get_code_call args) h = get_code-Every codec reasons Reading args (λ a. tt)
  call_tool-Reading (simulate_call args) h =
      run_transfer-Every codec reasons Reading args tt false (λ tx. tt)
  call_tool-Reading _ h = absurd (cc)

module _ (B E W : Type 0) {Envelope X I : Type 0} (codec : Codec Envelope X)
    (reasons : Reasons I) where
  abbrev P : Request B TxEnv → Type 0
  P = Harmless B E W TxEnv X I

  -- Whatever the manager answers in between, each request of a tool that reads, `simulate` among them,
  -- is one that the manager meets with jobs that read alone.
  pub call_tool-Harmless :
      (call : ToolCall)
      → is_read call ≡ true
      → Every (Harmless B E W TxEnv X I) (call_tool reasons codec call)
  unfolding call_tool simulate
  call_tool-Harmless (get_balance_call args) h =
      get_balance-Every codec reasons P args (basic-Harmless B E W TxEnv X I args.session_id)
  call_tool-Harmless (get_storage_call args) h =
      get_storage-Every codec reasons P args (storage-Harmless B E W TxEnv X I args.session_id)
  call_tool-Harmless (get_code_call args) h =
      get_code-Every codec reasons P args (code-Harmless B E W TxEnv X I args.session_id)
  call_tool-Harmless (simulate_call args) h =
      run_transfer-Every codec reasons P args (block_env-Harmless B E W TxEnv X I args.session_id)
        false (simulate-Harmless B E W TxEnv X I args.session_id)
  call_tool-Harmless _ h = absurd (cc)
