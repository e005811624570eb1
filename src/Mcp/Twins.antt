-- ===== src/Mcp/Twins.antt =====
-- The tools of crates/api-mcp/src/lib.rs and the methods of crates/api-http/src/lib.rs that do the
-- same to a session.
use Prim.Native.String.{String}
use mathlib.Core.Path.{fun_ext, subst}
use forkyard.Base.{
  ℕ, List, [], ◌∷◌, Bool, true, false, Option, none, some, Result, ok, err, map_err, ◌≡◌, refl, ap,
}
use forkyard.Engine.Types.{AccountInfo, BlockEnv, default_account}
use forkyard.Http.Codec.{Codec, TxEnv}
use forkyard.Http.Errors.{RpcErrorObj, Reasons}
use forkyard.Http.Json.{Value, string}
use forkyard.Http.Params.{or_default, trim_0x}
use forkyard.Http.Reads
use forkyard.Http.Receipts.{Table}
use forkyard.Http.Rpc
use forkyard.Http.Rpc.{Rpc}
use forkyard.Http.Surface.{dispatch}
use forkyard.Http.Writes
use forkyard.Mcp.Args.{BalanceArgs, SetBalanceArgs, SetStorageArgs, GetStorageArgs}
use forkyard.Mcp.Tool
use forkyard.Mcp.Tool.{ErrorData, Tool}
use forkyard.Mcp.Tools.{
  ToolCall, get_balance_call, set_balance_call, set_storage_call, get_storage_call, get_code_call,
  snapshot_call, discard_call, call_tool, get_balance, set_balance, set_storage, get_storage,
  get_code, snapshot, discard,
}
use forkyard.Sessions.Jobs.{SessionError}
use forkyard.Sessions.Requests.{Request, Answered}

-- What a call does to the manager: its requests, in order, and whether it is refused in the end.
pub data Course (B X I : Type 0) : Type 0 where
  ends : Bool → Course B X I
  next :
      (r : Request B TxEnv) → (Result (SessionError I) (Answered X r) → Course B X I) → Course B X I

module _ {B X I A : Type 0} where
  -- The course of a call on the JSON-RPC surface that runs alone.
  pub of_rpc : BlockEnv → Table → Rpc B X I A → Course B X I
  of_rpc env table (Rpc.returns a) = ends true
  of_rpc env table (Rpc.refuses e) = ends false
  of_rpc env table Rpc.panics = ends false
  of_rpc env table (Rpc.asks r k) = next r (λ x. of_rpc env table (k x))
  of_rpc env table (Rpc.manager_env k) = of_rpc env table (k env)
  of_rpc env table (Rpc.locked f k) = of_rpc env (f table) (k table)

  pub of_tool : Tool B X I A → Course B X I
  of_tool (Tool.returns a) = ends true
  of_tool (Tool.refuses e) = ends false
  of_tool (Tool.asks r k) = next r (λ x. of_tool (k x))

module _ {B X I A C : Type 0} (env : BlockEnv) (table : Table) where
  -- Both surfaces parse a text by the same function, and wrap its error.
  try-twin :
      {D : Type 0} (f : String → RpcErrorObj) (g : String → ErrorData) (r : Result String D)
      (k : D → Rpc B X I A) (l : D → Tool B X I C)
      → ((d : D) → of_rpc env table (k d) ≡ of_tool (l d))
      → of_rpc env table (Rpc.try (map_err f r) k) ≡ of_tool (Tool.try (map_err g r) l)
  unfolding of_rpc of_tool Rpc.try Tool.try
  try-twin f g (ok d) k l h = h d
  try-twin f g (err e) k l h = refl

  answered-twin :
      {D : Type 0} (reasons : Reasons I) (k : D → Rpc B X I A) (l : D → Tool B X I C)
      (x : Result (SessionError I) D)
      → ((d : D) → of_rpc env table (k d) ≡ of_tool (l d))
      → of_rpc env table (Rpc.answered reasons k x) ≡ of_tool (Tool.answered reasons l x)
  unfolding of_rpc of_tool Rpc.answered Tool.answered
  answered-twin reasons k l (ok d) h = h d
  answered-twin reasons k l (err e) h = refl

  ask-twin :
      (reasons : Reasons I) (r : Request B TxEnv) (k : Answered X r → Rpc B X I A)
      (l : Answered X r → Tool B X I C)
      → ((a : Answered X r) → of_rpc env table (k a) ≡ of_tool (l a))
      → of_rpc env table (Rpc.ask reasons r k) ≡ of_tool (Tool.ask reasons r l)
  unfolding of_rpc of_tool Rpc.ask Tool.ask
  ask-twin reasons r k l h = ap (next r) (fun_ext (λ x. answered-twin reasons k l x h))

-- The method, the session and the parameters by which the JSON-RPC surface does the same.
abbrev pub twin : ToolCall → Option (String × ℕ × List Value)
twin (get_balance_call args) = some ("eth_getBalance", args.session_id, string args.address ∷ [])
twin (set_balance_call args) =
    some ("forkyard_setBalance", args.session_id, string args.address ∷ string args.balance ∷ [])
twin (set_storage_call args) = some (
  "forkyard_setStorageAt",
  args.session_id,
  string args.address ∷ string args.slot ∷ string args.value ∷ [],
)
twin (get_storage_call args) =
    some ("eth_getStorageAt", args.session_id, string args.address ∷ string args.slot ∷ [])
twin (get_code_call args) = some ("eth_getCode", args.session_id, string args.address ∷ [])
twin (snapshot_call session_id) = some ("forkyard_snapshot", session_id, [])
twin (discard_call session_id) = some ("forkyard_discard", session_id, [])
twin _ = none

some_inj : {A : Type 0} (a b : A) → some a ≡ some b → a ≡ b
some_inj a b h = cc

module _ (B : Type 0) {Envelope X I : Type 0} (codec : Codec Envelope X) (reasons : Reasons I)
    (chain_id : ℕ) (env : BlockEnv) (table : Table) where
  abbrev by_rpc : String × ℕ × List Value → Course B X I
  by_rpc (method, id, params) = of_rpc env table (dispatch codec reasons chain_id id method params)

  abbrev by_tool : ToolCall → Course B X I
  by_tool call = of_tool (call_tool reasons codec call)

  get_balance-twin :
      (args : BalanceArgs)
      → by_rpc ("eth_getBalance", args.session_id, string args.address ∷ [])
        ≡ by_tool (get_balance_call args)
  unfolding dispatch call_tool get_balance of_rpc of_tool Reads.get_balance
  get_balance-twin args =
      try-twin env table _ _ (codec.parse_address args.address) _ _
        (λ a. ask-twin env table reasons (Request.basic args.session_id a) _ _ (λ info. refl))

  set_balance-twin :
      (args : SetBalanceArgs)
      → by_rpc
          ("forkyard_setBalance", args.session_id, string args.address ∷ string args.balance ∷ [])
        ≡ by_tool (set_balance_call args)
  unfolding dispatch call_tool set_balance of_rpc of_tool Writes.set_balance
  set_balance-twin args = try-twin env table _ _ (codec.parse_address args.address) _ _ (λ a.
      try-twin env table _ _ (codec.from_radix_16 (trim_0x args.balance)) _ _ (λ balance.
        ask-twin env table reasons (Request.basic args.session_id a) _ _ (λ found.
          unfold Answered in
          let info : AccountInfo B = or_default default_account found in
          ask-twin env table reasons
            (Request.set_account args.session_id a (record info { balance = balance })) _ _
            (λ u. refl))))

  set_storage-twin :
      (args : SetStorageArgs)
      → by_rpc (
        "forkyard_setStorageAt",
        args.session_id,
        string args.address ∷ string args.slot ∷ string args.value ∷ [],
      )
        ≡ by_tool (set_storage_call args)
  unfolding dispatch call_tool set_storage of_rpc of_tool Writes.set_storage_at
  set_storage-twin args = try-twin env table _ _ (codec.parse_address args.address) _ _ (λ a.
      try-twin env table _ _ (codec.from_radix_16 (trim_0x args.slot)) _ _ (λ k.
        try-twin env table _ _ (codec.from_radix_16 (trim_0x args.value)) _ _ (λ v.
          ask-twin env table reasons (Request.set_storage args.session_id a k v) _ _ (λ u. refl))))

  get_storage-twin :
      (args : GetStorageArgs)
      → by_rpc ("eth_getStorageAt", args.session_id, string args.address ∷ string args.slot ∷ [])
        ≡ by_tool (get_storage_call args)
  unfolding dispatch call_tool get_storage of_rpc of_tool Reads.get_storage_at
  get_storage-twin args = try-twin env table _ _ (codec.parse_address args.address) _ _ (λ a.
      try-twin env table _ _ (codec.from_radix_16 (trim_0x args.slot)) _ _
        (λ k. ask-twin env table reasons (Request.storage args.session_id a k) _ _ (λ v. refl)))

  get_code-twin :
      (args : BalanceArgs)
      → by_rpc ("eth_getCode", args.session_id, string args.address ∷ [])
        ≡ by_tool (get_code_call args)
  unfolding dispatch call_tool get_code of_rpc of_tool Reads.get_code
  get_code-twin args =
      try-twin env table _ _ (codec.parse_address args.address) _ _
        (λ a. ask-twin env table reasons (Request.code args.session_id a) _ _ (λ code. refl))

  snapshot-twin : (id : ℕ) → by_rpc ("forkyard_snapshot", id, []) ≡ by_tool (snapshot_call id)
  unfolding dispatch call_tool snapshot of_rpc of_tool Writes.snapshot
  snapshot-twin id = ask-twin env table reasons (Request.snapshot id) _ _ (λ info. refl)

  discard-twin : (id : ℕ) → by_rpc ("forkyard_discard", id, []) ≡ by_tool (discard_call id)
  unfolding dispatch call_tool discard of_rpc of_tool Writes.discard
  discard-twin id = ask-twin env table reasons (Request.discard id) _ _ (λ u. refl)

  same_twin :
      {p q : String × ℕ × List Value} {c : Course B X I}
      → some p ≡ some q
      → by_rpc p ≡ c
      → by_rpc q ≡ c
  same_twin {p} {q} {c} h e =
      subst (λ (x : String × ℕ × List Value). by_rpc x ≡ c) (some_inj p q h) e

  -- A tool that has a twin among the methods of the JSON-RPC surface takes the same course as a call
  -- of that method that runs alone, whatever stands in the side table: the same requests in the same
  -- order, whatever the manager answers, and it is refused just where the method is.
  pub call_tool-twin :
      (call : ToolCall) (q : String × ℕ × List Value) → twin call ≡ some q → by_rpc q ≡ by_tool call
  call_tool-twin (get_balance_call args) q h = same_twin h (get_balance-twin args)
  call_tool-twin (set_balance_call args) q h = same_twin h (set_balance-twin args)
  call_tool-twin (set_storage_call args) q h = same_twin h (set_storage-twin args)
  call_tool-twin (get_storage_call args) q h = same_twin h (get_storage-twin args)
  call_tool-twin (get_code_call args) q h = same_twin h (get_code-twin args)
  call_tool-twin (snapshot_call id) q h = same_twin h (snapshot-twin id)
  call_tool-twin (discard_call id) q h = same_twin h (discard-twin id)
  call_tool-twin _ q h = absurd (cc)
