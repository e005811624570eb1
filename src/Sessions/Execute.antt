-- ===== src/Sessions/Execute.antt =====
-- crates/session/src/lib.rs, `execute`, `transact`, `execution_error` and `code_of`: the programs
-- that jobs run against a session.
use Prim.Native.String.{String}
use forkyard.Base.{ℕ, List, [], Bool, Option, none, some, Result, ok, err, ◌==◌, if◌then◌else◌}
use forkyard.Engine.Types.{AccountInfo, BlockEnv, keccak_empty, default_account}
use forkyard.Engine.Session.{Session}
use forkyard.Engine.Database.{SessionDbError, Change, commit}
use forkyard.Fetch.Speculation.{Thread}
use forkyard.Sessions.Program.{Program, returns, reads_account, reads_code, reads_slot, and_then}
use forkyard.Sessions.Attempt.{Pass, done, missed, panicked, attempt}
use forkyard.Sessions.Jobs.{SessionError}

-- `EVMError`: a validation failure, or anything else by its debug text.
pub data EvmError (I : Type 0) : Type 0 where
  transaction : I → EvmError I
  other : String → EvmError I

-- What the session crate takes from revm. `transact` runs one transaction, with balance and
-- base-fee checks disabled or not, in a block; it sees state only by the reads of its program.
pub record Evm (B E Tx X I : Type 0) : Type 0 where
  pub caller : Tx → ℕ
  pub callee : Tx → Option ℕ
  pub transact : Tx → Bool → BlockEnv → Program B E (Result (EvmError I) (X × List (ℕ × Change B)))
  pub original_bytes : B → List ℕ
  pub display : SessionDbError E → String

unfoldable pub execution_error : {I : Type 0} → EvmError I → SessionError I
execution_error (transaction reason) = SessionError.invalid_transaction reason
execution_error (other text) = SessionError.execution text

-- The result and the diff of an execution, or why there is none.
abbrev pub Ran : Type 0 → Type 0 → Type 0 → Type 0
Ran B X I = Result (SessionError I) (X × List (ℕ × Change B))

unfoldable pub checked :
    {B X I : Type 0} → Result (EvmError I) (X × List (ℕ × Change B)) → Ran B X I
unfolding execution_error
checked (ok out) = ok out
checked (err error) = err (execution_error error)

module _ {B E Tx X I : Type 0} (evm : Evm B E Tx X I) where
  unfoldable pub transact : BlockEnv → Tx → Bool → Program B E (Ran B X I)
  unfolding and_then checked
  transact block_env tx disable_checks =
      and_then (evm.transact tx disable_checks block_env) (λ out. returns (checked out))

  -- The closure of `execute`: the sender and the recipient are read first, their replies unused.
  unfoldable pub touch_and_transact : BlockEnv → Tx → Bool → Program B E (Ran B X I)
  unfolding transact
  touch_and_transact block_env tx disable_checks = reads_account (evm.caller tx) (λ _.
      elim (evm.callee tx) [
        | some to ↦ reads_account to (λ _. transact block_env tx disable_checks)
        | none ↦ transact block_env tx disable_checks
      ])

  -- The account's inline code, or else the code of its hash.
  unfoldable pub code_of_account : AccountInfo B → Program B E (Result (SessionError I) (List ℕ))
  code_of_account info = elim info.code [
    | some code ↦ returns (ok (evm.original_bytes code))
    | none ↦
        if info.code_hash == keccak_empty
        then returns (ok [])
        else reads_code info.code_hash (λ r. elim r [
          | ok code ↦ returns (ok (evm.original_bytes code))
          | err e ↦ returns (err (SessionError.execution (evm.display e)))
        ])
  ]

  unfoldable pub code_of : ℕ → Program B E (Result (SessionError I) (List ℕ))
  unfolding code_of_account
  code_of address = reads_account address (λ r. elim r [
    | err e ↦ returns (err (SessionError.execution (evm.display e)))
    | ok found ↦ elim found [
      | none ↦ code_of_account default_account
      | some info ↦ code_of_account info
    ]
  ])

  abbrev displayed : {A : Type 0} → Result (SessionDbError E) A → Result (SessionError I) A
  displayed (ok a) = ok a
  displayed (err e) = err (SessionError.execution (evm.display e))

  unfoldable pub read_slot : ℕ → ℕ → Program B E (Result (SessionError I) ℕ)
  read_slot address key = reads_slot address key (λ r. returns (displayed r))

  unfoldable pub read_account : ℕ → Program B E (Result (SessionError I) (Option (AccountInfo B)))
  read_account address = reads_account address (λ r. returns (displayed r))

module _ {B E W X I : Type 0} where
  -- What `execute` makes of the outcome of its pass: the diff is written only with `commit`, and
  -- only after a pass that is clean.
  unfoldable pub settle_execution :
      Bool
      → Pass (Ran B X I) × Session B E (Thread W) × Thread W
      → Pass (Result (SessionError I) X) × Session B E (Thread W) × Thread W
  settle_execution commits (done (ok (result, changes)), s, t) =
      (done (ok result), (if commits then commit changes s else s), t)
  settle_execution commits (done (err e), s, t) = (done (err e), s, t)
  settle_execution commits (missed keys, s, t) = (missed keys, s, t)
  settle_execution commits (panicked, s, t) = (panicked, s, t)

module _ {B E W Tx X I : Type 0} (evm : Evm B E Tx X I) where
  unfoldable pub execute :
      Session B E (Thread W)
      → Tx
      → Bool
      → Bool
      → Bool
      → Thread W
      → Pass (Result (SessionError I) X) × Session B E (Thread W) × Thread W
  unfolding touch_and_transact attempt settle_execution
  execute s tx commits disable_checks blocking t =
      settle_execution commits
        (attempt s blocking (touch_and_transact evm s.block_env tx disable_checks) t)
