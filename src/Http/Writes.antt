-- ===== src/Http/Writes.antt =====
-- crates/api-http/src/lib.rs, `dispatch`: the methods that change a session, or the side table.
use forkyard.Base.{ℕ, List, Bool, true, if◌then◌else◌}
use forkyard.Engine.SnapshotStore.{SnapshotInfo}
use forkyard.Engine.Types.{default_account}
use forkyard.Http.Codec.{Legacy, Codec}
use forkyard.Http.Digits.{word_hex}
use forkyard.Http.Errors.{Reasons}
use forkyard.Http.Json.{Value, boolean, number, string, object, end, field}
use forkyard.Http.Params.{or_default, parse_address, parse_word}
use forkyard.Http.Rpc.{Rpc, returns, locked, try, ask, session_block_env, to_u64}
use forkyard.Http.SideTable.{inherit, forget, receipt_in, record_send}
use forkyard.Http.Transactions.{signed_tx, sent_tx}
use forkyard.Sessions.Requests
use forkyard.Sessions.Requests.{Answered}

unfoldable pub info_json : SnapshotInfo → Value
info_json info = object (
    field "snapshot_id" (string info.id) (
      field "block_number" (number info.block_number) (
        field "accounts" (number info.accounts) (
          field "storage_slots" (number info.storage_slots)
            (field "contracts" (number info.contracts) (field "bytes" (number info.bytes) end))))))

module _ {B Envelope X I : Type 0} (codec : Codec Envelope X) (reasons : Reasons I) where
  unfoldable pub set_balance : ℕ → List Value → Rpc B X I Value
  unfolding try parse_address parse_word ask Answered
  set_balance session_id params = try (parse_address codec params 0) (λ address.
      try (parse_word codec params 1) (λ balance.
        ask reasons (Requests.basic session_id address) (λ found.
          let info = or_default default_account found in
          ask reasons (Requests.set_account session_id address (record info { balance = balance }))
            (λ _. returns (boolean true)))))

  unfoldable pub set_storage_at : ℕ → List Value → Rpc B X I Value
  unfolding try parse_address parse_word ask Answered
  set_storage_at session_id params = try (parse_address codec params 0) (λ address.
      try (parse_word codec params 1) (λ key. try (parse_word codec params 2) (λ value.
        ask reasons (Requests.set_storage session_id address key value)
          (λ _. returns (boolean true)))))

  -- The receipt is stored under the lock, with the block number that the session started from.
  unfoldable pub kept : Bool → ℕ → Legacy → ℕ → X → ℕ → Rpc B X I Value
  unfolding record_send receipt_in word_hex
  kept sync session_id tx sender result real_start =
      locked (record_send codec session_id tx sender result real_start) (λ table. returns (
        if sync
        then receipt_in codec session_id tx sender result real_start table
        else string (word_hex tx.hash)))

  unfoldable pub send_raw_transaction : Bool → ℕ → List Value → Rpc B X I Value
  unfolding try signed_tx sent_tx ask session_block_env to_u64 kept Answered
  send_raw_transaction sync session_id params = try (signed_tx codec params) (λ signed.
      ask reasons (Requests.advance session_id (sent_tx signed.0 signed.1)) (λ result.
        session_block_env session_id
          (λ env. to_u64 env.number (kept sync session_id signed.0 signed.1 result))))

module _ {B X I : Type 0} (reasons : Reasons I) where
  unfoldable pub fork_from : ℕ → Rpc B X I Value
  unfolding ask inherit Answered
  fork_from session_id = ask reasons (Requests.fork_from session_id) (λ child.
      locked (inherit session_id child)
        (λ _. returns (object (field "session_id" (number child) end))))

  unfoldable pub snapshot : ℕ → Rpc B X I Value
  unfolding ask info_json Answered
  snapshot session_id =
      ask reasons (Requests.snapshot session_id) (λ info. returns (info_json info))

  unfoldable pub discard : ℕ → Rpc B X I Value
  unfolding ask forget Answered
  discard session_id =
      ask reasons (Requests.discard session_id)
        (λ _. locked (forget session_id) (λ _. returns (boolean true)))
