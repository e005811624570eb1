-- ===== src/Http/SideTable.antt =====
-- crates/api-http/src/lib.rs: what `dispatch` does to the side table of a session's receipts.
use forkyard.Base.{ℕ, ◌+◌, none, some, ℕ_discrete}
use forkyard.Base.Maps
use forkyard.Http.Codec.{Codec, Legacy}
use forkyard.Http.Digits.{word_hex}
use forkyard.Http.Json.{Value}
use forkyard.Http.Params.{or_default}
use forkyard.Http.Reads.{u64}
use forkyard.Http.Receipts.{Table, SessionRpcState, default_state, get_state, put, build_receipt}

-- `guard.entry(session_id).or_default()`.
abbrev pub entry : ℕ → Table → SessionRpcState
entry session_id table = or_default default_state (get_state session_id table)

unfoldable pub inherit : ℕ → ℕ → Table → Table
inherit parent child table = elim (get_state parent table) [
  | none ↦ table
  | some inherited ↦ Maps.insert ℕ_discrete child inherited table
]

unfoldable pub forget : ℕ → Table → Table
forget session_id table = Maps.remove ℕ_discrete session_id table

module _ {Envelope X : Type 0} (codec : Codec Envelope X) where
  -- The receipt that a transaction gets in a table, and the table with it.
  unfoldable pub receipt_in : ℕ → Legacy → ℕ → X → ℕ → Table → Value
  unfolding build_receipt
  receipt_in session_id tx sender result real_start table =
      build_receipt codec tx.hash sender tx.to result
        (u64 (real_start + u64 ((entry session_id table).block_number + 1)))

  unfoldable pub record_send : ℕ → Legacy → ℕ → X → ℕ → Table → Table
  unfolding receipt_in put word_hex
  record_send session_id tx sender result real_start table =
      let old = entry session_id table in
      Maps.insert ℕ_discrete session_id
        (record {
          receipts =
              put (word_hex tx.hash) (receipt_in session_id tx sender result real_start table)
                old.receipts;
          block_number = u64 (old.block_number + 1);
        })
        table
