-- ===== src/Http/Sending.antt =====
-- crates/api-http/src/lib.rs: what a client reads after it sent a transaction.
use Prim.Native.String.{String}
use text.Mathlib.Text.{◌==◌ as ◌=text=◌}
use text.Mathlib.TextPositions.{eq_refl}
use forkyard.Base.{
  ℕ, ◌+◌, ◌^◌, ◌<◌, List, [], ◌∷◌, Bool, true, false, Option, none, some, ok, ◌≡◌, ◌∙◌, sym, ap,
  refl, Bool-cases, inl, inr, if◌then◌else◌, ℕ_discrete,
}
use forkyard.Base.Maps.{get-insert_self}
use forkyard.Engine.Types.{BlockEnv}
use forkyard.Http.Codec.{Codec, Legacy}
use forkyard.Http.Digits.{hex, word_hex}
use forkyard.Http.Errors.{Reasons}
use forkyard.Http.Json.{Value, string}
use forkyard.Http.Lowercase.{to_lowercase-word_hex}
use forkyard.Http.Params.{or_default, map_some, param_str}
use forkyard.Http.Reads
use forkyard.Http.Reads.{u64}
use forkyard.Http.Receipts.{
  SessionRpcState, default_state, build_receipt, Table, lookup, put, get_state,
}
use forkyard.Http.Rpc.{try, returns}
use forkyard.Http.Run.{
  Manager, Executed, AtBlock, run, run-try, run-ask, run-session_block_env, run-to_u64,
}
use forkyard.Http.SideTable.{entry, receipt_in, record_send}
use forkyard.Http.Transactions.{signed_tx, sent_tx}
use forkyard.Http.Writes
use forkyard.Sessions.Requests
use forkyard.Sessions.Requests.{Request, Answered}

lookup-put_self :
    (k : String) (v : Value) (m : List (String × Value)) → lookup k (put k v m) ≡ some v
unfolding lookup put
lookup-put_self k v [] = rw (eq_refl k) refl
lookup-put_self k v ((j, w) ∷ m) = elim (Bool-cases (j =text= k)) [
  | inl same ↦ rw (same, eq_refl k) refl
  | inr other ↦ rw (other, other) (lookup-put_self k v m)
]

counted :
    (state : Option SessionRpcState)
    → (or_default default_state state).block_number
      ≡ or_default 0 (map_some (λ s. s.block_number) state)
counted none = refl
counted (some s) = refl

module _ {B Envelope X I : Type 0} (codec : Codec Envelope X) (reasons : Reasons I)
    (manager : Manager B X I) (own : BlockEnv) (id sender : ℕ) (tx : Legacy) (result : X)
    (env : BlockEnv) (params : List Value) (table : Table)
    (signed : signed_tx codec params ≡ ok (tx, sender))
    (advanced : Executed manager id (sent_tx tx sender) result)
    (at_block : AtBlock X manager id env) (fits : env.number < 2 ^ 64) where
  send_lem :
      (sync : Bool)
      → run manager own (Writes.send_raw_transaction codec reasons sync id params) table ≡ (
        some (
            ok (
              if sync
              then receipt_in codec id tx sender result env.number table
              else string (word_hex tx.hash))),
        record_send codec id tx sender result env.number table,
      )
  unfolding Writes.send_raw_transaction Writes.kept run Answered
  send_lem sync =
      run-try manager own (signed_tx codec params) _ (tx, sender) table signed
      ∙ run-ask manager own reasons (Requests.advance id (sent_tx tx sender)) _ result table
          advanced
      ∙ run-session_block_env manager own id _ env table at_block
      ∙ run-to_u64 manager own env.number (Writes.kept codec reasons sync id tx sender result) table
          fits

  -- The table after the transaction was sent.
  abbrev after : Table
  after = record_send codec id tx sender result env.number table

  abbrev receipt : Value
  receipt = receipt_in codec id tx sender result env.number table

  after-entry :
      get_state id after
      ≡ some (record {
        receipts = put (word_hex tx.hash) receipt (entry id table).receipts;
        block_number = u64 ((entry id table).block_number + 1);
      })
  unfolding record_send
  after-entry = get-insert_self ℕ_discrete id _ table

  poll_lem :
      run manager own (Reads.get_receipt id (string (word_hex tx.hash) ∷ [])) after
      ≡ (some (ok receipt), after)
  unfolding Reads.get_receipt run try param_str
  poll_lem =
      rw
        (
          after-entry,
          to_lowercase-word_hex tx.hash,
          lookup-put_self (word_hex tx.hash) receipt (entry id table).receipts,
        )
        refl

  count_lem : Reads.sent_count id after ≡ u64 ((entry id table).block_number + 1)
  count_lem = rw after-entry refl

  number_lem :
      run manager own (Reads.block_number id) after
      ≡ (some (ok (string (hex (u64 (env.number + Reads.sent_count id after))))), after)
  unfolding Reads.block_number Reads.real_block_number run
  number_lem =
      run-session_block_env manager own id _ env after at_block
      ∙ run-to_u64 manager own env.number
          (λ start. returns (string (hex (u64 (start + Reads.sent_count id after))))) after fits

  -- Once a transaction with a valid signature has run, where the block of its session is answered and
  -- its number fits 64 bits: both ways of sending it leave the same side table; one answers the
  -- receipt, the other the hash as a text, with which `eth_getTransactionReceipt` then finds that
  -- receipt. The block number that the receipt was made with is the one that `eth_blockNumber` then
  -- gives, and the session's count has grown by one, up to 64 bits.
  pub sent_found :
      (run manager own (Writes.send_raw_transaction codec reasons true id params) table
        ≡ (some (ok receipt), after))
      × (run manager own (Writes.send_raw_transaction codec reasons false id params) table
          ≡ (some (ok (string (word_hex tx.hash))), after))
      × (run manager own (Reads.get_receipt id (string (word_hex tx.hash) ∷ [])) after
          ≡ (some (ok receipt), after))
      × (run manager own (Reads.block_number id) after
          ≡ (some (ok (string (hex (u64 (env.number + Reads.sent_count id after))))), after))
      × (receipt
          ≡ build_receipt codec tx.hash sender tx.to result
              (u64 (env.number + Reads.sent_count id after)))
      × (Reads.sent_count id after ≡ u64 (Reads.sent_count id table + 1))
  unfolding receipt_in
  sent_found = (
    send_lem true,
    send_lem false,
    poll_lem,
    number_lem,
    ap (λ n. build_receipt codec tx.hash sender tx.to result (u64 (env.number + n)))
        (sym count_lem),
    count_lem ∙ ap (λ n. u64 (n + 1)) (counted (get_state id table)),
  )
