-- ===== src/Fetch/Batch.antt =====
-- crates/fetch/src/lib.rs, `ReadThrough::send_batch` up to the sending: the calls of one JSON-RPC
-- batch, and what is remembered of each to read its reply.
use Prim.Native.String.{String}
use forkyard.Base.{ℕ, List, [], ◌∷◌, ◌++◌, Result, ok, ◌>>=◌, length}
use forkyard.Fetch.Keys.{StateKey, account, storage, block_hash}

-- The methods that a batch calls, each at the fork's block.
pub data Call : Type 0 where
  get_balance : ℕ → Call
  get_transaction_count : ℕ → Call
  get_code : ℕ → Call
  get_storage_at : ℕ → ℕ → Call

-- A waiter is the position of its call in the batch.
pub record Batch : Type 0 where
  pub calls : List Call
  pub accounts : List (ℕ × ℕ × ℕ × ℕ)
  pub slots : List (ℕ × ℕ × ℕ)
  pub hashes : List ℕ

abbrev pub new_batch : Batch
new_batch = record { calls = []; accounts = []; slots = []; hashes = [] }

-- alloy writes the parameters of a call, which may fail.
module _ (written : Call → Result String (Unit {0})) where
  unfoldable pub add_call : Call → List Call → Result String (ℕ × List Call)
  add_call call calls = do _ ← written call; ok (length calls, calls ++ call ∷ [])

  unfoldable pub add_key : StateKey → Batch → Result String Batch
  unfolding add_call
  add_key (account address) b = do
    (balance, with_balance) ← add_call (Call.get_balance address) b.calls
    (nonce, with_nonce) ← add_call (Call.get_transaction_count address) with_balance
    (code, with_code) ← add_call (Call.get_code address) with_nonce
    ok (record b {
      calls = with_code;
      accounts = b.accounts ++ (address, balance, nonce, code) ∷ [];
    })
  add_key (storage address index) b = do
    (value, with_value) ← add_call (Call.get_storage_at address index) b.calls
    ok (record b { calls = with_value; slots = b.slots ++ (address, index, value) ∷ [] })
  add_key (block_hash number) b = ok (record b { hashes = b.hashes ++ number ∷ [] })

  unfoldable pub add_keys : List StateKey → Batch → Result String Batch
  unfolding add_key
  add_keys [] b = ok b
  add_keys (key ∷ keys) b = add_key key b >>= add_keys keys
