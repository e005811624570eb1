-- ===== src/Fetch/Batches.antt =====
-- Every key that a batch was made for is in one of its three lists.
use Prim.Native.String.{String}
use forkyard.Base.{ℕ, List, [], ◌∷◌, ◌++◌, Result, ok, All, ◌≡◌, arith, bind_ok, map, length, ap}
use forkyard.Fetch.Batch.{Call, Batch, add_call, add_key, add_keys}
use forkyard.Fetch.Keys.{StateKey, account, storage, block_hash}

abbrev pub account_key : ℕ × ℕ × ℕ × ℕ → StateKey
account_key e = account e.0

abbrev pub slot_key : ℕ × ℕ × ℕ → StateKey
slot_key e = storage e.0 e.1

abbrev pub Pending : (StateKey → Type 0) → Batch → Type 0
Pending Q b =
    All Q (map account_key b.accounts)
    × All Q (map slot_key b.slots)
    × All Q (map block_hash b.hashes)

All-map-append_last :
    {A : Type 0} (Q : StateKey → Type 0) (key : A → StateKey) (xs : List A) (x : A)
    → All Q (map key (xs ++ x ∷ []))
    → All Q (map key xs) × Q (key x)
All-map-append_last Q key [] x h = (tt, h.0)
All-map-append_last Q key (y ∷ xs) x h =
    let rest = All-map-append_last Q key xs x h.1 in ((h.0, rest.0), rest.1)

module _ (written : Call → Result String (Unit {0})) where
  add_account :
      (a : ℕ) (b : Batch) {b' : Batch}
      → add_key written (account a) b ≡ ok b'
      → (w : ℕ × ℕ × ℕ) × (b'.accounts ≡ b.accounts ++ (a, w.0, w.1, w.2) ∷ [])
        × (b'.slots ≡ b.slots)
        × (b'.hashes ≡ b.hashes)
  unfolding add_key add_call
  add_account a b e =
      let one = b.calls ++ Call.get_balance a ∷ [] in
      let two = one ++ Call.get_transaction_count a ∷ [] in
      ((length b.calls, length one, length two), ground arith, ground arith, ground arith)

  add_slot :
      (a i : ℕ) (b : Batch) {b' : Batch}
      → add_key written (storage a i) b ≡ ok b'
      → (w : ℕ) × (b'.accounts ≡ b.accounts)
        × (b'.slots ≡ b.slots ++ (a, i, w) ∷ [])
        × (b'.hashes ≡ b.hashes)
  unfolding add_key add_call
  add_slot a i b e = (length b.calls, ground arith, ground arith, ground arith)

  module _ (Q : StateKey → Type 0) where
    add_key-Pending :
        (k : StateKey) (b : Batch) {b' : Batch}
        → add_key written k b ≡ ok b'
        → Pending Q b'
        → Q k × Pending Q b
    unfolding add_key
    add_key-Pending (account a) b {b'} e h =
        let (w, on_accounts, on_slots, on_hashes) = add_account a b e in
        let added =
          All-map-append_last Q account_key b.accounts (a, w.0, w.1, w.2)
            (rw (← on_accounts) h.0) in
        (added.1, (added.0, rw (← on_slots) h.1, rw (← on_hashes) h.2))
    add_key-Pending (storage a i) b {b'} e h =
        let (w, on_accounts, on_slots, on_hashes) = add_slot a i b e in
        let added = All-map-append_last Q slot_key b.slots (a, i, w) (rw (← on_slots) h.1) in
        (added.1, (rw (← on_accounts) h.0, added.0, rw (← on_hashes) h.2))
    add_key-Pending (block_hash n) b {b'} e h =
        let same : record b { hashes = b.hashes ++ n ∷ [] } ≡ b' = cc in
        let added =
          All-map-append_last Q block_hash b.hashes n
            (rw (ap (λ (c : Batch). c.hashes) same) h.2) in
        (
          added.1,
          (
            rw (ap (λ (c : Batch). c.accounts) same) h.0,
            rw (ap (λ (c : Batch). c.slots) same) h.1,
            added.0,
          ),
        )

    pub add_keys-Pending :
        (ks : List StateKey) (b : Batch) {b' : Batch}
        → add_keys written ks b ≡ ok b'
        → Pending Q b'
        → All Q ks × Pending Q b
    unfolding add_keys
    add_keys-Pending [] b {b'} e h = let same : b ≡ b' = cc in (tt, rw same h)
    add_keys-Pending (k ∷ ks) b e h =
        let (c, added, others) = bind_ok (add_key written k b) (add_keys written ks) e in
        let rest = add_keys-Pending ks c others h in
        let first = add_key-Pending k b added rest.1 in ((first.0, rest.0), first.1)
