-- ===== src/Engine/Rollback.antt =====
-- The undoing of speculative reads: what a read caches is what `end_speculation` takes out again.
use forkyard.Base.{
  ℕ, List, [], ◌∷◌, ◌++◌, ◌≡◌, refl, ap, sym, ◌∙◌, false, Option, none, some, Option-cases, inl,
  inr, Result, ok, err, ℕ_discrete,
}
use forkyard.Base.Maps.{get, remove-insert_fresh, remove_comm}
use forkyard.Engine.Types.{AccountInfo, slot_discrete}
use forkyard.Engine.Session.{Session, ReadKey, forget, forget_all, end_speculation, log_read}
use forkyard.Engine.Database.{
  basic, code_by_hash, storage, block_hash, receive_account, receive_code, receive_slot,
  cache_account, cache_code, cache_slot,
}

module _ {B E S : Type 0} where
  forget_comm : (k j : ReadKey) (s : Session B E S) → forget k (forget j s) ≡ forget j (forget k s)
  unfolding forget
  forget_comm (ReadKey.account a) (ReadKey.account b) s =
      ap (λ m. record s { overlay_accounts = m }) (remove_comm ℕ_discrete a b s.overlay_accounts)
  forget_comm (ReadKey.code a) (ReadKey.code b) s =
      ap (λ m. record s { overlay_code = m }) (remove_comm ℕ_discrete a b s.overlay_code)
  forget_comm (ReadKey.storage a k) (ReadKey.storage b j) s =
      ap (λ m. record s { overlay_storage = m })
        (remove_comm slot_discrete (a, k) (b, j) s.overlay_storage)
  forget_comm _ _ s = refl

  forget_all-append :
      (log : List ReadKey) (key : ReadKey) (s : Session B E S)
      → forget_all (log ++ key ∷ []) s ≡ forget_all log (forget key s)
  unfolding forget_all
  forget_all-append [] key s = refl
  forget_all-append (k ∷ log) key s =
      forget_all-append log key (forget k s) ∙ ap (forget_all log) (forget_comm key k s)

  -- The session that a failed pass leaves behind.
  abbrev pub undone : Session B E S → Session B E S
  undone s = end_speculation s false

  undone_lem :
      (log : List ReadKey) (s : Session B E S)
      → s.read_log ≡ some log
      → undone s ≡ forget_all log (record s { read_log = none })
  unfolding end_speculation
  undone_lem log s h = rw (h, end_speculation)

  log_read_lem :
      (log : List ReadKey) (key : ReadKey) (t : Session B E S)
      → t.read_log ≡ some log
      → log_read key t ≡ record t { read_log = some (log ++ key ∷ []) }
  unfolding log_read
  log_read_lem log key t h = rw (h, log_read)

  undone-log_read :
      (log : List ReadKey) (key : ReadKey) (s t : Session B E S)
      → t.read_log ≡ some log
      → s.read_log ≡ some log
      → forget key (record t { read_log = none }) ≡ record s { read_log = none }
      → undone (log_read key t) ≡ undone s
  undone-log_read log key s t ht hs h =
      ap undone (log_read_lem log key t ht)
      ∙ undone_lem (log ++ key ∷ []) (record t { read_log = some (log ++ key ∷ []) }) refl
      ∙ forget_all-append log key (record t { read_log = none })
      ∙ ap (forget_all log) h
      ∙ sym (undone_lem log s hs)

  undone-cache_account :
      (log : List ReadKey) (address : ℕ) (info : AccountInfo B) (s : Session B E S)
      → s.read_log ≡ some log
      → get ℕ_discrete address s.overlay_accounts ≡ none
      → undone (cache_account address info s) ≡ undone s
  unfolding cache_account forget
  undone-cache_account log address info s hs h =
      undone-log_read log (ReadKey.account address) s _ hs hs (
        ap (λ m. record s { overlay_accounts = m; read_log = none })
          (remove-insert_fresh ℕ_discrete address info s.overlay_accounts h))

  undone-cache_code :
      (log : List ReadKey) (hash : ℕ) (bytecode : B) (s : Session B E S)
      → s.read_log ≡ some log
      → get ℕ_discrete hash s.overlay_code ≡ none
      → undone (cache_code hash bytecode s) ≡ undone s
  unfolding cache_code forget
  undone-cache_code log hash bytecode s hs h = undone-log_read log (ReadKey.code hash) s _ hs hs (
      ap (λ m. record s { overlay_code = m; read_log = none })
        (remove-insert_fresh ℕ_discrete hash bytecode s.overlay_code h))

  undone-cache_slot :
      (log : List ReadKey) (address index value : ℕ) (s : Session B E S)
      → s.read_log ≡ some log
      → get slot_discrete (address, index) s.overlay_storage ≡ none
      → undone (cache_slot address index value s) ≡ undone s
  unfolding cache_slot forget
  undone-cache_slot log address index value s hs h =
      undone-log_read log (ReadKey.storage address index) s _ hs hs (
        ap (λ m. record s { overlay_storage = m; read_log = none })
          (remove-insert_fresh slot_discrete (address, index) value s.overlay_storage h))

  -- After a read while a log is kept: the log goes on, and undoing it gives the same session.
  pub record Kept (s t : Session B E S) : Type 0 where
    pub log : List ReadKey
    pub logs : t.read_log ≡ some log
    pub undoes : undone t ≡ undone s

  pub Kept-refl : (log : List ReadKey) (s : Session B E S) → s.read_log ≡ some log → Kept s s
  Kept-refl log s h = record { log = log; logs = h; undoes = refl }

  module _ (log : List ReadKey) (s : Session B E S) (hs : s.read_log ≡ some log) where
    pub basic-Kept : (address : ℕ) (w : S) → Kept s (basic address s w).1
    unfolding basic
    basic-Kept address w = elim (Option-cases (get ℕ_discrete address s.overlay_accounts)) [
      | inr (info, e) ↦ rw (e, basic) (Kept-refl log s hs)
      | inl fresh ↦ elim (Option-cases (get ℕ_discrete address s.base.accounts)) [
        | inr (info, e) ↦ rw (fresh, e, basic) (Kept-refl log s hs)
        | inl e ↦ rw (fresh, e, basic) (receive fresh (s.fallback.basic_ref address w))
      ]
    ]
      where
        receive :
            get ℕ_discrete address s.overlay_accounts ≡ none
            → (r : Result E (Option (AccountInfo B)) × S) → Kept s (receive_account address s r).1
        receive fresh (ok (some info), w') = record {
          log = log ++ ReadKey.account address ∷ [];
          logs = ap (λ t. t.read_log) (log_read_lem log _ _ hs);
          undoes = undone-cache_account log address info s hs fresh;
        }
        receive fresh (ok none, w') = Kept-refl log s hs
        receive fresh (err e, w') = Kept-refl log s hs

    pub code_by_hash-Kept : (hash : ℕ) (w : S) → Kept s (code_by_hash hash s w).1
    unfolding code_by_hash
    code_by_hash-Kept hash w = elim (Option-cases (get ℕ_discrete hash s.overlay_code)) [
      | inr (found, e) ↦ rw (e, code_by_hash) (Kept-refl log s hs)
      | inl fresh ↦ elim (Option-cases (get ℕ_discrete hash s.base.code)) [
        | inr (found, e) ↦ rw (fresh, e, code_by_hash) (Kept-refl log s hs)
        | inl e ↦ rw (fresh, e, code_by_hash) (receive fresh (s.fallback.code_by_hash_ref hash w))
      ]
    ]
      where
        receive :
            get ℕ_discrete hash s.overlay_code ≡ none
            → (r : Result E B × S) → Kept s (receive_code hash s r).1
        receive fresh (ok found, w') = record {
          log = log ++ ReadKey.code hash ∷ [];
          logs = ap (λ t. t.read_log) (log_read_lem log _ _ hs);
          undoes = undone-cache_code log hash found s hs fresh;
        }
        receive fresh (err e, w') = Kept-refl log s hs

    pub storage-Kept : (address index : ℕ) (w : S) → Kept s (storage address index s w).1
    unfolding storage
    storage-Kept address index w =
        elim (Option-cases (get slot_discrete (address, index) s.overlay_storage)) [
          | inr (value, e) ↦ rw (e, storage) (Kept-refl log s hs)
          | inl fresh ↦ elim (Option-cases (get slot_discrete (address, index) s.base.storage)) [
            | inr (value, e) ↦ rw (fresh, e, storage) (Kept-refl log s hs)
            | inl e ↦
                rw (fresh, e, storage) (receive fresh (s.fallback.storage_ref address index w))
          ]
        ]
      where
        receive :
            get slot_discrete (address, index) s.overlay_storage ≡ none
            → (r : Result E ℕ × S) → Kept s (receive_slot address index s r).1
        receive fresh (ok value, w') = record {
          log = log ++ ReadKey.storage address index ∷ [];
          logs = ap (λ t. t.read_log) (log_read_lem log _ _ hs);
          undoes = undone-cache_slot log address index value s hs fresh;
        }
        receive fresh (err e, w') = Kept-refl log s hs

    pub block_hash-Kept : (number : ℕ) (w : S) → Kept s (block_hash number s w).1
    unfolding block_hash
    block_hash-Kept number w = elim (Option-cases (get ℕ_discrete number s.base.block_hashes)) [
      | inr (value, e) ↦ rw (e, block_hash) (Kept-refl log s hs)
      | inl e ↦ rw (e, block_hash) (Kept-refl log s hs)
    ]
