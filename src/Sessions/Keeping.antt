-- ===== src/Sessions/Keeping.antt =====
-- crates/engine/src/lib.rs and crates/session/src/lib.rs: what a session has of its own stays as it
-- is while programs read through it.
use forkyard.Base.{
  ℕ, List, Option, none, some, Result, ok, err, ◌≡◌, refl, sym, ap, ◌∙◌, Option-cases, inl, inr,
  ℕ_discrete,
}
use forkyard.Base.Maps.{get, insert, get-insert_ne}
use forkyard.Engine.Types.{AccountInfo, slot_discrete}
use forkyard.Engine.Session.{Session, ReadKey, log_read}
use forkyard.Engine.Database.{
  basic, code_by_hash, storage, block_hash, receive_account, receive_code, receive_slot,
  cache_account, cache_code, cache_slot,
}
use forkyard.Sessions.Program.{
  Program, run, returns, panics, reads_account, reads_code, reads_slot, reads_hash,
}

clash : {A : Type 0} {a : A} → ◌≡◌ {A = Option A} none (some a) → ⊥
clash h = cc

module _ {B E S : Type 0} where
  -- Each entry of the overlay is there afterwards, and the rest of the session is as it was.
  pub record Keeps (s s' : Session B E S) : Type 0 where
    pub accounts :
        (a : ℕ) (info : AccountInfo B)
        → get ℕ_discrete a s.overlay_accounts ≡ some info
        → get ℕ_discrete a s'.overlay_accounts ≡ some info
    pub code :
        (h : ℕ) (c : B)
        → get ℕ_discrete h s.overlay_code ≡ some c
        → get ℕ_discrete h s'.overlay_code ≡ some c
    pub storage :
        (a i v : ℕ)
        → get slot_discrete (a, i) s.overlay_storage ≡ some v
        → get slot_discrete (a, i) s'.overlay_storage ≡ some v
    pub base : s'.base ≡ s.base
    pub inherited : s'.inherited ≡ s.inherited
    pub block_env : s'.block_env ≡ s.block_env

  pub same-Keeps : (s : Session B E S) → Keeps s s
  same-Keeps s = record {
    accounts = λ a info h. h;
    code = λ h c e. e;
    storage = λ a i v e. e;
    base = refl;
    inherited = refl;
    block_env = refl;
  }

  pub then-Keeps : (s t u : Session B E S) → Keeps s t → Keeps t u → Keeps s u
  then-Keeps s t u k l = record {
    accounts = λ a info h. l.accounts a info (k.accounts a info h);
    code = λ h c e. l.code h c (k.code h c e);
    storage = λ a i v e. l.storage a i v (k.storage a i v e);
    base = l.base ∙ k.base;
    inherited = l.inherited ∙ k.inherited;
    block_env = l.block_env ∙ k.block_env;
  }

  log_read-Keeps : (s t : Session B E S) (key : ReadKey) → Keeps s t → Keeps s (log_read key t)
  unfolding log_read
  log_read-Keeps s t key k = elim (Option-cases t.read_log) [
    | inl off ↦ rw (off, log_read) k
    | inr (log, on) ↦
        rw (on, log_read)
          (record {
            accounts = k.accounts;
            code = k.code;
            storage = k.storage;
            base = k.base;
            inherited = k.inherited;
            block_env = k.block_env;
          })
  ]

module _ {K V : Type 0} (dec : Discrete K) where
  -- What is inserted under a new key leaves the entries that are there.
  fresh-kept :
      (k j : K) (v w : V) (m : List (K × V))
      → get dec k m ≡ none
      → get dec j m ≡ some w
      → get dec j (insert dec k v m) ≡ some w
  fresh-kept k j v w m new there =
      get-insert_ne dec k j v m (λ e. clash (sym new ∙ ap (λ x. get dec x m) (sym e) ∙ there))
      ∙ there

module _ {B E S : Type 0} (s : Session B E S) where
  cache_account-Keeps :
      (a : ℕ) (info : AccountInfo B)
      → get ℕ_discrete a s.overlay_accounts ≡ none
      → Keeps s (cache_account a info s)
  unfolding cache_account
  cache_account-Keeps a info new = log_read-Keeps s _ (ReadKey.account a) (record {
    accounts = λ b old there. fresh-kept ℕ_discrete a b info old s.overlay_accounts new there;
    code = λ h c e. e;
    storage = λ b i v e. e;
    base = refl;
    inherited = refl;
    block_env = refl;
  })

  cache_code-Keeps :
      (h : ℕ) (c : B) → get ℕ_discrete h s.overlay_code ≡ none → Keeps s (cache_code h c s)
  unfolding cache_code
  cache_code-Keeps h c new = log_read-Keeps s _ (ReadKey.code h) (record {
    accounts = λ a info e. e;
    code = λ j old there. fresh-kept ℕ_discrete h j c old s.overlay_code new there;
    storage = λ b i v e. e;
    base = refl;
    inherited = refl;
    block_env = refl;
  })

  cache_slot-Keeps :
      (a i v : ℕ) → get slot_discrete (a, i) s.overlay_storage ≡ none → Keeps s (cache_slot a i v s)
  unfolding cache_slot
  cache_slot-Keeps a i v new = log_read-Keeps s _ (ReadKey.storage a i) (record {
    accounts = λ b info e. e;
    code = λ h c e. e;
    storage =
        λ b j old there. fresh-kept slot_discrete (a, i) (b, j) v old s.overlay_storage new there;
    base = refl;
    inherited = refl;
    block_env = refl;
  })

  receive_account-Keeps :
      (a : ℕ) (x : Result E (Option (AccountInfo B)) × S)
      → get ℕ_discrete a s.overlay_accounts ≡ none
      → Keeps s (receive_account a s x).1
  unfolding receive_account
  receive_account-Keeps a (ok (some info), w) new = cache_account-Keeps a info new
  receive_account-Keeps a (ok none, w) new = same-Keeps s
  receive_account-Keeps a (err e, w) new = same-Keeps s

  receive_code-Keeps :
      (h : ℕ) (x : Result E B × S)
      → get ℕ_discrete h s.overlay_code ≡ none
      → Keeps s (receive_code h s x).1
  unfolding receive_code
  receive_code-Keeps h (ok c, w) new = cache_code-Keeps h c new
  receive_code-Keeps h (err e, w) new = same-Keeps s

  receive_slot-Keeps :
      (a i : ℕ) (x : Result E ℕ × S)
      → get slot_discrete (a, i) s.overlay_storage ≡ none
      → Keeps s (receive_slot a i s x).1
  unfolding receive_slot
  receive_slot-Keeps a i (ok v, w) new = cache_slot-Keeps a i v new
  receive_slot-Keeps a i (err e, w) new = same-Keeps s

  basic-Keeps : (a : ℕ) (w : S) → Keeps s (basic a s w).1
  unfolding basic
  basic-Keeps a w = elim (Option-cases (get ℕ_discrete a s.overlay_accounts)) [
    | inr (info, own) ↦ rw (own, basic) (same-Keeps s)
    | inl new ↦ elim (Option-cases (get ℕ_discrete a s.base.accounts)) [
      | inr (info, there) ↦ rw (new, basic, there) (same-Keeps s)
      | inl absent ↦
          rw (new, basic, absent) (receive_account-Keeps a (s.fallback.basic_ref a w) new)
    ]
  ]

  code_by_hash-Keeps : (h : ℕ) (w : S) → Keeps s (code_by_hash h s w).1
  unfolding code_by_hash
  code_by_hash-Keeps h w = elim (Option-cases (get ℕ_discrete h s.overlay_code)) [
    | inr (c, own) ↦ rw (own, code_by_hash) (same-Keeps s)
    | inl new ↦ elim (Option-cases (get ℕ_discrete h s.base.code)) [
      | inr (c, there) ↦ rw (new, code_by_hash, there) (same-Keeps s)
      | inl absent ↦
          rw (new, code_by_hash, absent)
            (receive_code-Keeps h (s.fallback.code_by_hash_ref h w) new)
    ]
  ]

  storage-Keeps : (a i : ℕ) (w : S) → Keeps s (storage a i s w).1
  unfolding storage
  storage-Keeps a i w = elim (Option-cases (get slot_discrete (a, i) s.overlay_storage)) [
    | inr (v, own) ↦ rw (own, storage) (same-Keeps s)
    | inl new ↦ elim (Option-cases (get slot_discrete (a, i) s.base.storage)) [
      | inr (v, there) ↦ rw (new, storage, there) (same-Keeps s)
      | inl absent ↦
          rw (new, storage, absent) (receive_slot-Keeps a i (s.fallback.storage_ref a i w) new)
    ]
  ]

  block_hash-Keeps : (n : ℕ) (w : S) → Keeps s (block_hash n s w).1
  unfolding block_hash
  block_hash-Keeps n w = elim (Option-cases (get ℕ_discrete n s.base.block_hashes)) [
    | inr (hash, there) ↦ rw (there, block_hash) (same-Keeps s)
    | inl absent ↦ rw (absent, block_hash) (same-Keeps s)
  ]

module _ {B E S R : Type 0} where
  -- Whatever a program reads.
  pub run-Keeps : (p : Program B E R) (s : Session B E S) (w : S) → Keeps s (run p s w).1
  unfolding run
  run-Keeps (returns r) s w = same-Keeps s
  run-Keeps panics s w = same-Keeps s
  run-Keeps (reads_account a k) s w =
      let (r, s', w') = basic a s w in then-Keeps s s' _ (basic-Keeps s a w) (run-Keeps (k r) s' w')
  run-Keeps (reads_code h k) s w =
      let (r, s', w') = code_by_hash h s w in
      then-Keeps s s' _ (code_by_hash-Keeps s h w) (run-Keeps (k r) s' w')
  run-Keeps (reads_slot a i k) s w =
      let (r, s', w') = storage a i s w in
      then-Keeps s s' _ (storage-Keeps s a i w) (run-Keeps (k r) s' w')
  run-Keeps (reads_hash n k) s w =
      let (r, s', w') = block_hash n s w in
      then-Keeps s s' _ (block_hash-Keeps s n w) (run-Keeps (k r) s' w')
