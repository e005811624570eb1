-- ===== src/Sessions/Agreement.antt =====
-- A speculative read of a session beside the read that waits for upstream.
use forkyard.Base.{
  ℕ, List, [], ◌∷◌, ◌++◌, ◌≡◌, refl, ap, sym, ◌∙◌, ◌⊎◌, inl, inr, Option, none, some, arith,
  Option-cases, ℕ_discrete, Result, ok, err, map_err,
}
use forkyard.Base.Maps.{get}
use forkyard.Engine.Types.{AccountInfo, slot_discrete}
use forkyard.Engine.Session.{Session, ReadKey, log_read}
use forkyard.Engine.Database.{
  fallback, basic, code_by_hash, storage, block_hash, receive_account, receive_code, receive_slot,
}
use forkyard.Fetch.Keys.{StateKey}
use forkyard.Fetch.Speculation.{Thread}
use forkyard.Fetch.Placeholders.{waiting, IsHonest}

module _ {B E W : Type 0} where
  -- The session with its log closed.
  abbrev pub closed : Session B E (Thread W) → Session B E (Thread W)
  closed s = record s { read_log = none }

  closed-log_read :
      (key : ReadKey) (s : Session B E (Thread W))
      → log_read key (closed s) ≡ closed (log_read key s)
  unfolding log_read
  closed-log_read key s = ground arith

  -- The outcome `x` of a speculating step against the outcome `y` of the same step, waiting.
  abbrev pub Agrees :
      {A : Type 0} (keys : List StateKey) (x y : A × Session B E (Thread W) × Thread W) → Type 0
  Agrees keys x y =
      ((key : StateKey) × (x.2.misses ≡ some (keys ++ key ∷ [])))
      ⊎ ((x.2.misses ≡ some keys) × (y ≡ (x.0, closed x.1, waiting x.2)))

  after_read :
      {X A : Type 0} (keys : List StateKey)
      (f g : X × Thread W → A × Session B E (Thread W) × Thread W)
      → ((r : X) (t : Thread W) → (f (r, t)).2 ≡ t)
      → ((r : X) (t u : Thread W) → g (r, u) ≡ ((f (r, t)).0, closed (f (r, t)).1, u))
      → (x y : X × Thread W)
      → ((key : StateKey) × (x.1.misses ≡ some (keys ++ key ∷ [])))
        ⊎ ((x.1.misses ≡ some keys) × (y ≡ (x.0, waiting x.1)))
      → Agrees keys (f x) (g y)
  after_read keys f g keeps same (r, t) y (inl (key, e)) =
      inl (key, ap (λ u. u.misses) (keeps r t) ∙ e)
  after_read keys f g keeps same (r, t) y (inr (e, q)) = inr (
    ap (λ u. u.misses) (keeps r t) ∙ e,
    ap g q
        ∙ same r t (waiting t)
        ∙ ap (λ u. ((f (r, t)).0, closed (f (r, t)).1, waiting u)) (sym (keeps r t)),
  )

  module _ (s : Session B E (Thread W)) (honest : IsHonest s.fallback) (t : Thread W)
      (keys : List StateKey) (h : t.misses ≡ some keys) where
    pub basic-Agrees :
        (address : ℕ) → Agrees keys (basic address s t) (basic address (closed s) (waiting t))
    unfolding basic
    basic-Agrees address = elim (Option-cases (get ℕ_discrete address s.overlay_accounts)) [
      | inr (info, e) ↦ rw (e, basic) (inr (h, refl))
      | inl fresh ↦ elim (Option-cases (get ℕ_discrete address s.base.accounts)) [
        | inr (info, e) ↦ rw (fresh, e, basic) (inr (h, refl))
        | inl e ↦
            rw (fresh, e, basic)
              (after_read keys (receive_account address s) (receive_account address (closed s))
                keeps same _ _ (honest.basic address t keys h))
      ]
    ]
      where
        keeps :
            (r : Result E (Option (AccountInfo B))) (u : Thread W)
            → (receive_account address s (r, u)).2 ≡ u
        keeps (ok (some info)) u = refl
        keeps (ok none) u = refl
        keeps (err e) u = refl

        same :
            (r : Result E (Option (AccountInfo B))) (u v : Thread W)
            → receive_account address (closed s) (r, v) ≡ (
              (receive_account address s (r, u)).0,
              closed (receive_account address s (r, u)).1,
              v,
            )
        same (ok (some info)) u v =
            ap (λ c. (ok (some info), c, v)) (closed-log_read (ReadKey.account address) _)
        same (ok none) u v = refl
        same (err e) u v = refl

    pub code_by_hash-Agrees :
        (hash : ℕ) → Agrees keys (code_by_hash hash s t) (code_by_hash hash (closed s) (waiting t))
    unfolding code_by_hash
    code_by_hash-Agrees hash = elim (Option-cases (get ℕ_discrete hash s.overlay_code)) [
      | inr (code, e) ↦ rw (e, code_by_hash) (inr (h, refl))
      | inl fresh ↦ elim (Option-cases (get ℕ_discrete hash s.base.code)) [
        | inr (code, e) ↦ rw (fresh, e, code_by_hash) (inr (h, refl))
        | inl e ↦
            rw (fresh, e, code_by_hash)
              (after_read keys (receive_code hash s) (receive_code hash (closed s)) keeps same _ _
                (honest.code hash t keys h))
      ]
    ]
      where
        keeps : (r : Result E B) (u : Thread W) → (receive_code hash s (r, u)).2 ≡ u
        keeps (ok code) u = refl
        keeps (err e) u = refl

        same :
            (r : Result E B) (u v : Thread W)
            → receive_code hash (closed s) (r, v)
              ≡ ((receive_code hash s (r, u)).0, closed (receive_code hash s (r, u)).1, v)
        same (ok code) u v = ap (λ c. (ok code, c, v)) (closed-log_read (ReadKey.code hash) _)
        same (err e) u v = refl

    pub storage-Agrees :
        (address index : ℕ)
        → Agrees keys (storage address index s t) (storage address index (closed s) (waiting t))
    unfolding storage
    storage-Agrees address index =
        elim (Option-cases (get slot_discrete (address, index) s.overlay_storage)) [
          | inr (value, e) ↦ rw (e, storage) (inr (h, refl))
          | inl fresh ↦ elim (Option-cases (get slot_discrete (address, index) s.base.storage)) [
            | inr (value, e) ↦ rw (fresh, e, storage) (inr (h, refl))
            | inl e ↦
                rw (fresh, e, storage)
                  (after_read keys (receive_slot address index s)
                    (receive_slot address index (closed s)) keeps same _ _
                    (honest.slot address index t keys h))
          ]
        ]
      where
        keeps : (r : Result E ℕ) (u : Thread W) → (receive_slot address index s (r, u)).2 ≡ u
        keeps (ok value) u = refl
        keeps (err e) u = refl

        same :
            (r : Result E ℕ) (u v : Thread W)
            → receive_slot address index (closed s) (r, v) ≡ (
              (receive_slot address index s (r, u)).0,
              closed (receive_slot address index s (r, u)).1,
              v,
            )
        same (ok value) u v =
            ap (λ c. (ok value, c, v)) (closed-log_read (ReadKey.storage address index) _)
        same (err e) u v = refl

    pub block_hash-Agrees :
        (number : ℕ)
        → Agrees keys (block_hash number s t) (block_hash number (closed s) (waiting t))
    unfolding block_hash
    block_hash-Agrees number = elim (Option-cases (get ℕ_discrete number s.base.block_hashes)) [
      | inr (hash, e) ↦ rw (e, block_hash) (inr (h, refl))
      | inl e ↦
          rw (e, block_hash)
            (after_read keys (λ x. (map_err fallback x.0, s, x.1))
              (λ x. (map_err fallback x.0, closed s, x.1)) (λ r u. refl) (λ r u v. refl) _ _
              (honest.hash number t keys h))
    ]
