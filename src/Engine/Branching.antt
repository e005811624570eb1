-- ===== src/Engine/Branching.antt =====
-- What a branch of `Session::branch` in crates/engine/src/lib.rs reads, beside its parent.
use forkyard.Base.{
  ℕ, ◌≡◌, refl, ap, ◌∙◌, Option, none, some, Option-cases, inl, inr, Result, ok, err, ℕ_discrete,
}
use forkyard.Base.Maps.{get}
use forkyard.Base.Sorts.{IsDistinct, or_else, get-extend}
use forkyard.Engine.Types.{AccountInfo, slot_discrete}
use forkyard.Engine.Session.{Session, branch}
use forkyard.Engine.Database.{
  Read, basic, code_by_hash, storage, block_hash, receive_account, receive_code, receive_slot,
}

module _ {B E S : Type 0} where
  -- Two reads give the same reply and leave the fallback in the same state.
  abbrev pub SameReply : {A : Type 0} → Read B E S A → Read B E S A → Type 0
  SameReply x y = (x.0 ≡ y.0) × (x.2 ≡ y.2)

  receive_account-SameReply :
      (a : ℕ) (s t : Session B E S) (x : Result E (Option (AccountInfo B)) × S)
      → SameReply (receive_account a s x) (receive_account a t x)
  unfolding receive_account
  receive_account-SameReply a s t (ok (some info), w) = (refl, refl)
  receive_account-SameReply a s t (ok none, w) = (refl, refl)
  receive_account-SameReply a s t (err e, w) = (refl, refl)

  receive_code-SameReply :
      (h : ℕ) (s t : Session B E S) (x : Result E B × S)
      → SameReply (receive_code h s x) (receive_code h t x)
  unfolding receive_code
  receive_code-SameReply h s t (ok code, w) = (refl, refl)
  receive_code-SameReply h s t (err e, w) = (refl, refl)

  receive_slot-SameReply :
      (a i : ℕ) (s t : Session B E S) (x : Result E ℕ × S)
      → SameReply (receive_slot a i s x) (receive_slot a i t x)
  unfolding receive_slot
  receive_slot-SameReply a i s t (ok value, w) = (refl, refl)
  receive_slot-SameReply a i s t (err e, w) = (refl, refl)

  basic-branch :
      (a : ℕ) (s : Session B E S) (w : S)
      → IsDistinct ℕ_discrete s.overlay_accounts
      → SameReply (basic a (branch s) w) (basic a s w)
  unfolding basic branch get
  basic-branch a s w d =
      let c = get-extend ℕ_discrete a s.base.accounts s.overlay_accounts d in
      elim (Option-cases (get ℕ_discrete a s.overlay_accounts)) [
        | inr (info, e) ↦
            let c' = c ∙ ap (λ o. or_else o (get ℕ_discrete a s.base.accounts)) e in
            rw (c', e, basic) (refl, refl)
        | inl e ↦
            let c' = c ∙ ap (λ o. or_else o (get ℕ_discrete a s.base.accounts)) e in
            elim (Option-cases (get ℕ_discrete a s.base.accounts)) [
              | inr (info, e') ↦ let c'' = c' ∙ e' in rw (c'', e, e', basic) (refl, refl)
              | inl e' ↦
                  let c'' = c' ∙ e' in
                  rw (c'', e, e', basic)
                    (receive_account-SameReply a (branch s) s (s.fallback.basic_ref a w))
            ]
      ]

  code_by_hash-branch :
      (h : ℕ) (s : Session B E S) (w : S)
      → IsDistinct ℕ_discrete s.overlay_code
      → SameReply (code_by_hash h (branch s) w) (code_by_hash h s w)
  unfolding code_by_hash branch get
  code_by_hash-branch h s w d =
      let c = get-extend ℕ_discrete h s.base.code s.overlay_code d in
      elim (Option-cases (get ℕ_discrete h s.overlay_code)) [
        | inr (info, e) ↦
            let c' = c ∙ ap (λ o. or_else o (get ℕ_discrete h s.base.code)) e in
            rw (c', e, code_by_hash) (refl, refl)
        | inl e ↦
            let c' = c ∙ ap (λ o. or_else o (get ℕ_discrete h s.base.code)) e in
            elim (Option-cases (get ℕ_discrete h s.base.code)) [
              | inr (info, e') ↦ let c'' = c' ∙ e' in rw (c'', e, e', code_by_hash) (refl, refl)
              | inl e' ↦
                  let c'' = c' ∙ e' in
                  rw (c'', e, e', code_by_hash)
                    (receive_code-SameReply h (branch s) s (s.fallback.code_by_hash_ref h w))
            ]
      ]

  storage-branch :
      (a i : ℕ) (s : Session B E S) (w : S)
      → IsDistinct slot_discrete s.overlay_storage
      → SameReply (storage a i (branch s) w) (storage a i s w)
  unfolding storage branch get
  storage-branch a i s w d =
      let c = get-extend slot_discrete (a, i) s.base.storage s.overlay_storage d in
      elim (Option-cases (get slot_discrete (a, i) s.overlay_storage)) [
        | inr (info, e) ↦
            let c' = c ∙ ap (λ o. or_else o (get slot_discrete (a, i) s.base.storage)) e in
            rw (c', e, storage) (refl, refl)
        | inl e ↦
            let c' = c ∙ ap (λ o. or_else o (get slot_discrete (a, i) s.base.storage)) e in
            elim (Option-cases (get slot_discrete (a, i) s.base.storage)) [
              | inr (info, e') ↦ let c'' = c' ∙ e' in rw (c'', e, e', storage) (refl, refl)
              | inl e' ↦
                  let c'' = c' ∙ e' in
                  rw (c'', e, e', storage)
                    (receive_slot-SameReply a i (branch s) s (s.fallback.storage_ref a i w))
            ]
      ]

  block_hash-branch :
      (n : ℕ) (s : Session B E S) (w : S) → SameReply (block_hash n (branch s) w) (block_hash n s w)
  unfolding block_hash branch
  block_hash-branch n s w = elim (Option-cases (get ℕ_discrete n s.base.block_hashes)) [
    | inr (hash, e) ↦ rw (e, block_hash) (refl, refl)
    | inl e ↦ rw (e, block_hash) (refl, refl)
  ]

  -- An overlay whose maps hold each key once.
  pub record IsOverlaid (s : Session B E S) : Type 0 where
    pub accounts : IsDistinct ℕ_discrete s.overlay_accounts
    pub code : IsDistinct ℕ_discrete s.overlay_code
    pub storage : IsDistinct slot_discrete s.overlay_storage

  -- A branch answers each read of an account, of code, of a slot and of a block hash as its parent
  -- does at the time, and asks the fallback just when its parent would; the maps of the parent's
  -- overlay hold each key once.
  pub branch_reads :
      (s : Session B E S) (w : S) (a h i n : ℕ)
      → IsOverlaid s
      → SameReply (basic a (branch s) w) (basic a s w)
        × (SameReply (code_by_hash h (branch s) w) (code_by_hash h s w)
            × (SameReply (storage a i (branch s) w) (storage a i s w)
                × SameReply (block_hash n (branch s) w) (block_hash n s w)))
  branch_reads s w a h i n o = (
    basic-branch a s w o.accounts,
    (code_by_hash-branch h s w o.code, (storage-branch a i s w o.storage, block_hash-branch n s w)),
  )
