-- ===== src/Engine/Views.antt =====
-- crates/engine/src/lib.rs, `impl Database for Session`: a read depends only on what the overlay and
-- the base hold together, and on the fallback.
use forkyard.Base.{
  ℕ, ◌≡◌, refl, Option, none, some, Option-cases, inl, inr, Result, ok, err, map_err, ℕ_discrete,
}
use forkyard.Base.Maps.{get}
use forkyard.Base.Sorts.{or_else}
use forkyard.Engine.Types.{AccountInfo, slot_discrete}
use forkyard.Engine.Session.{Session}
use forkyard.Engine.Database.{
  Read, SessionDbError, basic, code_by_hash, storage, block_hash, receive_account, receive_code,
  receive_slot, fallback, code_miss,
}

abbrev pub slot_answer : {E : Type 0} → Result E ℕ → Result (SessionDbError E) ℕ
slot_answer (ok value) = ok value
slot_answer (err e) = ok 0

abbrev pub slot_reply :
    {E S : Type 0} → Option ℕ → Result E ℕ × S → S → Result (SessionDbError E) ℕ × S
slot_reply (some value) asked w = (ok value, w)
slot_reply none asked w = (slot_answer asked.0, asked.1)

abbrev pub code_answer : {B E : Type 0} → ℕ → Result E B → Result (SessionDbError E) B
code_answer h (ok code) = ok code
code_answer h (err e) = err (code_miss h)

abbrev pub hash_reply :
    {E S : Type 0} → Option ℕ → Result E ℕ × S → S → Result (SessionDbError E) ℕ × S
hash_reply (some hash) asked w = (ok hash, w)
hash_reply none asked w = (map_err fallback asked.0, asked.1)

module _ {B E S : Type 0} where
  abbrev pub account_view : ℕ → Session B E S → Option (AccountInfo B)
  account_view a s =
      or_else (get ℕ_discrete a s.overlay_accounts) (get ℕ_discrete a s.base.accounts)

  abbrev pub code_view : ℕ → Session B E S → Option B
  code_view h s = or_else (get ℕ_discrete h s.overlay_code) (get ℕ_discrete h s.base.code)

  abbrev pub slot_view : ℕ → ℕ → Session B E S → Option ℕ
  slot_view a i s =
      or_else (get slot_discrete (a, i) s.overlay_storage) (get slot_discrete (a, i) s.base.storage)

  -- The reply of a read, and the fallback's state after it.
  abbrev pub reply_of : {A : Type 0} → Read B E S A → Result (SessionDbError E) A × S
  reply_of r = (r.0, r.2)

  abbrev pub account_reply :
      Option (AccountInfo B)
      → Result E (Option (AccountInfo B)) × S
      → S
      → Result (SessionDbError E) (Option (AccountInfo B)) × S
  account_reply (some info) asked w = (ok (some info), w)
  account_reply none asked w = (map_err fallback asked.0, asked.1)

  abbrev pub code_reply : ℕ → Option B → Result E B × S → S → Result (SessionDbError E) B × S
  code_reply h (some code) asked w = (ok code, w)
  code_reply h none asked w = (code_answer h asked.0, asked.1)

  receive_account_reply :
      (a : ℕ) (s : Session B E S) (x : Result E (Option (AccountInfo B)) × S)
      → reply_of (receive_account a s x) ≡ (map_err fallback x.0, x.1)
  unfolding receive_account
  receive_account_reply a s (ok (some info), w) = refl
  receive_account_reply a s (ok none, w) = refl
  receive_account_reply a s (err e, w) = refl

  receive_slot_reply :
      (a i : ℕ) (s : Session B E S) (x : Result E ℕ × S)
      → reply_of (receive_slot a i s x) ≡ (slot_answer x.0, x.1)
  unfolding receive_slot
  receive_slot_reply a i s (ok value, w) = refl
  receive_slot_reply a i s (err e, w) = refl

  pub basic_lem :
      (a : ℕ) (s : Session B E S) (w : S)
      → reply_of (basic a s w) ≡ account_reply (account_view a s) (s.fallback.basic_ref a w) w
  unfolding basic
  basic_lem a s w = elim (Option-cases (get ℕ_discrete a s.overlay_accounts)) [
    | inr (info, e) ↦ rw (e, basic) refl
    | inl e ↦ elim (Option-cases (get ℕ_discrete a s.base.accounts)) [
      | inr (info, f) ↦ rw (e, f, basic) refl
      | inl f ↦ rw (e, f, basic) (receive_account_reply a s (s.fallback.basic_ref a w))
    ]
  ]

  pub storage_lem :
      (a i : ℕ) (s : Session B E S) (w : S)
      → reply_of (storage a i s w) ≡ slot_reply (slot_view a i s) (s.fallback.storage_ref a i w) w
  unfolding storage
  storage_lem a i s w = elim (Option-cases (get slot_discrete (a, i) s.overlay_storage)) [
    | inr (value, e) ↦ rw (e, storage) refl
    | inl e ↦ elim (Option-cases (get slot_discrete (a, i) s.base.storage)) [
      | inr (value, f) ↦ rw (e, f, storage) refl
      | inl f ↦ rw (e, f, storage) (receive_slot_reply a i s (s.fallback.storage_ref a i w))
    ]
  ]

  receive_code_reply :
      (h : ℕ) (s : Session B E S) (x : Result E B × S)
      → reply_of (receive_code h s x) ≡ (code_answer h x.0, x.1)
  unfolding receive_code
  receive_code_reply h s (ok code, w) = refl
  receive_code_reply h s (err e, w) = refl

  pub code_by_hash_lem :
      (h : ℕ) (s : Session B E S) (w : S)
      → reply_of (code_by_hash h s w)
        ≡ code_reply h (code_view h s) (s.fallback.code_by_hash_ref h w) w
  unfolding code_by_hash
  code_by_hash_lem h s w = elim (Option-cases (get ℕ_discrete h s.overlay_code)) [
    | inr (code, e) ↦ rw (e, code_by_hash) refl
    | inl e ↦ elim (Option-cases (get ℕ_discrete h s.base.code)) [
      | inr (code, f) ↦ rw (e, f, code_by_hash) refl
      | inl f ↦ rw (e, f, code_by_hash) (receive_code_reply h s (s.fallback.code_by_hash_ref h w))
    ]
  ]

  pub block_hash_lem :
      (n : ℕ) (s : Session B E S) (w : S)
      → reply_of (block_hash n s w)
        ≡ hash_reply (get ℕ_discrete n s.base.block_hashes) (s.fallback.block_hash_ref n w) w
  unfolding block_hash
  block_hash_lem n s w = elim (Option-cases (get ℕ_discrete n s.base.block_hashes)) [
    | inr (hash, e) ↦ rw (e, block_hash) refl
    | inl e ↦ rw (e, block_hash) refl
  ]
