-- ===== src/Engine/Database.antt =====
-- crates/engine/src/lib.rs, `impl Database for Session` and `impl DatabaseCommit for Session`: a
-- read looks in the overlay, then in the base, then asks the fallback.
use forkyard.Base.{ℕ, List, [], ◌∷◌, Option, none, some, Result, ok, err, map_err, ℕ_discrete}
use forkyard.Base.Maps
use forkyard.Engine.Types.{AccountInfo, slot_discrete}
use forkyard.Engine.Session.{Session, ReadKey, log_read}

pub data SessionDbError (E : Type 0) : Type 0 where
  code_miss : ℕ → SessionDbError E
  fallback : E → SessionDbError E

-- One account of an execution's diff: its new data, and the present values of its slots.
pub record Change (B : Type 0) : Type 0 where
  pub info : AccountInfo B
  pub slots : List (ℕ × ℕ)

-- The result of a read, the session with what the read cached, and the fallback's state.
abbrev pub Read : Type 0 → Type 0 → Type 0 → Type 0 → Type 0
Read B E S A = Result (SessionDbError E) A × Session B E S × S

module _ {B E S : Type 0} where
  unfoldable pub cache_account : ℕ → AccountInfo B → Session B E S → Session B E S
  unfolding log_read
  cache_account address info s =
      log_read (ReadKey.account address)
        (record s { overlay_accounts = Maps.insert ℕ_discrete address info s.overlay_accounts })

  -- What the fallback answered, cached if it is an account.
  unfoldable pub receive_account :
      ℕ
      → Session B E S
      → Result E (Option (AccountInfo B)) × S
      → Read B E S (Option (AccountInfo B))
  unfolding cache_account
  receive_account address s (ok (some info), w) = (ok (some info), cache_account address info s, w)
  receive_account address s (ok none, w) = (ok none, s, w)
  receive_account address s (err e, w) = (err (fallback e), s, w)

  unfoldable pub basic : ℕ → Session B E S → S → Read B E S (Option (AccountInfo B))
  unfolding receive_account
  basic address s w = elim (Maps.get ℕ_discrete address s.overlay_accounts) [
    | some info ↦ (ok (some info), s, w)
    | none ↦ elim (Maps.get ℕ_discrete address s.base.accounts) [
      | some info ↦ (ok (some info), s, w)
      | none ↦ receive_account address s (s.fallback.basic_ref address w)
    ]
  ]

  unfoldable pub cache_code : ℕ → B → Session B E S → Session B E S
  unfolding log_read
  cache_code code_hash code s =
      log_read (ReadKey.code code_hash)
        (record s { overlay_code = Maps.insert ℕ_discrete code_hash code s.overlay_code })

  unfoldable pub receive_code : ℕ → Session B E S → Result E B × S → Read B E S B
  unfolding cache_code
  receive_code code_hash s (ok code, w) = (ok code, cache_code code_hash code s, w)
  receive_code code_hash s (err e, w) = (err (code_miss code_hash), s, w)

  unfoldable pub code_by_hash : ℕ → Session B E S → S → Read B E S B
  unfolding receive_code
  code_by_hash code_hash s w = elim (Maps.get ℕ_discrete code_hash s.overlay_code) [
    | some code ↦ (ok code, s, w)
    | none ↦ elim (Maps.get ℕ_discrete code_hash s.base.code) [
      | some code ↦ (ok code, s, w)
      | none ↦ receive_code code_hash s (s.fallback.code_by_hash_ref code_hash w)
    ]
  ]

  unfoldable pub cache_slot : ℕ → ℕ → ℕ → Session B E S → Session B E S
  unfolding log_read
  cache_slot address index value s = log_read (ReadKey.storage address index) (record s {
    overlay_storage = Maps.insert slot_discrete (address, index) value s.overlay_storage;
  })

  -- A slot that the fallback cannot give reads as zero.
  unfoldable pub receive_slot : ℕ → ℕ → Session B E S → Result E ℕ × S → Read B E S ℕ
  unfolding cache_slot
  receive_slot address index s (ok value, w) = (ok value, cache_slot address index value s, w)
  receive_slot address index s (err e, w) = (ok 0, s, w)

  unfoldable pub storage : ℕ → ℕ → Session B E S → S → Read B E S ℕ
  unfolding receive_slot
  storage address index s w = elim (Maps.get slot_discrete (address, index) s.overlay_storage) [
    | some value ↦ (ok value, s, w)
    | none ↦ elim (Maps.get slot_discrete (address, index) s.base.storage) [
      | some value ↦ (ok value, s, w)
      | none ↦ receive_slot address index s (s.fallback.storage_ref address index w)
    ]
  ]

  unfoldable pub block_hash : ℕ → Session B E S → S → Read B E S ℕ
  block_hash number s w = elim (Maps.get ℕ_discrete number s.base.block_hashes) [
    | some hash ↦ (ok hash, s, w)
    | none ↦ let (reply, w') = s.fallback.block_hash_ref number w in (map_err fallback reply, s, w')
  ]

  unfoldable pub commit_slots : ℕ → List (ℕ × ℕ) → Session B E S → Session B E S
  commit_slots address [] s = s
  commit_slots address ((key, value) ∷ slots) s = commit_slots address slots (record s {
    overlay_storage = Maps.insert slot_discrete (address, key) value s.overlay_storage;
  })

  unfoldable pub commit_account : ℕ → Change B → Session B E S → Session B E S
  unfolding commit_slots
  commit_account address account s =
      let s' = commit_slots address account.slots s in
      record s' {
        overlay_accounts = Maps.insert ℕ_discrete address account.info s'.overlay_accounts;
      }

  unfoldable pub commit : List (ℕ × Change B) → Session B E S → Session B E S
  unfolding commit_account
  commit [] s = s
  commit ((address, account) ∷ changes) s = commit changes (commit_account address account s)
