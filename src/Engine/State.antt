-- ===== src/Engine/State.antt =====
-- crates/engine/src/lib.rs, `SessionState`, `Session::state` and `Session::restore`: what one
-- session holds beyond the shared base, in the form that a snapshot is written in.
use forkyard.Base.{[], ◌∷◌, Bool, ◌&&◌, ◌||◌, none, some, ltb, leb, ◌==◌, if◌then◌else◌, ℕ_discrete}
use forkyard.Base.Maps
use forkyard.Base.Sorts.{sort_by_key, or_else}
use forkyard.Engine.Types.{
  AccountInfo, BlockEnv, DatabaseRef, Accounts, Codes, Storage, Slot, slot_discrete, keccak_empty,
}
use forkyard.Engine.Snapshot
use forkyard.Engine.Snapshot.{BaseSnapshot}
use forkyard.Engine.Session.{Session, fork}

pub record SessionState (B : Type 0) : Type 0 where
  pub accounts : Accounts B
  pub code : Codes B
  pub storage : Storage

unfoldable pub is_empty : {B : Type 0} → SessionState B → Bool
is_empty s = Snapshot.is_nil s.accounts && Snapshot.is_nil s.code && Snapshot.is_nil s.storage

module _ {B : Type 0} where
  -- One round of the loop that gathers code: an account's inline code, or else the base's.
  unfoldable pub gather_one : Codes B → AccountInfo B → Codes B → Codes B
  gather_one base_code info code =
      if info.code_hash == keccak_empty
      then code
      else elim (Maps.get ℕ_discrete info.code_hash code) [
        | some _ ↦ code
        | none ↦ elim (or_else info.code (Maps.get ℕ_discrete info.code_hash base_code)) [
          | some bytecode ↦ Maps.insert ℕ_discrete info.code_hash bytecode code
          | none ↦ code
        ]
      ]

  unfoldable pub gather_code : Codes B → Accounts B → Codes B → Codes B
  unfolding gather_one
  gather_code base_code [] code = code
  gather_code base_code ((address, info) ∷ accounts) code =
      gather_code base_code accounts (gather_one base_code info code)

abbrev pub leb_slot : Slot → Slot → Bool
leb_slot (a, k) (b, j) = ltb a b || (a == b && leb k j)

module _ {B E S : Type 0} where
  unfoldable pub restore :
      BaseSnapshot B → DatabaseRef B E S → BlockEnv → SessionState B → Session B E S
  unfolding fork
  restore base fallback block_env state = record (fork base fallback block_env) {
    overlay_accounts = Maps.extend ℕ_discrete [] state.accounts;
    overlay_code = Maps.extend ℕ_discrete [] state.code;
    overlay_storage = Maps.extend slot_discrete [] state.storage;
  }

  -- The accounts of `state`, before they are sorted.
  unfoldable pub own_accounts : Session B E S → Accounts B
  own_accounts s =
      Maps.extend ℕ_discrete (Maps.extend ℕ_discrete [] s.inherited.accounts) s.overlay_accounts

  unfoldable pub own_code : Session B E S → Codes B
  unfolding own_accounts gather_code
  own_code s =
      gather_code s.base.code (own_accounts s)
        (Maps.extend ℕ_discrete (Maps.extend ℕ_discrete [] s.inherited.code) s.overlay_code)

  unfoldable pub own_storage : Session B E S → Storage
  own_storage s =
      Maps.extend slot_discrete (Maps.extend slot_discrete [] s.inherited.storage) s.overlay_storage

  unfoldable pub state : Session B E S → SessionState B
  unfolding own_accounts own_code own_storage
  state s = record {
    accounts = sort_by_key leb (own_accounts s);
    code = sort_by_key leb (own_code s);
    storage = sort_by_key leb_slot (own_storage s);
  }
