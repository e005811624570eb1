-- ===== src/Engine/Session.antt =====
-- crates/engine/src/lib.rs, `Session`: one fork's private overlay over the shared base,
-- speculative reads and their undoing, and branching.
use forkyard.Base.{ℕ, List, [], ◌∷◌, ◌++◌, Bool, Option, none, some, if◌then◌else◌, ℕ_discrete}
use forkyard.Base.Maps
use forkyard.Engine.Types.{
  AccountInfo, BlockEnv, DatabaseRef, Accounts, Codes, Storage, slot_discrete,
}
use forkyard.Engine.Snapshot.{BaseSnapshot}

pub data ReadKey : Type 0 where
  account : ℕ → ReadKey
  code : ℕ → ReadKey
  storage : ℕ → ℕ → ReadKey

pub record Inherited (B : Type 0) : Type 0 where
  pub accounts : Accounts B
  pub code : Codes B
  pub storage : Storage

abbrev pub default_inherited : {B : Type 0} → Inherited B
default_inherited = record { accounts = []; code = []; storage = [] }

pub record Session (B E S : Type 0) : Type 0 where
  pub base : BaseSnapshot B
  pub fallback : DatabaseRef B E S
  pub block_env : BlockEnv
  pub overlay_accounts : Accounts B
  pub overlay_code : Codes B
  pub overlay_storage : Storage
  pub inherited : Inherited B
  pub read_log : Option (List ReadKey)

module _ {B E S : Type 0} where
  unfoldable pub fork : BaseSnapshot B → DatabaseRef B E S → BlockEnv → Session B E S
  fork base fallback block_env = record {
    base = base;
    fallback = fallback;
    block_env = block_env;
    overlay_accounts = [];
    overlay_code = [];
    overlay_storage = [];
    inherited = default_inherited;
    read_log = none;
  }

  unfoldable pub begin_speculation : Session B E S → Session B E S
  begin_speculation s = record s { read_log = some [] }

  unfoldable pub forget : ReadKey → Session B E S → Session B E S
  forget (account address) s = record s {
    overlay_accounts = Maps.remove ℕ_discrete address s.overlay_accounts;
  }
  forget (code hash) s = record s { overlay_code = Maps.remove ℕ_discrete hash s.overlay_code }
  forget (storage address index) s = record s {
    overlay_storage = Maps.remove slot_discrete (address, index) s.overlay_storage;
  }

  -- The loop over the log.
  unfoldable pub forget_all : List ReadKey → Session B E S → Session B E S
  unfolding forget
  forget_all [] s = s
  forget_all (key ∷ log) s = forget_all log (forget key s)

  unfoldable pub end_speculation : Session B E S → Bool → Session B E S
  unfolding forget_all
  end_speculation s keep = elim s.read_log [
    | none ↦ s
    | some log ↦
        let taken = record s { read_log = none } in if keep then taken else forget_all log taken
  ]

  unfoldable pub log_read : ReadKey → Session B E S → Session B E S
  log_read key s = elim s.read_log [
    | none ↦ s
    | some log ↦ record s { read_log = some (log ++ key ∷ []) }
  ]

  unfoldable pub set_account : ℕ → AccountInfo B → Session B E S → Session B E S
  set_account address info s = record s {
    overlay_accounts = Maps.insert ℕ_discrete address info s.overlay_accounts;
  }

  unfoldable pub set_storage : ℕ → ℕ → ℕ → Session B E S → Session B E S
  set_storage address key value s = record s {
    overlay_storage = Maps.insert slot_discrete (address, key) value s.overlay_storage;
  }

  unfoldable pub branch : Session B E S → Session B E S
  branch s = record {
    base = record s.base {
      accounts = Maps.extend ℕ_discrete s.base.accounts s.overlay_accounts;
      code = Maps.extend ℕ_discrete s.base.code s.overlay_code;
      storage = Maps.extend slot_discrete s.base.storage s.overlay_storage;
    };
    fallback = s.fallback;
    block_env = s.block_env;
    overlay_accounts = [];
    overlay_code = [];
    overlay_storage = [];
    inherited = record {
      accounts = Maps.extend ℕ_discrete s.inherited.accounts s.overlay_accounts;
      code = Maps.extend ℕ_discrete s.inherited.code s.overlay_code;
      storage = Maps.extend slot_discrete s.inherited.storage s.overlay_storage;
    };
    read_log = none;
  }
