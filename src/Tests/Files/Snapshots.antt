-- ===== src/Tests/Files/Snapshots.antt =====
-- A session snapshot that is stored where the disk of one file holds it already, and read back.
use forkyard.Base.{
  ℕ, List, true, [], ◌∷◌, ◌≡◌, ◌∙◌, refl, sym, ap, some, none, ok, ok_inj, ℕ_discrete,
}
use forkyard.Base.Maps.{get}
use forkyard.Engine.State.{SessionState}
use forkyard.Engine.Files.{FileSystem, stored_accounts, stored_code, stored_slots}
use forkyard.Engine.Disk.{IsFileSystem}
use forkyard.Engine.Persist.{Format}
use forkyard.Engine.RoundTrip.{recoded}
use forkyard.Engine.SnapshotStore.{
  SnapshotFile, SnapshotInfo, Digest, snapshot_format, packed, printed, store, load,
}
use forkyard.Engine.Resume.{IsAddressed, load_stored}
use forkyard.Tests.{Bytes}
use forkyard.Tests.Files.{
  plain, disk, only, printed_yes, only-IsFormat, disk-IsFileSystem, String-discrete,
}

SnapshotFile-discrete : Discrete SnapshotFile
SnapshotFile-discrete = hlevel (ℕ_discrete, String-discrete)

abbrev digest : Digest
digest = record {
  keccak256 = λ bytes. [];
  hex_encode = λ bytes. "00112233445566778899aabbccddeeff";
}

-- One contract account, its code and a slot, at block 9.
abbrev small_state : SessionState Bytes
small_state = record {
  accounts = (1, record { balance = 5; nonce = 2; code_hash = 77; code = none }) ∷ [];
  code = (77, 96 ∷ 0 ∷ []) ∷ [];
  storage = ((1, 3), 8) ∷ [];
}

abbrev small_file : SnapshotFile
small_file = record {
  format = some snapshot_format;
  version = some 1;
  chain_id = some 1;
  block_number = some 9;
  accounts = record { address = 1; balance = 5; nonce = 2; code_hash = 77 } ∷ [];
  code = record { hash = 77; bytes = 96 ∷ 0 ∷ [] } ∷ [];
  storage = (1, 3, 8) ∷ [];
}

abbrev json : Format SnapshotFile
json = only SnapshotFile-discrete small_file

abbrev small_info : SnapshotInfo
small_info = record {
  id = "00112233445566778899aabbccddeeff";
  block_number = 9;
  accounts = 1;
  storage_slots = 1;
  contracts = 1;
  bytes = 1;
}

-- A disk that holds the file already.
abbrev full : FileSystem (List ℕ)
full = record disk { exists = λ path w. true }

full-IsFileSystem : IsFileSystem full
full-IsFileSystem = record {
  create_empties = disk-IsFileSystem.create_empties;
  write_all_appends = disk-IsFileSystem.write_all_appends;
  sync_all_keeps = disk-IsFileSystem.sync_all_keeps;
  rename_moves = disk-IsFileSystem.rename_moves;
}

small-printed : json.to_vec (packed plain full json digest [] 1 9 small_state) ≡ ok (1 ∷ [])
unfolding packed stored_accounts stored_code stored_slots
small-printed = printed_yes (SnapshotFile-discrete small_file small_file) refl

small-stored : store plain full json digest [] 1 9 small_state (1 ∷ []) ≡ (ok small_info, 1 ∷ [])
unfolding store packed stored_accounts stored_code stored_slots printed
small-stored =
    ap (λ text. printed plain full json digest [] 1 9 small_state text (1 ∷ []))
      (printed_yes (SnapshotFile-discrete small_file small_file) refl)

full-IsAddressed : IsAddressed plain full json digest [] 1 9 small_state (1 ∷ [])
full-IsAddressed = λ bytes path p h e. ap ok (ok_inj (1 ∷ []) bytes (sym small-printed ∙ p))

load_stored_example :
    load plain full json digest [] 1 "00112233445566778899aabbccddeeff" (1 ∷ [])
    ≡ ok (9, record small_state { accounts = recoded small_state.code small_state.accounts })
unfolding get
load_stored_example =
    load_stored plain full json digest [] 1 full-IsFileSystem
      (only-IsFormat SnapshotFile-discrete small_file) 9 small_state small_info (1 ∷ []) (1 ∷ [])
      full-IsAddressed (refl, tt) (refl, tt) small-stored
