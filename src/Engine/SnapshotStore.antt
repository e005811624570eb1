-- ===== src/Engine/SnapshotStore.antt =====
-- crates/engine/src/persist.rs, `SnapshotFile` and `SnapshotStore`: session snapshots on disk, named
-- by the hash of their bytes.
use Prim.Native.String.{String, len}
use Prim.Native.Char.{code as code_of_char}
use forkyard.Base.{
  ℕ, zero, suc, List, [], ◌∷◌, ◌++◌, ◌/◌, Bool, true, ◌&&◌, ◌||◌, Option, none, some, Result, ok,
  err, ◌>>=◌, map_err, ◌==◌, leb, length, if◌then◌else◌,
}
use forkyard.Engine.State.{SessionState}
use forkyard.Engine.Files.{
  PathBuf, json_name, CacheError, StoredAccount, StoredCode, StoredSlot, stored_slots, loaded_slots,
  stored_accounts, Bytecode, stored_code, decode_code, attach_code, FileSystem, write_atomically,
}
use forkyard.Engine.Persist.{Format, is_text, is_number, opened}

abbrev pub snapshot_format : String
snapshot_format = "forkyard-session-snapshot"

abbrev pub snapshot_format_version : ℕ
snapshot_format_version = 1

abbrev pub snapshot_id_len : ℕ
snapshot_id_len = 32

pub record SnapshotFile : Type 0 where
  pub format : Option String
  pub version : Option ℕ
  pub chain_id : Option ℕ
  pub block_number : Option ℕ
  pub accounts : List StoredAccount
  pub code : List StoredCode
  pub storage : List StoredSlot

pub record SnapshotInfo : Type 0 where
  pub id : String
  pub block_number : ℕ
  pub accounts : ℕ
  pub storage_slots : ℕ
  pub contracts : ℕ
  pub bytes : ℕ

-- A byte of a character that is not ASCII is none of these, as its number is not.
abbrev pub is_hex : ℕ → Bool
is_hex b = (leb 48 b && leb b 57) || (leb 97 b && leb b 102)

unfoldable pub all_hex : String → Bool
all_hex String.[] = true
all_hex (String.◌∷◌ c s) = is_hex (code_of_char c) && all_hex s

-- The block that a file names, if it is of this chain: the checks of `load`, in order.
unfoldable pub block_of : PathBuf → ℕ → SnapshotFile → Option ℕ → Option ℕ → Result CacheError ℕ
block_of path chain file none number =
    err (CacheError.malformed path "snapshot names no chain or block")
block_of path chain file (some found) none =
    err (CacheError.malformed path "snapshot names no chain or block")
block_of path chain file (some found) (some number) =
    if found == chain
    then ok number
    else err (
        CacheError.key_mismatch path (record { chain_id = chain; block_number = number })
          (some found) (some number))

unfoldable pub checked : PathBuf → ℕ → SnapshotFile → Result CacheError ℕ
unfolding block_of
checked path chain file =
    if is_text file.format snapshot_format
    then (if is_number file.version snapshot_format_version
        then block_of path chain file file.chain_id file.block_number
        else err (CacheError.version_mismatch path file.version snapshot_format_version))
    else err (CacheError.not_a_forkyard_cache path file.format)

-- `keccak256`, and the printing of bytes as hexadecimal digits.
pub record Digest : Type 0 where
  pub keccak256 : List ℕ → List ℕ
  pub hex_encode : List ℕ → String

unfoldable pub first : {A : Type 0} → ℕ → List A → List A
first zero xs = []
first (suc n) [] = []
first (suc n) (x ∷ xs) = x ∷ first n xs

module _ {B W : Type 0} (bytecode : Bytecode B) (fs : FileSystem W) (json : Format SnapshotFile)
    (digest : Digest) (dir : PathBuf) (chain : ℕ) where
  unfoldable pub path_for : String → Result CacheError PathBuf
  unfolding all_hex json_name
  path_for id =
      if (len id == snapshot_id_len) && all_hex id
      then ok (dir ++ json.to_string chain ∷ json_name id ∷ [])
      else err (CacheError.invalid_snapshot_id id)

  unfoldable pub packed : ℕ → SessionState B → SnapshotFile
  unfolding stored_accounts stored_code stored_slots
  packed block_number state = record {
    format = some snapshot_format;
    version = some snapshot_format_version;
    chain_id = some chain;
    block_number = some block_number;
    accounts = stored_accounts state.accounts;
    code = stored_code bytecode state.code;
    storage = stored_slots state.storage;
  }

  unfoldable pub id_of : List ℕ → String
  unfolding first
  id_of bytes = digest.hex_encode (first (snapshot_id_len / 2) (digest.keccak256 bytes))

  unfoldable pub described : ℕ → SessionState B → List ℕ → SnapshotInfo
  unfolding id_of
  described block_number state bytes = record {
    id = id_of bytes;
    block_number = block_number;
    accounts = length state.accounts;
    storage_slots = length state.storage;
    contracts = length state.code;
    bytes = length bytes;
  }

  -- The file is written unless it is there.
  unfoldable pub ensured : PathBuf → List ℕ → W → Result CacheError (Unit {0}) × W
  unfolding write_atomically
  ensured path bytes w = if fs.exists path w then (ok tt, w) else write_atomically fs path bytes w

  unfoldable pub finished :
      SnapshotInfo → Result CacheError (Unit {0}) × W → Result CacheError SnapshotInfo × W
  finished info (ok done, w) = (ok info, w)
  finished info (err e, w) = (err e, w)

  -- `store`, once the path of the bytes is known.
  unfoldable pub placed :
      SnapshotInfo → List ℕ → Result CacheError PathBuf → W → Result CacheError SnapshotInfo × W
  unfolding ensured finished
  placed info bytes (ok path) w = finished info (ensured path bytes w)
  placed info bytes (err e) w = (err e, w)

  -- `store`, once the file is printed.
  unfoldable pub printed :
      ℕ → SessionState B → Result String (List ℕ) → W → Result CacheError SnapshotInfo × W
  unfolding path_for described placed
  printed block_number state (ok bytes) w =
      placed (described block_number state bytes) bytes (path_for (id_of bytes)) w
  printed block_number state (err e) w = (err (CacheError.malformed dir e), w)

  unfoldable pub store : ℕ → SessionState B → W → Result CacheError SnapshotInfo × W
  unfolding packed printed
  store block_number state w =
      printed block_number state (json.to_vec (packed block_number state)) w

  -- The state in a file that passed the checks.
  unfoldable pub unpacked : PathBuf → ℕ → SnapshotFile → Result CacheError (ℕ × SessionState B)
  unfolding decode_code attach_code loaded_slots
  unpacked path block_number file = decode_code bytecode path file.code >>= λ code. ok (
    block_number,
    record {
      accounts = attach_code file.accounts code;
      code = code;
      storage = loaded_slots file.storage;
    },
  )

  unfoldable pub load : String → W → Result CacheError (ℕ × SessionState B)
  unfolding path_for opened checked unpacked
  load id w = path_for id >>= λ path. opened path (fs.read path w) >>= λ bytes.
      map_err (CacheError.malformed path) (json.from_slice bytes) >>= λ file.
      checked path chain file >>= λ block_number. unpacked path block_number file
