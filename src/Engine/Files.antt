-- ===== src/Engine/Files.antt =====
-- crates/engine/src/persist.rs: the parts that cache files and snapshot files share, and what they
-- take from serde, revm and the file system.
use Prim.Native.String.{String, ◌++◌}
use forkyard.Base.{
  ℕ, List, [], ◌∷◌, Option, none, some, Result, ok, err, ◌>>=◌, map_err, ltb, Bool, ◌^◌,
  if◌then◌else◌, ℕ_discrete,
}
use forkyard.Base.Maps
use forkyard.Engine.Types.{AccountInfo, BlockEnv, Accounts, Codes, Storage}

-- A path is a directory and the names below it.
abbrev pub PathBuf : Type 0
PathBuf = List String

-- The name of a file with this stem.
unfoldable pub json_name : String → String
json_name stem = stem ++ ".json"

pub record CacheKey : Type 0 where
  pub chain_id : ℕ
  pub block_number : ℕ

pub data IoError : Type 0 where
  not_found : IoError
  other : String → IoError

pub data CacheError : Type 0 where
  missing : PathBuf → CacheError
  io : PathBuf → IoError → CacheError
  malformed : PathBuf → String → CacheError
  not_a_forkyard_cache : PathBuf → Option String → CacheError
  version_mismatch : PathBuf → Option ℕ → ℕ → CacheError
  key_mismatch : PathBuf → CacheKey → Option ℕ → Option ℕ → CacheError
  invalid_snapshot_id : String → CacheError

pub record StoredAccount : Type 0 where
  pub address : ℕ
  pub balance : ℕ
  pub nonce : ℕ
  pub code_hash : ℕ

pub record StoredCode : Type 0 where
  pub hash : ℕ
  pub bytes : List ℕ

pub record StoredBlockEnv : Type 0 where
  pub number : ℕ
  pub timestamp : ℕ
  pub basefee : ℕ
  pub gas_limit : ℕ

-- The number must fit 64 bits.
unfoldable pub from_env : BlockEnv → Option StoredBlockEnv
from_env env =
    if ltb env.number (2 ^ 64)
    then some (record {
      number = env.number;
      timestamp = env.timestamp;
      basefee = env.basefee;
      gas_limit = env.gas_limit;
    })
    else none

unfoldable pub to_env : StoredBlockEnv → BlockEnv
to_env stored = record {
  number = stored.number;
  timestamp = stored.timestamp;
  basefee = stored.basefee;
  gas_limit = stored.gas_limit;
}

-- A slot with its value, as the files hold it.
abbrev pub StoredSlot : Type 0
StoredSlot = ℕ × ℕ × ℕ

unfoldable pub stored_slots : Storage → List StoredSlot
stored_slots [] = []
stored_slots (((address, key), value) ∷ slots) = (address, key, value) ∷ stored_slots slots

unfoldable pub loaded_slots : List StoredSlot → Storage
loaded_slots [] = []
loaded_slots ((address, key, value) ∷ slots) = ((address, key), value) ∷ loaded_slots slots

unfoldable pub stored_account : {B : Type 0} → ℕ → AccountInfo B → StoredAccount
stored_account address info = record {
  address = address;
  balance = info.balance;
  nonce = info.nonce;
  code_hash = info.code_hash;
}

unfoldable pub stored_accounts : {B : Type 0} → Accounts B → List StoredAccount
unfolding stored_account
stored_accounts [] = []
stored_accounts ((address, info) ∷ accounts) =
    stored_account address info ∷ stored_accounts accounts

-- revm's `Bytecode`, `B` here: its original bytes, and its check of raw bytes.
pub record Bytecode (B : Type 0) : Type 0 where
  pub original_bytes : B → List ℕ
  pub new_raw_checked : List ℕ → Result String B

module _ {B : Type 0} (bytecode : Bytecode B) where
  unfoldable pub stored_code : Codes B → List StoredCode
  stored_code [] = []
  stored_code ((hash, code) ∷ codes) =
      record { hash = hash; bytes = bytecode.original_bytes code } ∷ stored_code codes

  unfoldable pub decode_code : PathBuf → List StoredCode → Result CacheError (Codes B)
  decode_code path [] = ok []
  decode_code path (entry ∷ stored) =
      map_err (CacheError.malformed path) (bytecode.new_raw_checked entry.bytes) >>= λ code.
      decode_code path stored >>= λ rest. ok ((entry.hash, code) ∷ rest)

module _ {B : Type 0} where
  -- `by_hash` is collected from the list, so its last entry for a hash counts.
  unfoldable pub attach_one : Codes B → StoredAccount → ℕ × AccountInfo B
  attach_one by_hash a = (
    a.address,
    record {
      balance = a.balance;
      nonce = a.nonce;
      code_hash = a.code_hash;
      code = Maps.get ℕ_discrete a.code_hash by_hash;
    },
  )

  unfoldable pub attach_all : Codes B → List StoredAccount → Accounts B
  unfolding attach_one
  attach_all by_hash [] = []
  attach_all by_hash (a ∷ accounts) = attach_one by_hash a ∷ attach_all by_hash accounts

  unfoldable pub attach_code : List StoredAccount → Codes B → Accounts B
  unfolding attach_all
  attach_code accounts code = attach_all (Maps.extend ℕ_discrete [] code) accounts

-- The calls of `std::fs`, on a state `W` of the disk; `read` leaves it as it is. `temp` names a
-- fresh temporary file beside the path, as the process id and a counter do.
pub record FileSystem (W : Type 0) : Type 0 where
  pub read : PathBuf → W → Result IoError (List ℕ)
  pub exists : PathBuf → W → Bool
  pub parent : PathBuf → PathBuf
  pub temp : PathBuf → W → PathBuf × W
  pub create_dir_all : PathBuf → W → Result IoError (Unit {0}) × W
  pub create : PathBuf → W → Result IoError (Unit {0}) × W
  pub write_all : PathBuf → List ℕ → W → Result IoError (Unit {0}) × W
  pub sync_all : PathBuf → W → Result IoError (Unit {0}) × W
  pub rename : PathBuf → PathBuf → W → Result IoError (Unit {0}) × W
  pub remove_file : PathBuf → W → Result IoError (Unit {0}) × W

module _ {W : Type 0} (fs : FileSystem W) where
  abbrev Done : Type 0 → Type 0
  Done E = Result E (Unit {0}) × W

  -- An early return, or the rest on the new state.
  unfoldable pub after : {E : Type 0} → Done E → (W → Done E) → Done E
  after (ok done, w) rest = rest w
  after (err e, w) rest = (err e, w)

  -- The closure `write`: create, write, sync.
  unfoldable pub write_temp : PathBuf → List ℕ → W → Done IoError
  unfolding after
  write_temp temp bytes w =
      after (fs.create temp w)
        (λ w1. after (fs.write_all temp bytes w1) (λ w2. fs.sync_all temp w2))

  -- On a failure the temporary file is removed and the error names `blamed`.
  unfoldable pub cleaning : PathBuf → PathBuf → Done IoError → Done CacheError
  cleaning temp blamed (ok done, w) = (ok tt, w)
  cleaning temp blamed (err e, w) = (err (CacheError.io blamed e), (fs.remove_file temp w).1)

  unfoldable pub made : PathBuf → Done IoError → Done CacheError
  made dir (ok done, w) = (ok tt, w)
  made dir (err e, w) = (err (CacheError.io dir e), w)

  unfoldable pub write_atomically : PathBuf → List ℕ → W → Done CacheError
  unfolding after write_temp cleaning made
  write_atomically path bytes w =
      after (made (fs.parent path) (fs.create_dir_all (fs.parent path) w)) (λ w1.
        let (temp, w2) = fs.temp path w1 in
        after (cleaning temp temp (write_temp temp bytes w2))
          (λ w3. cleaning temp path (fs.rename temp path w3)))
