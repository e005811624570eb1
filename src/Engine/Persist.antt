-- ===== src/Engine/Persist.antt =====
-- crates/engine/src/persist.rs, `CacheFile` and `ForkCache`: one file for a chain and a block, which
-- warms a base snapshot.
use Prim.Native.String.{String}
use text.Mathlib.Text.{◌==◌ as ◌=text=◌}
use forkyard.Base.{
  ℕ, List, [], ◌∷◌, ◌++◌, Bool, false, ◌&&◌, Option, none, some, Result, ok, err, ◌>>=◌, map_err,
  ◌==◌, if◌then◌else◌,
}
use forkyard.Engine.Types.{BlockEnv}
use forkyard.Engine.Snapshot.{BaseSnapshot, from_parts}
use forkyard.Engine.Files.{
  PathBuf, json_name, CacheKey, IoError, CacheError, StoredAccount, StoredCode, StoredBlockEnv,
  from_env, to_env, StoredSlot, stored_slots, loaded_slots, stored_accounts, Bytecode, stored_code,
  decode_code, attach_code, FileSystem, write_atomically,
}

abbrev pub cache_format : String
cache_format = "forkyard-fork-cache"

abbrev pub cache_format_version : ℕ
cache_format_version = 1

pub record CacheFile : Type 0 where
  pub format : Option String
  pub version : Option ℕ
  pub chain_id : Option ℕ
  pub block_number : Option ℕ
  pub accounts : List StoredAccount
  pub code : List StoredCode
  pub storage : List StoredSlot
  pub block_hashes : List (ℕ × ℕ)
  pub block_env : Option StoredBlockEnv

abbrev pub is_text : Option String → String → Bool
is_text none text = false
is_text (some found) text = found =text= text

abbrev pub is_number : Option ℕ → ℕ → Bool
is_number none n = false
is_number (some m) n = m == n

-- An env of another block is dropped.
unfoldable pub of_block : ℕ → Option StoredBlockEnv → Option StoredBlockEnv
of_block number none = none
of_block number (some env) = if env.number == number then some env else none

unfoldable pub env_of : Option StoredBlockEnv → Option BlockEnv
unfolding to_env
env_of none = none
env_of (some env) = some (to_env env)

unfoldable pub opened : PathBuf → Result IoError (List ℕ) → Result CacheError (List ℕ)
opened path (ok bytes) = ok bytes
opened path (err IoError.not_found) = err (CacheError.missing path)
opened path (err (IoError.other e)) = err (CacheError.io path (IoError.other e))

-- serde's writing and reading of a file, and the printing of numbers in names.
pub record Format (File : Type 0) : Type 0 where
  pub to_vec : File → Result String (List ℕ)
  pub from_slice : List ℕ → Result String File
  pub to_string : ℕ → String

-- The checks of `load_with_block_env`, in order.
unfoldable pub checked : PathBuf → CacheKey → CacheFile → Result CacheError CacheFile
checked path key file =
    if is_text file.format cache_format
    then (if is_number file.version cache_format_version
        then (if is_number file.chain_id key.chain_id
              && is_number file.block_number key.block_number
            then ok file
            else err (CacheError.key_mismatch path key file.chain_id file.block_number))
        else err (CacheError.version_mismatch path file.version cache_format_version))
    else err (CacheError.not_a_forkyard_cache path file.format)

module _ {B W : Type 0} (bytecode : Bytecode B) (fs : FileSystem W) (json : Format CacheFile)
    (dir : PathBuf) where
  unfoldable pub path_for : CacheKey → PathBuf
  unfolding json_name
  path_for key =
      dir ++ json.to_string key.chain_id ∷ json_name (json.to_string key.block_number) ∷ []

  -- What a file that passed the checks holds.
  unfoldable pub unpacked :
      PathBuf → CacheKey → CacheFile → Result CacheError (BaseSnapshot B × Option BlockEnv)
  unfolding of_block env_of decode_code attach_code from_parts loaded_slots
  unpacked path key file = decode_code bytecode path file.code >>= λ code. ok (
    from_parts (attach_code file.accounts code) code (loaded_slots file.storage) file.block_hashes,
    env_of (of_block key.block_number file.block_env),
  )

  unfoldable pub load_with_block_env :
      CacheKey → W → Result CacheError (BaseSnapshot B × Option BlockEnv)
  unfolding path_for opened checked unpacked
  load_with_block_env key w = opened (path_for key) (fs.read (path_for key) w) >>= λ bytes.
      map_err (CacheError.malformed (path_for key)) (json.from_slice bytes) >>= λ file.
      checked (path_for key) key file >>= λ file'. unpacked (path_for key) key file'

  unfoldable pub load : CacheKey → W → Result CacheError (BaseSnapshot B)
  unfolding load_with_block_env
  load key w = load_with_block_env key w >>= λ found. ok found.0

  -- The file that `store_inner` writes.
  unfoldable pub packed : CacheKey → BaseSnapshot B → Option StoredBlockEnv → CacheFile
  unfolding stored_accounts stored_code stored_slots of_block
  packed key snapshot block_env = record {
    format = some cache_format;
    version = some cache_format_version;
    chain_id = some key.chain_id;
    block_number = some key.block_number;
    accounts = stored_accounts snapshot.accounts;
    code = stored_code bytecode snapshot.code;
    storage = stored_slots snapshot.storage;
    block_hashes = snapshot.block_hashes;
    block_env = of_block key.block_number block_env;
  }

  unfoldable pub written : PathBuf → Result String (List ℕ) → W → Result CacheError (Unit {0}) × W
  unfolding write_atomically
  written path (ok bytes) w = write_atomically fs path bytes w
  written path (err e) w = (err (CacheError.malformed path e), w)

  unfoldable pub store_inner :
      CacheKey → BaseSnapshot B → Option StoredBlockEnv → W → Result CacheError (Unit {0}) × W
  unfolding path_for packed written
  store_inner key snapshot block_env w =
      written (path_for key) (json.to_vec (packed key snapshot block_env)) w

  unfoldable pub store : CacheKey → BaseSnapshot B → W → Result CacheError (Unit {0}) × W
  unfolding store_inner
  store key snapshot w = store_inner key snapshot none w

  unfoldable pub store_with_block_env :
      CacheKey → BaseSnapshot B → BlockEnv → W → Result CacheError (Unit {0}) × W
  unfolding store_inner from_env
  store_with_block_env key snapshot block_env w = store_inner key snapshot (from_env block_env) w
