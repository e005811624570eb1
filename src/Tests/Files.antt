-- ===== src/Tests/Files.antt =====
-- A disk of one file, and a cache that is written to it and read back.
mod Snapshots
use Prim.Native.String.{String}
use text.Mathlib.Text.{◌==◌ as ◌=text=◌}
use text.Mathlib.TextEquality.{eq_iff}
use forkyard.Base.{
  ℕ, List, [], ◌∷◌, ◌++◌, ◌≡◌, ◌≢◌, Bool-cases, inl, inr, refl, sym, ap, ◌∙◌, true, false, Option,
  none, some, Result, ok, err, ℕ_discrete, arith,
}
use forkyard.Base.Maps.{get}
use forkyard.Engine.Types.{AccountInfo, keccak_empty}
use forkyard.Engine.Snapshot.{BaseSnapshot}
use forkyard.Engine.Files.{
  PathBuf, CacheKey, Bytecode, FileSystem, StoredAccount, StoredCode, StoredBlockEnv,
  stored_accounts, stored_code, stored_slots,
}
use forkyard.Engine.Persist.{
  CacheFile, Format, packed, path_for, written, of_block, env_of, cache_format, store_inner,
  load_with_block_env,
}
use forkyard.Engine.Disk.{IsFileSystem, IsFormat}
use forkyard.Engine.RoundTrip.{recoded, IsMapped, Checks, load-store}
use forkyard.Tests.{Bytes}

-- Code is its own bytes.
abbrev pub plain : Bytecode Bytes
plain = record { original_bytes = λ code. code; new_raw_checked = λ bytes. ok bytes }

abbrev pub disk : FileSystem (List ℕ)
disk = record {
  read = λ path w. ok w;
  exists = λ path w. false;
  parent = λ path. path;
  temp = λ path w. (path, w);
  create_dir_all = λ path w. (ok tt, w);
  create = λ path w. (ok tt, []);
  write_all = λ path bytes w. (ok tt, w ++ bytes);
  sync_all = λ path w. (ok tt, w);
  rename = λ from to w. (ok tt, w);
  remove_file = λ path w. (ok tt, w);
}

pub disk-IsFileSystem : IsFileSystem disk
disk-IsFileSystem = record {
  create_empties = λ path w w' h. sym (ap (λ p. ok p.1) h);
  write_all_appends = λ path bytes old w w' r h. (let e = sym (ap (λ p. p.1) h) in cc);
  sync_all_keeps = λ path w w' h. sym (ap (λ p. ok p.1) h);
  rename_moves = λ from to w w' h. sym (ap (λ p. ok p.1) h);
}

pub true_ne_false : true ≢ false
true_ne_false = λ h. cc

pub String-discrete : Discrete String
String-discrete s t = elim (Bool-cases (s =text= t)) [
  | inl e ↦ yes ((eq_iff s t).0 e)
  | inr e ↦ no (λ h. true_ne_false ((sym ((eq_iff s t).1 h)) ∙ e))
]

pub CacheFile-discrete : Discrete CacheFile
CacheFile-discrete = hlevel (ℕ_discrete, String-discrete)

abbrev pub printed_if : {P : Type 0} → Dec P → Result String (List ℕ)
printed_if (yes same) = ok (1 ∷ [])
printed_if (no other) = err "another file"

-- serde as far as one file goes: any other is refused.
abbrev pub only : {F : Type 0} → Discrete F → F → Format F
only dec kept = record {
  to_vec = λ file. printed_if (dec file kept);
  from_slice = λ bytes. ok kept;
  to_string = λ n. "n";
}

pub printed_yes : {P : Type 0} (d : Dec P) → P → printed_if d ≡ ok (1 ∷ [])
printed_yes (yes same) p = refl
printed_yes (no other) p = absurd (other p)

read_if :
    {F : Type 0} (file kept : F) (bytes : List ℕ) (d : Dec (file ≡ kept))
    → printed_if d ≡ ok bytes
    → ◌≡◌ {A = Result String F} (ok kept) (ok file)
read_if file kept bytes (yes same) h = ap ok (sym same)
read_if file kept bytes (no other) h = absurd (refused h)
  where
    refused : ◌≢◌ {A = Result String (List ℕ)} (err "another file") (ok bytes)
    refused = λ e. cc

pub only-IsFormat : {F : Type 0} (dec : Discrete F) (kept : F) → IsFormat (only dec kept)
only-IsFormat dec kept = record {
  reads_back = λ file bytes h. read_if file kept bytes (dec file kept) h;
}

-- One contract account and its code, at block 9 of chain 1.
abbrev pub small : BaseSnapshot Bytes
small = record {
  accounts = (1, record { balance = 5; nonce = 2; code_hash = 77; code = none }) ∷ [];
  code = (77, 96 ∷ 0 ∷ []) ∷ [];
  storage = ((1, 3), 8) ∷ [];
  block_hashes = (8, 41) ∷ [];
}

abbrev pub block_nine : CacheKey
block_nine = record { chain_id = 1; block_number = 9 }

abbrev env_nine : Option StoredBlockEnv
env_nine = some (record { number = 9; timestamp = 100; basefee = 7; gas_limit = 30000000 })

pub small-IsMapped : IsMapped small
unfolding get
small-IsMapped = record {
  accounts = (refl, tt);
  code = (refl, tt);
  storage = (refl, tt);
  block_hashes = (refl, tt);
}

abbrev pub small_file : CacheFile
small_file = record {
  format = some cache_format;
  version = some 1;
  chain_id = some 1;
  block_number = some 9;
  accounts = record { address = 1; balance = 5; nonce = 2; code_hash = 77 } ∷ [];
  code = record { hash = 77; bytes = 96 ∷ 0 ∷ [] } ∷ [];
  storage = (1, 3, 8) ∷ [];
  block_hashes = (8, 41) ∷ [];
  block_env = env_nine;
}

abbrev pub json : Format CacheFile
json = only CacheFile-discrete small_file

small-stored : store_inner plain disk json [] block_nine small env_nine [] ≡ (ok tt, 1 ∷ [])
unfolding store_inner packed stored_accounts stored_code stored_slots of_block written
small-stored =
    ap (λ text. written plain disk json [] (path_for plain disk json [] block_nine) text [])
      (printed_yes (CacheFile-discrete small_file small_file) refl)

load-store_example :
    load_with_block_env plain disk json [] block_nine (1 ∷ [])
    ≡ ok (
      record small { accounts = recoded small.code small.accounts },
      env_of (of_block 9 env_nine),
    )
load-store_example =
    load-store plain disk json [] disk-IsFileSystem (only-IsFormat CacheFile-discrete small_file)
      block_nine small env_nine [] (1 ∷ []) small-IsMapped (refl, tt) small-stored
