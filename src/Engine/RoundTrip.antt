-- ===== src/Engine/RoundTrip.antt =====
-- What `ForkCache` of crates/engine/src/persist.rs reads back from a file that it wrote.
use forkyard.Base.{
  ℕ, List, [], ◌∷◌, ◌≡◌, refl, ap, true, Option, none, some, ok, ◌==◌, All, ℕ_discrete, arith,
  Result-cases, inl, inr,
}
use forkyard.Base.Maps.{get}
use forkyard.Base.Sorts.{IsDistinct, extend_nil}
use forkyard.Engine.Types.{Accounts, Codes, Storage, slot_discrete}
use forkyard.Engine.Snapshot.{BaseSnapshot, from_parts}
use forkyard.Engine.Files.{
  PathBuf, CacheKey, CacheError, StoredBlockEnv, stored_slots, loaded_slots, stored_accounts,
  Bytecode, stored_code, decode_code, attach_all, attach_code, FileSystem,
}
use forkyard.Engine.Disk.{IsFileSystem, IsFormat, err-ne-ok, write_atomically_reads}
use forkyard.Engine.Persist.{
  CacheFile, Format, of_block, env_of, opened, checked, unpacked, packed, written, path_for,
  load_with_block_env, store_inner,
}

module _ {B : Type 0} (bytecode : Bytecode B) where
  -- revm reads a code's original bytes back as that code.
  abbrev pub Checks : Codes B → Type 0
  Checks = All (λ entry. bytecode.new_raw_checked (bytecode.original_bytes entry.1) ≡ ok entry.1)

  pub decode_code-stored_code :
      (path : PathBuf) (codes : Codes B)
      → Checks codes
      → decode_code bytecode path (stored_code bytecode codes) ≡ ok codes
  unfolding decode_code stored_code
  decode_code-stored_code path [] h = refl
  decode_code-stored_code path ((hash, code) ∷ codes) h =
      rw (h.0, decode_code-stored_code path codes h.1) refl

pub loaded_slots-stored_slots : (storage : Storage) → loaded_slots (stored_slots storage) ≡ storage
unfolding loaded_slots stored_slots
loaded_slots-stored_slots [] = refl
loaded_slots-stored_slots (((address, key), value) ∷ slots) =
    ap (◌∷◌ ((address, key), value)) (loaded_slots-stored_slots slots)

module _ {B : Type 0} where
  -- The accounts with their code taken from the codes, by its hash.
  abbrev pub recoded : Codes B → Accounts B → Accounts B
  recoded codes [] = []
  recoded codes ((address, info) ∷ accounts) =
      (address, record info { code = get ℕ_discrete info.code_hash codes }) ∷ recoded codes accounts

  attach_all-stored_accounts :
      (codes : Codes B) (accounts : Accounts B)
      → attach_all codes (stored_accounts accounts) ≡ recoded codes accounts
  unfolding attach_all stored_accounts
  attach_all-stored_accounts codes [] = refl
  attach_all-stored_accounts codes ((address, info) ∷ accounts) =
      ap (◌∷◌ (address, record info { code = get ℕ_discrete info.code_hash codes }))
        (attach_all-stored_accounts codes accounts)

  pub attach_code-stored_accounts :
      (codes : Codes B) (accounts : Accounts B)
      → IsDistinct ℕ_discrete codes
      → attach_code (stored_accounts accounts) codes ≡ recoded codes accounts
  unfolding attach_code
  attach_code-stored_accounts codes accounts d =
      rw (extend_nil ℕ_discrete codes d) (attach_all-stored_accounts codes accounts)

  recoded_fresh :
      (codes : Codes B) (a : ℕ) (accounts : Accounts B)
      → get ℕ_discrete a accounts ≡ none
      → get ℕ_discrete a (recoded codes accounts) ≡ none
  unfolding get
  recoded_fresh codes a [] h = refl
  recoded_fresh codes a ((address, info) ∷ accounts) h =
      ground (arith, recoded_fresh codes a accounts)

  recoded-IsDistinct :
      (codes : Codes B) (accounts : Accounts B)
      → IsDistinct ℕ_discrete accounts
      → IsDistinct ℕ_discrete (recoded codes accounts)
  recoded-IsDistinct codes [] d = tt
  recoded-IsDistinct codes ((address, info) ∷ accounts) d =
      (recoded_fresh codes address accounts d.0, recoded-IsDistinct codes accounts d.1)

  -- A snapshot whose maps hold each key once.
  pub record IsMapped (snapshot : BaseSnapshot B) : Type 0 where
    pub accounts : IsDistinct ℕ_discrete snapshot.accounts
    pub code : IsDistinct ℕ_discrete snapshot.code
    pub storage : IsDistinct slot_discrete snapshot.storage
    pub block_hashes : IsDistinct ℕ_discrete snapshot.block_hashes

pub ==_refl : (n : ℕ) → (n == n) ≡ true
==_refl n = ground arith

of_block_twice :
    (number : ℕ) (env : Option StoredBlockEnv)
    → of_block number (of_block number env) ≡ of_block number env
unfolding of_block
of_block_twice number none = refl
of_block_twice number (some env) = ground arith

module _ {B W : Type 0} (bytecode : Bytecode B) (fs : FileSystem W) (json : Format CacheFile)
    (dir : PathBuf) where
  checked-packed :
      (path : PathBuf) (key : CacheKey) (snapshot : BaseSnapshot B) (env : Option StoredBlockEnv)
      → checked path key (packed bytecode fs json dir key snapshot env)
        ≡ ok (packed bytecode fs json dir key snapshot env)
  unfolding checked packed
  checked-packed path key snapshot env = rw (==_refl key.chain_id, ==_refl key.block_number) refl

  unpacked-packed :
      (path : PathBuf) (key : CacheKey) (snapshot : BaseSnapshot B) (env : Option StoredBlockEnv)
      → IsMapped snapshot
      → Checks bytecode snapshot.code
      → unpacked bytecode fs json dir path key (packed bytecode fs json dir key snapshot env)
        ≡ ok (
          record snapshot { accounts = recoded snapshot.code snapshot.accounts },
          env_of (of_block key.block_number env),
        )
  unfolding unpacked packed from_parts
  unpacked-packed path key snapshot env mapped codes =
      rw
        (
          decode_code-stored_code bytecode path snapshot.code codes,
          of_block_twice key.block_number env,
          loaded_slots-stored_slots snapshot.storage,
          attach_code-stored_accounts snapshot.code snapshot.accounts mapped.code,
          extend_nil ℕ_discrete (recoded snapshot.code snapshot.accounts)
              (recoded-IsDistinct snapshot.code snapshot.accounts mapped.accounts),
          extend_nil ℕ_discrete snapshot.code mapped.code,
          extend_nil slot_discrete snapshot.storage mapped.storage,
          extend_nil ℕ_discrete snapshot.block_hashes mapped.block_hashes,
        )
        refl

  module _ (disk : IsFileSystem fs) (text : IsFormat json) where
    written_reads :
        (path : PathBuf) (file : CacheFile) (w w' : W)
        → written bytecode fs json dir path (json.to_vec file) w ≡ (ok tt, w')
        → (bytes : List ℕ) × ((fs.read path w' ≡ ok bytes) × (json.from_slice bytes ≡ ok file))
    unfolding written
    written_reads path file w w' h = elim (Result-cases (json.to_vec file)) [
      | inl (bytes, e) ↦ (
        bytes,
        (
          write_atomically_reads fs disk path bytes w w' (rw (e, written) at h),
          text.reads_back file bytes e,
        ),
      )
      | inr (e, failed) ↦
          absurd
            (err-ne-ok (CacheError.malformed path e) (ap (λ p. p.0) (rw (failed, written) at h)))
    ]

    -- A snapshot that was stored without an error for a chain and a block is loaded for them as it
    -- was, its accounts with their code inline where the snapshot has it under their hash; and with
    -- it the block env, if one of that block was given. The maps of the snapshot hold each key once,
    -- its codes are read back by revm, and the disk and serde do as they document.
    pub load-store :
        (key : CacheKey) (snapshot : BaseSnapshot B) (env : Option StoredBlockEnv) (w w' : W)
        → IsMapped snapshot
        → Checks bytecode snapshot.code
        → store_inner bytecode fs json dir key snapshot env w ≡ (ok tt, w')
        → load_with_block_env bytecode fs json dir key w'
          ≡ ok (
            record snapshot { accounts = recoded snapshot.code snapshot.accounts },
            env_of (of_block key.block_number env),
          )
    unfolding store_inner load_with_block_env opened
    load-store key snapshot env w w' mapped codes h =
        let path = path_for bytecode fs json dir key in
        let (bytes, (stored, parsed)) =
          written_reads path (packed bytecode fs json dir key snapshot env) w w' h in
        rw (stored, opened, parsed, checked-packed path key snapshot env)
          (unpacked-packed path key snapshot env mapped codes)
