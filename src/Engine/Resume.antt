-- ===== src/Engine/Resume.antt =====
-- What `SnapshotStore` of crates/engine/src/persist.rs reads back from a snapshot that it wrote.
use forkyard.Base.{
  ℕ, List, ◌≡◌, ◌≢◌, refl, sym, ap, ◌∙◌, true, Result, ok, err, ℕ_discrete, Result-cases,
  Bool-cases, inl, inr,
}
use forkyard.Base.Sorts.{IsDistinct}
use forkyard.Engine.State.{SessionState}
use forkyard.Engine.Files.{PathBuf, CacheError, Bytecode, FileSystem}
use forkyard.Engine.Persist.{Format, opened}
use forkyard.Engine.Disk.{IsFileSystem, IsFormat, write_atomically_reads}
use forkyard.Engine.RoundTrip.{
  Checks, decode_code-stored_code, loaded_slots-stored_slots, recoded, attach_code-stored_accounts,
  ==_refl,
}
use forkyard.Engine.SnapshotStore.{
  SnapshotFile, SnapshotInfo, Digest, checked, path_for, packed, id_of, described, ensured,
  finished, placed, printed, store, unpacked, load, block_of,
}

err-ne-found : (e : CacheError) (info : SnapshotInfo) → err e ≢ ok info
err-ne-found e info = λ h. cc

module _ {B W : Type 0} (bytecode : Bytecode B) (fs : FileSystem W) (json : Format SnapshotFile)
    (digest : Digest) (dir : PathBuf) (chain : ℕ) where
  -- A file that stands already under the name of the bytes of a state holds these bytes.
  abbrev pub IsAddressed : ℕ → SessionState B → W → Type 0
  IsAddressed block_number state w =
      (bytes : List ℕ) (path : PathBuf)
      → json.to_vec (packed bytecode fs json digest dir chain block_number state) ≡ ok bytes
      → path_for bytecode fs json digest dir chain (id_of bytecode fs json digest dir chain bytes)
        ≡ ok path
      → fs.exists path w ≡ true
      → fs.read path w ≡ ok bytes

  finished_ok :
      (i info : SnapshotInfo) (x : Result CacheError (Unit {0}) × W) (w' : W)
      → finished bytecode fs json digest dir chain i x ≡ (ok info, w')
      → (i ≡ info) × (x ≡ (ok tt, w'))
  unfolding finished
  finished_ok i info (ok done, w) w' h = (let e = ap (λ p. p.0) h in cc, λ k. (ok tt, (h k).1))
  finished_ok i info (err e, w) w' h = absurd (err-ne-found e info (ap (λ p. p.0) h))

  checked-packed :
      (path : PathBuf) (block_number : ℕ) (state : SessionState B)
      → checked path chain (packed bytecode fs json digest dir chain block_number state)
        ≡ ok block_number
  unfolding checked packed block_of
  checked-packed path block_number state = rw (==_refl chain) refl

  unpacked-packed :
      (path : PathBuf) (block_number : ℕ) (state : SessionState B)
      → IsDistinct ℕ_discrete state.code
      → Checks bytecode state.code
      → unpacked bytecode fs json digest dir chain path block_number
          (packed bytecode fs json digest dir chain block_number state)
        ≡ ok (block_number, record state { accounts = recoded state.code state.accounts })
  unfolding unpacked packed
  unpacked-packed path block_number state distinct codes =
      rw
        (
          decode_code-stored_code bytecode path state.code codes,
          loaded_slots-stored_slots state.storage,
          attach_code-stored_accounts state.code state.accounts distinct,
        )
        refl

  module _ (disk : IsFileSystem fs) (text : IsFormat json) where
    ensured_reads :
        (bytes : List ℕ) (path : PathBuf) (w w' : W)
        → (fs.exists path w ≡ true → fs.read path w ≡ ok bytes)
        → path_for bytecode fs json digest dir chain (id_of bytecode fs json digest dir chain bytes)
          ≡ ok path
        → ensured bytecode fs json digest dir chain path bytes w ≡ (ok tt, w')
        → fs.read path w' ≡ ok bytes
    unfolding ensured
    ensured_reads bytes path w w' addressed here h = elim (Bool-cases (fs.exists path w)) [
      | inl e ↦ rw (sym (ap (λ p. p.1) (rw (e, ensured) at h))) (addressed e)
      | inr e ↦ write_atomically_reads fs disk path bytes w w' (rw (e, ensured) at h)
    ]

    -- What a store leaves: bytes that stand at the path of their id and hold the file.
    stored_at :
        (block_number : ℕ) (state : SessionState B) (info : SnapshotInfo) (w w' : W)
        → IsAddressed block_number state w
        → store bytecode fs json digest dir chain block_number state w ≡ (ok info, w')
        → (path : PathBuf) × ((bytes : List ℕ) × ((path_for bytecode fs json digest dir chain
                  info.id
                ≡ ok path)
              × ((fs.read path w' ≡ ok bytes)
                  × (json.from_slice bytes
                      ≡ ok (packed bytecode fs json digest dir chain block_number state)))))
    unfolding store
    stored_at block_number state info w w' addressed h =
        elim (Result-cases
          (json.to_vec (packed bytecode fs json digest dir chain block_number state))) [
            | inr (e, failed) ↦
                absurd (err-ne-found _ info (ap (λ p. p.0) (rw (failed, printed) at h)))
            | inl (bytes, p) ↦
                elim (Result-cases (
                  path_for bytecode fs json digest dir chain
                    (id_of bytecode fs json digest dir chain bytes))) [
                      | inr (e, failed) ↦ absurd (
                          err-ne-found e info
                            (ap (λ p. p.0) (rw (p, printed, failed, placed) at h)))
                      | inl (path, here) ↦
                          let (same, wrote) =
                            finished_ok
                              (described bytecode fs json digest dir chain block_number state bytes)
                              info (ensured bytecode fs json digest dir chain path bytes w) w'
                              (rw (p, printed, here, placed) at h) in
                          (
                            path,
                            (
                              bytes,
                              (
                                ap (λ i. path_for bytecode fs json digest dir chain i.id) (sym same)
                                    ∙ here,
                                (
                                  ensured_reads bytes path w w' (addressed bytes path p here) here
                                      wrote,
                                  text.reads_back _ bytes p,
                                ),
                              ),
                            ),
                          )
                    ]
          ]

    -- A session state that was stored without an error is loaded under the id that the store gave,
    -- with its block and as it was, its accounts with their code inline where the state has it under
    -- their hash. The state holds each code once, revm reads its codes back, the disk and serde do as
    -- they document, and a file that stands already under the name of its bytes holds these bytes.
    pub load_stored :
        (block_number : ℕ) (state : SessionState B) (info : SnapshotInfo) (w w' : W)
        → IsAddressed block_number state w
        → IsDistinct ℕ_discrete state.code
        → Checks bytecode state.code
        → store bytecode fs json digest dir chain block_number state w ≡ (ok info, w')
        → load bytecode fs json digest dir chain info.id w'
          ≡ ok (block_number, record state { accounts = recoded state.code state.accounts })
    unfolding load opened
    load_stored block_number state info w w' addressed distinct codes h =
        let (path, (bytes, (here, (stored, parsed)))) =
          stored_at block_number state info w w' addressed h in
        rw (here, stored, opened, parsed, checked-packed path block_number state)
          (unpacked-packed path block_number state distinct codes)
