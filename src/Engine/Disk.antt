-- ===== src/Engine/Disk.antt =====
-- The writing of a file in crates/engine/src/persist.rs, over what `std::fs` and serde document.
use forkyard.Base.{ℕ, List, [], ◌++◌, ◌≡◌, ◌≢◌, refl, ap, ◌∙◌, Result, ok, err}
use forkyard.Engine.Files.{
  PathBuf, IoError, CacheError, FileSystem, after, write_temp, cleaning, made, write_atomically,
}
use forkyard.Engine.Persist.{Format}

-- What `std::fs` documents of the calls that the writing of a file makes.
pub record IsFileSystem {W : Type 0} (fs : FileSystem W) : Type 0 where
  pub create_empties :
      (path : PathBuf) (w w' : W) → fs.create path w ≡ (ok tt, w') → fs.read path w' ≡ ok []
  pub write_all_appends :
      (path : PathBuf) (bytes old : List ℕ) (w w' : W)
      → fs.read path w ≡ ok old
      → fs.write_all path bytes w ≡ (ok tt, w')
      → fs.read path w' ≡ ok (old ++ bytes)
  pub sync_all_keeps :
      (path : PathBuf) (w w' : W)
      → fs.sync_all path w ≡ (ok tt, w')
      → fs.read path w' ≡ fs.read path w
  pub rename_moves :
      (from to : PathBuf) (w w' : W)
      → fs.rename from to w ≡ (ok tt, w')
      → fs.read to w' ≡ fs.read from w

pub err-ne-ok : {E : Type 0} (e : E) → err e ≢ ok (tt {0})
err-ne-ok e = λ h. cc

module _ {W : Type 0} (fs : FileSystem W) where
  after_ok :
      {E : Type 0} (x : Result E (Unit {0}) × W) (rest : W → Result E (Unit {0}) × W) (w' : W)
      → after fs x rest ≡ (ok tt, w')
      → (w : W) × ((x ≡ (ok tt, w)) × (rest w ≡ (ok tt, w')))
  unfolding after
  after_ok (ok done, w) rest w' h = (w, (refl, h))
  after_ok (err e, w) rest w' h = absurd (err-ne-ok e (ap (λ p. p.0) h))

  cleaning_ok :
      (temp blamed : PathBuf) (x : Result IoError (Unit {0}) × W) (w' : W)
      → cleaning fs temp blamed x ≡ (ok tt, w')
      → x ≡ (ok tt, w')
  unfolding cleaning
  cleaning_ok temp blamed (ok done, w) w' h = λ i. (ok tt, (h i).1)
  cleaning_ok temp blamed (err e, w) w' h =
      absurd (err-ne-ok (CacheError.io blamed e) (ap (λ p. p.0) h))

  module _ (laws : IsFileSystem fs) where
    write_temp_reads :
        (temp : PathBuf) (bytes : List ℕ) (w w' : W)
        → write_temp fs temp bytes w ≡ (ok tt, w')
        → fs.read temp w' ≡ ok bytes
    unfolding write_temp
    write_temp_reads temp bytes w w' h =
        let (w1, (created, h1)) = after_ok (fs.create temp w) _ w' h in
        let (w2, (wrote, synced)) = after_ok (fs.write_all temp bytes w1) _ w' h1 in
        laws.sync_all_keeps temp w2 w' synced
        ∙ laws.write_all_appends temp bytes [] w1 w2 (laws.create_empties temp w w1 created) wrote

    -- A file that was written without an error is read back as it was written.
    pub write_atomically_reads :
        (path : PathBuf) (bytes : List ℕ) (w w' : W)
        → write_atomically fs path bytes w ≡ (ok tt, w')
        → fs.read path w' ≡ ok bytes
    unfolding write_atomically
    write_atomically_reads path bytes w w' h =
        let (w1, (dir_made, h1)) =
          after_ok (made fs (fs.parent path) (fs.create_dir_all (fs.parent path) w)) _ w' h in
        let temp = (fs.temp path w1).0 in
        let w2 = (fs.temp path w1).1 in
        let (w3, (temp_written, renamed)) =
          after_ok (cleaning fs temp temp (write_temp fs temp bytes w2)) _ w' h1 in
        laws.rename_moves temp path w3 w' (cleaning_ok temp path _ w' renamed)
        ∙ write_temp_reads temp bytes w2 w3 (cleaning_ok temp temp _ w3 temp_written)

-- serde reads a file back from the bytes that it wrote for it.
pub record IsFormat {File : Type 0} (json : Format File) : Type 0 where
  pub reads_back :
      (file : File) (bytes : List ℕ) → json.to_vec file ≡ ok bytes → json.from_slice bytes ≡ ok file
