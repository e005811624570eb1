-- ===== src/Sessions/Program.antt =====
-- What a worker runs against a session, as far as the session can tell: a program of database
-- reads. The EVM, which reads state through `Database` alone, enters as such a program too.
use forkyard.Base.{ℕ, Option, none, some, Result}
use forkyard.Engine.Types.{AccountInfo}
use forkyard.Engine.Session.{Session}
use forkyard.Engine.Database
use forkyard.Engine.Database.{SessionDbError}

-- A program of type `R`; `panics` is an unwinding panic.
pub data Program (B E R : Type 0) : Type 0 where
  returns : R → Program B E R
  panics : Program B E R
  reads_account :
      ℕ → (Result (SessionDbError E) (Option (AccountInfo B)) → Program B E R) → Program B E R
  reads_code : ℕ → (Result (SessionDbError E) B → Program B E R) → Program B E R
  reads_slot : ℕ → ℕ → (Result (SessionDbError E) ℕ → Program B E R) → Program B E R
  reads_hash : ℕ → (Result (SessionDbError E) ℕ → Program B E R) → Program B E R

module _ {B E R T : Type 0} where
  -- The program `p`, and then what `f` makes of its result.
  unfoldable pub and_then : Program B E R → (R → Program B E T) → Program B E T
  and_then (returns r) f = f r
  and_then panics f = panics
  and_then (reads_account a k) f = reads_account a (λ r. and_then (k r) f)
  and_then (reads_code h k) f = reads_code h (λ r. and_then (k r) f)
  and_then (reads_slot a i k) f = reads_slot a i (λ r. and_then (k r) f)
  and_then (reads_hash n k) f = reads_hash n (λ r. and_then (k r) f)

module _ {B E S R : Type 0} where
  -- Its result, `none` if it panics, with the session and the fallback's state after its reads.
  unfoldable pub run : Program B E R → Session B E S → S → Option R × Session B E S × S
  run (returns r) s w = (some r, s, w)
  run panics s w = (none, s, w)
  run (reads_account a k) s w = let (r, s', w') = Database.basic a s w in run (k r) s' w'
  run (reads_code h k) s w = let (r, s', w') = Database.code_by_hash h s w in run (k r) s' w'
  run (reads_slot a i k) s w = let (r, s', w') = Database.storage a i s w in run (k r) s' w'
  run (reads_hash n k) s w = let (r, s', w') = Database.block_hash n s w in run (k r) s' w'
