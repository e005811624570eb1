-- ===== src/Sessions/Undo.antt =====
-- The session after a pass of `attempt` that is not clean.
use forkyard.Base.{List, [], ◌∷◌, ◌≡◌, refl, ap, sym, ◌∙◌, ◌⊎◌, inl, inr, false, Option, none, some}
use forkyard.Engine.Session.{Session, ReadKey, begin_speculation, end_speculation}
use forkyard.Engine.Database
use forkyard.Engine.Rollback.{
  Kept, Kept-refl, undone, basic-Kept, code_by_hash-Kept, storage-Kept, block_hash-Kept,
}
use forkyard.Fetch.Keys.{StateKey}
use forkyard.Fetch.Speculation.{Thread, speculate}
use forkyard.Sessions.Program.{
  Program, returns, panics, reads_account, reads_code, reads_slot, reads_hash, run,
}
use forkyard.Sessions.Attempt.{done, conclude, attempt}

module _ {B E S : Type 0} where
  Kept-trans : {s t u : Session B E S} → Kept s t → Kept t u → Kept s u
  Kept-trans h k = record { log = k.log; logs = k.logs; undoes = k.undoes ∙ h.undoes }

  pub undone-begin_speculation :
      (s : Session B E S) → s.read_log ≡ none → undone (begin_speculation s) ≡ s
  unfolding begin_speculation end_speculation
  undone-begin_speculation s h = ap (λ l. record s { read_log = l }) (sym h)

module _ {B E S R : Type 0} where
  -- However many reads a program makes, undoing the log brings the session back.
  pub run-Kept :
      (p : Program B E R) (log : List ReadKey) (s : Session B E S) (w : S)
      → s.read_log ≡ some log
      → Kept s (run p s w).1
  unfolding run
  run-Kept (returns r) log s w h = Kept-refl log s h
  run-Kept panics log s w h = Kept-refl log s h
  run-Kept (reads_account a k) log s w h =
      let (r, s', w') = Database.basic a s w in
      let first = basic-Kept log s h a w in
      Kept-trans first (run-Kept (k r) first.log s' w' first.logs)
  run-Kept (reads_code c k) log s w h =
      let (r, s', w') = Database.code_by_hash c s w in
      let first = code_by_hash-Kept log s h c w in
      Kept-trans first (run-Kept (k r) first.log s' w' first.logs)
  run-Kept (reads_slot a i k) log s w h =
      let (r, s', w') = Database.storage a i s w in
      let first = storage-Kept log s h a i w in
      Kept-trans first (run-Kept (k r) first.log s' w' first.logs)
  run-Kept (reads_hash n k) log s w h =
      let (r, s', w') = Database.block_hash n s w in
      let first = block_hash-Kept log s h n w in
      Kept-trans first (run-Kept (k r) first.log s' w' first.logs)

module _ {B E W R : Type 0} where
  conclude-undone :
      (s : Session B E (Thread W))
      (x : Option (R × List StateKey) × Session B E (Thread W) × Thread W)
      → undone x.1 ≡ s
      → ((r : R) × ((conclude x).0 ≡ done r)) ⊎ ((conclude x).1 ≡ s)
  unfolding conclude
  conclude-undone s (none, s', t) h = inr h
  conclude-undone s (some (r, []), s', t) h = inl (r, refl)
  conclude-undone s (some (r, key ∷ keys), s', t) h = inr h

  -- A speculative pass of a session that is in no other pass is clean, or, for keys it missed or by
  -- a panic, it leaves the session exactly as it was.
  pub attempt_undone :
      (s : Session B E (Thread W)) (f : Program B E R) (t : Thread W)
      → s.read_log ≡ none
      → ((r : R) × ((attempt s false f t).0 ≡ done r)) ⊎ ((attempt s false f t).1 ≡ s)
  unfolding attempt speculate begin_speculation
  attempt_undone s f t h = conclude-undone s (speculate (run f (begin_speculation s)) t) (
      (run-Kept f [] (begin_speculation s) (record t { misses = some [] }) refl).undoes
      ∙ undone-begin_speculation s h)
