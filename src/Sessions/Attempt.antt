-- ===== src/Sessions/Attempt.antt =====
-- crates/session/src/lib.rs, `attempt`: a speculative pass that is kept only if nothing was missing.
use forkyard.Base.{List, [], ◌∷◌, Bool, true, false, Option, none, some}
use forkyard.Engine.Session.{Session, begin_speculation, end_speculation}
use forkyard.Fetch.Keys.{StateKey}
use forkyard.Fetch.Speculation.{Thread, speculate}
use forkyard.Sessions.Program.{Program, run}

-- `Ok`, `Err` with the missing keys, or the panic that travels on.
pub data Pass (R : Type 0) : Type 0 where
  done : R → Pass R
  missed : List StateKey → Pass R
  panicked : Pass R

abbrev pub settle : {R : Type 0} → Option R → Pass R
settle none = panicked
settle (some r) = done r

module _ {B E W R : Type 0} where
  unfoldable pub conclude :
      Option (R × List StateKey) × Session B E (Thread W) × Thread W
      → Pass R × Session B E (Thread W) × Thread W
  conclude (none, s, t) = (panicked, end_speculation s false, t)
  conclude (some (r, []), s, t) = (done r, end_speculation s true, t)
  conclude (some (r, key ∷ keys), s, t) = (missed (key ∷ keys), end_speculation s false, t)

  -- A pass with `blocking` waits for each read; its panic is not caught here.
  unfoldable pub attempt :
      Session B E (Thread W)
      → Bool
      → Program B E R
      → Thread W
      → Pass R × Session B E (Thread W) × Thread W
  unfolding conclude
  attempt s true f t = let (result, s', t') = run f s t in (settle result, s', t')
  attempt s false f t = conclude (speculate (run f (begin_speculation s)) t)
