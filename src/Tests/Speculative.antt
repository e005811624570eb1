-- ===== src/Tests/Speculative.antt =====
-- Speculative passes on the small chain.
use forkyard.Base.{[], ◌∷◌, ◌≡◌, refl, ◌⊎◌, true, false, some, ok, ℕ_discrete}
use forkyard.Base.Maps.{get, insert}
use forkyard.Engine.Session.{fork, begin_speculation}
use forkyard.Engine.Database.{basic}
use forkyard.Fetch.Keys.{StateKey, sort, dedup}
use forkyard.Fetch.Speculation.{speculate}
use forkyard.Fetch.ReadThrough.{read_through}
use forkyard.Fetch.Placeholders.{IsHonest, read_through-IsHonest}
use forkyard.Sessions.Program.{run}
use forkyard.Sessions.Attempt.{done, missed, attempt}
use forkyard.Sessions.Undo.{attempt_undone}
use forkyard.Sessions.Clean.{attempt_clean}
use forkyard.Tests.{Bytes, AccountReply, holder, chain, fresh_session, cold, warm, look_up}

cold_pass : (attempt fresh_session false (look_up 1) cold).0 ≡ missed (StateKey.account 1 ∷ [])
unfolding fork attempt speculate run basic get insert ℕ_discrete read_through begin_speculation sort
    dedup
cold_pass = refl

warm_pass : (attempt fresh_session false (look_up 1) warm).0 ≡ done (ok (some (holder 1)))
unfolding fork attempt speculate run basic get insert ℕ_discrete read_through begin_speculation sort
    dedup
warm_pass = refl

attempt_undone_example :
    ((r : AccountReply) × ((attempt fresh_session false (look_up 1) cold).0 ≡ done r))
    ⊎ ((attempt fresh_session false (look_up 1) cold).1 ≡ fresh_session)
unfolding fork
attempt_undone_example = attempt_undone fresh_session (look_up 1) cold refl

attempt_clean_example :
    attempt fresh_session true (look_up 1) warm ≡ attempt fresh_session false (look_up 1) warm
unfolding fork
attempt_clean_example =
    attempt_clean fresh_session (look_up 1) warm (ok (some (holder 1)))
      (read_through-IsHonest chain) refl refl warm_pass

read_through-IsHonest_example : IsHonest (read_through {B = Bytes} chain)
read_through-IsHonest_example = read_through-IsHonest chain
