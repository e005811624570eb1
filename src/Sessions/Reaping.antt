-- ===== src/Sessions/Reaping.antt =====
-- The sweep of idle sessions, and the count that follows the registry.
use forkyard.Base.{
  ℕ, List, [], ◌∷◌, ◌-◌, ◌≤◌, ◌≡◌, refl, Option, none, some, ltb, length, if◌then◌else◌, ℕ_discrete,
  arith,
}
use forkyard.Base.Maps.{get}
use forkyard.Base.Sorts.{IsDistinct}
use forkyard.Engine.Session.{Session}
use forkyard.Fetch.Speculation.{Thread}
use forkyard.Sessions.Execute.{Evm}
use forkyard.Sessions.Handle.{Sessions}
use forkyard.Sessions.Worker.{Worker, Event, receives, times_out, retain, turn, spawned}
use forkyard.Sessions.Order.{turns}

module _ {B E W : Type 0} where
  -- An entry that was last touched within the time to live.
  unfoldable pub live :
      ℕ → ℕ → Option (Session B E (Thread W) × ℕ) → Option (Session B E (Thread W) × ℕ)
  live ttl now none = none
  live ttl now (some (s, touched)) = if ltb (now - touched) ttl then some (s, touched) else none

  pub retain_fresh :
      (ttl now id : ℕ) (sessions : Sessions B E W)
      → get ℕ_discrete id sessions ≡ none
      → get ℕ_discrete id (retain ttl now sessions) ≡ none
  unfolding get retain
  retain_fresh ttl now id [] h = refl
  retain_fresh ttl now id ((j, (s, touched)) ∷ sessions) h =
      ground (arith, retain_fresh ttl now id sessions)

  -- The sweep leaves the entry of a session as it is, time stamp included, if it was touched within
  -- the time to live, and takes it out if not; sessions stand once in the registry.
  pub get-retain :
      (ttl now id : ℕ) (sessions : Sessions B E W)
      → IsDistinct ℕ_discrete sessions
      → get ℕ_discrete id (retain ttl now sessions) ≡ live ttl now (get ℕ_discrete id sessions)
  unfolding get retain live
  get-retain ttl now id [] d = refl
  get-retain ttl now id ((j, (s, touched)) ∷ sessions) d =
      ground (arith, get-retain ttl now id sessions d.1, retain_fresh ttl now j sessions d.0)

  length-retain :
      (ttl now : ℕ) (sessions : Sessions B E W)
      → (length (retain ttl now sessions) ≤ length sessions)
  unfolding retain
  length-retain ttl now [] = omega arith
  length-retain ttl now ((j, (s, touched)) ∷ sessions) =
      ground (arith, length-retain ttl now sessions)

module _ {B E W Tx X I : Type 0} (evm : Evm B E Tx X I) (ttl : ℕ) where
  turn_counted :
      (event : Event B E W Tx) (w : Worker B E W Tx)
      → w.count ≡ length w.sessions
      → (turn evm ttl event w).0.count ≡ length (turn evm ttl event w).0.sessions
  unfolding turn
  turn_counted (receives now job t) w h = refl
  turn_counted (times_out now) w h = ground (arith, length-retain ttl now w.sessions)

  turns_counted_from :
      (events : List (Event B E W Tx)) (w : Worker B E W Tx)
      → w.count ≡ length w.sessions
      → (turns evm ttl events w).count ≡ length (turns evm ttl events w).sessions
  unfolding turns
  turns_counted_from [] w h = h
  turns_counted_from (event ∷ events) w h =
      turns_counted_from events (turn evm ttl event w).0 (turn_counted event w h)

  -- Whatever events a fresh worker sees, the count that it publishes is the number of its sessions.
  pub turns_counted :
      (events : List (Event B E W Tx))
      → (turns evm ttl events spawned).count ≡ length (turns evm ttl events spawned).sessions
  unfolding spawned
  turns_counted events = turns_counted_from events spawned refl
