-- ===== src/Sessions/Registered.antt =====
-- The registry of sessions of crates/session/src/lib.rs as a map: each session stands in it once.
use forkyard.Base.{
  ℕ, List, [], ◌∷◌, ◌++◌, ◌≡◌, inl, inr, Bool, false, ◌||◌, Option-cases, ℕ_discrete, leb, arith,
}
use forkyard.Base.Maps.{get, remove, get-remove}
use forkyard.Base.Sorts.{IsDistinct, insert-IsDistinct}
use forkyard.Engine.Session.{Session}
use forkyard.Fetch.Speculation.{Thread}
use forkyard.Sessions.Attempt.{Pass, done, missed, panicked}
use forkyard.Sessions.Jobs.{Job, Reply, session_id, ticket}
use forkyard.Sessions.Execute.{Evm}
use forkyard.Sessions.Handle.{
  Sessions, Effect, Outcome, answered, deferred, unwinds, Arm, reads, uses, registers, removes,
  unreachable, arm, settle_read, serve, handle,
}
use forkyard.Sessions.Worker.{
  Worker, After, Event, receives, times_out, retain, park, conclude_job, drain, unblock, start,
  enqueue, admit, accept, turn, spawned, max_speculative_rounds,
}
use forkyard.Sessions.Order.{turns}
use forkyard.Sessions.Reaping.{retain_fresh, live, get-retain}

module _ {B E W : Type 0} where
  remove-IsDistinct :
      (id : ℕ) (sessions : Sessions B E W)
      → IsDistinct ℕ_discrete sessions
      → IsDistinct ℕ_discrete (remove ℕ_discrete id sessions)
  unfolding remove
  remove-IsDistinct id [] d = tt
  remove-IsDistinct id ((j, e) ∷ sessions) d =
      ground (arith, remove-IsDistinct id sessions d.1, get-remove ℕ_discrete id j sessions, d.0)

  retain-IsDistinct :
      (ttl now : ℕ) (sessions : Sessions B E W)
      → IsDistinct ℕ_discrete sessions
      → IsDistinct ℕ_discrete (retain ttl now sessions)
  unfolding retain
  retain-IsDistinct ttl now [] d = tt
  retain-IsDistinct ttl now ((j, (s, touched)) ∷ sessions) d =
      ground (arith, retain-IsDistinct ttl now sessions d.1, retain_fresh ttl now j sessions d.0)

module _ {B E W X I : Type 0} where
  settle_read-IsDistinct :
      (sessions : Sessions B E W) (count now id reply : ℕ)
      (p : Pass (Reply B E W X I) × Session B E (Thread W) × Thread W)
      → IsDistinct ℕ_discrete sessions
      → IsDistinct ℕ_discrete (settle_read sessions count now id reply p).sessions
  unfolding settle_read
  settle_read-IsDistinct sessions count now id reply (done answer, s, t) d =
      insert-IsDistinct ℕ_discrete id (s, now) sessions d
  settle_read-IsDistinct sessions count now id reply (missed keys, s, t) d =
      insert-IsDistinct ℕ_discrete id (s, now) sessions d
  settle_read-IsDistinct sessions count now id reply (panicked, s, t) d =
      insert-IsDistinct ℕ_discrete id (s, now) sessions d

  serve-IsDistinct :
      (sessions : Sessions B E W) (count now reply : ℕ) (a : Arm B E W X I) (t : Thread W)
      → IsDistinct ℕ_discrete sessions
      → IsDistinct ℕ_discrete (serve sessions count now reply a t).sessions
  unfolding serve
  serve-IsDistinct sessions count now reply (reads k fail pass) t d =
      elim (Option-cases (get ℕ_discrete k sessions)) [
        | inl e ↦ rw (e, serve) d
        | inr ((s, touched), e) ↦
            rw (e, serve) (settle_read-IsDistinct sessions count now k reply (pass s t) d)
      ]
  serve-IsDistinct sessions count now reply (uses k fail use_it) t d =
      elim (Option-cases (get ℕ_discrete k sessions)) [
        | inl e ↦ rw (e, serve) d
        | inr ((s, touched), e) ↦ rw (e, serve) (insert-IsDistinct ℕ_discrete k _ sessions d)
      ]
  serve-IsDistinct sessions count now reply (registers k s answer) t d =
      insert-IsDistinct ℕ_discrete k (s, now) sessions d
  serve-IsDistinct sessions count now reply (removes k) t d = remove-IsDistinct k sessions d
  serve-IsDistinct sessions count now reply unreachable t d = d

module _ {B E W Tx X I : Type 0} where
  conclude_job-IsDistinct :
      (o : Outcome) (job : Job B E W Tx) (queue : List (Job B E W Tx)) (rounds : ℕ)
      (w : Worker B E W Tx) (t : Thread W) (effects : List (Effect B E W X I))
      (rest : After B E W Tx X I)
      → IsDistinct ℕ_discrete w.sessions
      → IsDistinct ℕ_discrete rest.worker.sessions
      → IsDistinct ℕ_discrete (conclude_job o job queue rounds w t effects rest).worker.sessions
  unfolding conclude_job
  conclude_job-IsDistinct answered job queue rounds w t effects rest now later = later
  conclude_job-IsDistinct (deferred keys) job queue rounds w t effects rest now later =
      elim (Option-cases (session_id job)) [
        | inl e ↦ rw (e, park) now
        | inr (id, e) ↦ rw (e, park) now
      ]
  conclude_job-IsDistinct unwinds job queue rounds w t effects rest now later = now

module _ {B E W Tx X I : Type 0} (evm : Evm B E Tx X I) where
  drain-IsDistinct :
      (now : ℕ) (queue : List (Job B E W Tx)) (rounds : ℕ) (blocking : Bool) (w : Worker B E W Tx)
      (t : Thread W) (effects : List (Effect B E W X I))
      → IsDistinct ℕ_discrete w.sessions
      → IsDistinct ℕ_discrete (drain evm now queue rounds blocking w t effects).worker.sessions
  unfolding drain handle
  drain-IsDistinct now [] rounds blocking w t effects d = d
  drain-IsDistinct now (job ∷ queue) rounds blocking w t effects d =
      let h = handle evm w.sessions w.count now job blocking t in
      let w' : Worker B E W Tx = record w { sessions = h.sessions; count = h.count } in
      let here = serve-IsDistinct w.sessions w.count now (ticket job) (arm evm blocking job) t d in
      conclude_job-IsDistinct h.outcome job queue rounds w' h.thread (effects ++ h.effects)
        (drain evm now queue 0 false w' h.thread (effects ++ h.effects)) here
        (drain-IsDistinct now queue 0 false w' h.thread (effects ++ h.effects) here)

  admit-IsDistinct :
      (now : ℕ) (job : Job B E W Tx) (w : Worker B E W Tx) (t : Thread W)
      → IsDistinct ℕ_discrete w.sessions
      → IsDistinct ℕ_discrete (admit evm now job w t).worker.sessions
  unfolding admit start
  admit-IsDistinct now job w t d = elim (Option-cases (session_id job)) [
    | inl e ↦ rw (e, admit) (drain-IsDistinct now (job ∷ []) 0 false w t [] d)
    | inr (id, e) ↦ elim (Option-cases (get ℕ_discrete id w.blocked)) [
      | inl free ↦ rw (e, admit, free, enqueue) (drain-IsDistinct now (job ∷ []) 0 false w t [] d)
      | inr (b, held) ↦ rw (e, admit, held, enqueue) d
    ]
  ]

  unblock-IsDistinct :
      (now id : ℕ) (failed : Bool) (w : Worker B E W Tx) (t : Thread W)
      → IsDistinct ℕ_discrete w.sessions
      → IsDistinct ℕ_discrete (unblock evm now id failed w t).worker.sessions
  unfolding unblock
  unblock-IsDistinct now id failed w t d = elim (Option-cases (get ℕ_discrete id w.blocked)) [
    | inl e ↦ rw (e, unblock) d
    | inr (b, e) ↦
        rw (e, unblock)
          (drain-IsDistinct now b.queue b.rounds (failed || leb max_speculative_rounds b.rounds)
            (record w { blocked = remove ℕ_discrete id w.blocked }) t [] d)
  ]

  accept-IsDistinct :
      (now : ℕ) (job : Job B E W Tx) (w : Worker B E W Tx) (t : Thread W)
      → IsDistinct ℕ_discrete w.sessions
      → IsDistinct ℕ_discrete (accept evm now job w t).worker.sessions
  unfolding accept
  accept-IsDistinct now (Job.unblock id failed) w t d = unblock-IsDistinct now id failed w t d
  accept-IsDistinct now job w t d = admit-IsDistinct now job w t d

module _ {B E W Tx X I : Type 0} (evm : Evm B E Tx X I) (ttl : ℕ) where
  turn-IsDistinct :
      (event : Event B E W Tx) (w : Worker B E W Tx)
      → IsDistinct ℕ_discrete w.sessions
      → IsDistinct ℕ_discrete (turn evm ttl event w).0.sessions
  unfolding turn
  turn-IsDistinct (receives now job t) w d = accept-IsDistinct evm now job w t d
  turn-IsDistinct (times_out now) w d = retain-IsDistinct ttl now w.sessions d

  turns-IsDistinct :
      (events : List (Event B E W Tx)) (w : Worker B E W Tx)
      → IsDistinct ℕ_discrete w.sessions
      → IsDistinct ℕ_discrete (turns evm ttl events w).sessions
  unfolding turns
  turns-IsDistinct [] w d = d
  turns-IsDistinct (event ∷ events) w d =
      turns-IsDistinct events (turn evm ttl event w).0 (turn-IsDistinct event w d)

  -- On a second with no job, after any events of a fresh worker, a session stays as it is, its time
  -- stamp included, if it was touched within the time to live, and is gone if not.
  pub swept :
      (events : List (Event B E W Tx)) (now id : ℕ)
      → get ℕ_discrete id (turn evm ttl (times_out now) (turns evm ttl events spawned)).0.sessions
        ≡ live ttl now (get ℕ_discrete id (turns evm ttl events spawned).sessions)
  unfolding turn spawned
  swept events now id =
      get-retain ttl now id (turns evm ttl events spawned).sessions
        (turns-IsDistinct events spawned tt)
