-- ===== src/Sessions/Isolation.antt =====
-- The one session that each job of crates/session/src/lib.rs touches.
use forkyard.Base.{
  ℕ, List, [], ◌∷◌, ◌++◌, ◌≡◌, ◌≢◌, refl, ◌∙◌, inl, inr, Bool, false, ◌||◌, Option, none, some,
  Option-cases, ℕ_discrete, leb,
}
use forkyard.Base.Maps.{get, remove, get-insert_ne, get-remove_ne}
use forkyard.Engine.Session.{Session}
use forkyard.Fetch.Speculation.{Thread}
use forkyard.Sessions.Attempt.{Pass, done, missed, panicked}
use forkyard.Sessions.Jobs.{Job, Reply, session_id, ticket}
use forkyard.Sessions.Execute.{Evm}
use forkyard.Sessions.Handle.{
  Sessions, Effect, Outcome, answered, deferred, unwinds, Arm, reads, uses, registers, removes,
  unreachable, arm, settle_read, serve, handle,
}
use forkyard.Sessions.Worker.{
  Worker, After, receives, park, conclude_job, drain, unblock, enqueue, admit, accept, turn,
  max_speculative_rounds,
}
use forkyard.Sessions.Accounts.{Owns}
use forkyard.Sessions.Order.{Owned, subject}

differs : (k id j : ℕ) → some k ≡ some id → j ≢ id → j ≢ k
differs k id j h ne = λ e. ne cc

module _ {B E W X I : Type 0} where
  -- The session that an arm reads or writes.
  abbrev touches : Arm B E W X I → Option ℕ
  touches (reads id fail pass) = some id
  touches (uses id fail use_it) = some id
  touches (registers id s answer) = some id
  touches (removes id) = some id
  touches unreachable = none

  settle_read-others :
      (sessions : Sessions B E W) (count now id reply j : ℕ)
      (p : Pass (Reply B E W X I) × Session B E (Thread W) × Thread W)
      → j ≢ id
      → get ℕ_discrete j (settle_read sessions count now id reply p).sessions
        ≡ get ℕ_discrete j sessions
  unfolding settle_read
  settle_read-others sessions count now id reply j (done answer, s, t) ne =
      get-insert_ne ℕ_discrete id j (s, now) sessions ne
  settle_read-others sessions count now id reply j (missed keys, s, t) ne =
      get-insert_ne ℕ_discrete id j (s, now) sessions ne
  settle_read-others sessions count now id reply j (panicked, s, t) ne =
      get-insert_ne ℕ_discrete id j (s, now) sessions ne

  serve-others :
      (sessions : Sessions B E W) (count now reply id j : ℕ) (a : Arm B E W X I) (t : Thread W)
      → touches a ≡ some id
      → j ≢ id
      → get ℕ_discrete j (serve sessions count now reply a t).sessions ≡ get ℕ_discrete j sessions
  unfolding serve
  serve-others sessions count now reply id j (reads k fail pass) t h ne =
      elim (Option-cases (get ℕ_discrete k sessions)) [
        | inl e ↦ rw (e, serve) refl
        | inr ((s, touched), e) ↦
            rw (e, serve)
              (settle_read-others sessions count now k reply j (pass s t) (differs k id j h ne))
      ]
  serve-others sessions count now reply id j (uses k fail use_it) t h ne =
      elim (Option-cases (get ℕ_discrete k sessions)) [
        | inl e ↦ rw (e, serve) refl
        | inr ((s, touched), e) ↦
            rw (e, serve) (get-insert_ne ℕ_discrete k j _ sessions (differs k id j h ne))
      ]
  serve-others sessions count now reply id j (registers k s answer) t h ne =
      get-insert_ne ℕ_discrete k j (s, now) sessions (differs k id j h ne)
  serve-others sessions count now reply id j (removes k) t h ne =
      get-remove_ne ℕ_discrete k j sessions (differs k id j h ne)
  serve-others sessions count now reply id j unreachable t h ne = refl

module _ {B E W Tx X I : Type 0} (evm : Evm B E Tx X I) where
  touches-arm :
      (blocking : Bool) (job : Job B E W Tx) → touches (arm evm blocking job) ≡ session_id job
  unfolding arm session_id
  touches-arm blocking (Job.simulate id tx disable_checks reply) = refl
  touches-arm blocking (Job.advance id tx reply) = refl
  touches-arm blocking (Job.storage id address key reply) = refl
  touches-arm blocking (Job.code id address reply) = refl
  touches-arm blocking (Job.basic id address reply) = refl
  touches-arm blocking (Job.fork id base fallback block_env seed reply) = refl
  touches-arm blocking (Job.state id reply) = refl
  touches-arm blocking (Job.branch parent reply) = refl
  touches-arm blocking (Job.adopt id s reply) = refl
  touches-arm blocking (Job.discard id reply) = refl
  touches-arm blocking (Job.block_env_of id reply) = refl
  touches-arm blocking (Job.set_account id address info reply) = refl
  touches-arm blocking (Job.set_storage id address key value reply) = refl
  touches-arm blocking (Job.unblock id failed) = refl

  handle-others :
      (sessions : Sessions B E W) (count now id j : ℕ) (job : Job B E W Tx) (blocking : Bool)
      (t : Thread W)
      → session_id job ≡ some id
      → j ≢ id
      → get ℕ_discrete j (handle evm sessions count now job blocking t).sessions
        ≡ get ℕ_discrete j sessions
  unfolding handle
  handle-others sessions count now id j job blocking t own ne =
      serve-others sessions count now (ticket job) id j (arm evm blocking job) t
        (touches-arm blocking job ∙ own) ne

module _ {B E W Tx X I : Type 0} where
  conclude_job-others :
      (o : Outcome) (job : Job B E W Tx) (queue : List (Job B E W Tx)) (rounds : ℕ)
      (w : Worker B E W Tx) (t : Thread W) (effects : List (Effect B E W X I))
      (rest : After B E W Tx X I) (j : ℕ) (entry : Option (Session B E (Thread W) × ℕ))
      → get ℕ_discrete j w.sessions ≡ entry
      → get ℕ_discrete j rest.worker.sessions ≡ entry
      → get ℕ_discrete j (conclude_job o job queue rounds w t effects rest).worker.sessions ≡ entry
  unfolding conclude_job
  conclude_job-others answered job queue rounds w t effects rest j entry now later = later
  conclude_job-others (deferred keys) job queue rounds w t effects rest j entry now later =
      elim (Option-cases (session_id job)) [
        | inl e ↦ rw (e, park) now
        | inr (id, e) ↦ rw (e, park) now
      ]
  conclude_job-others unwinds job queue rounds w t effects rest j entry now later = now

module _ {B E W Tx X I : Type 0} (evm : Evm B E Tx X I) where
  drain-others :
      (now id j : ℕ) (queue : List (Job B E W Tx)) (rounds : ℕ) (blocking : Bool)
      (w : Worker B E W Tx) (t : Thread W) (effects : List (Effect B E W X I))
      → Owns id queue
      → j ≢ id
      → get ℕ_discrete j (drain evm now queue rounds blocking w t effects).worker.sessions
        ≡ get ℕ_discrete j w.sessions
  unfolding drain
  drain-others now id j [] rounds blocking w t effects owns ne = refl
  drain-others now id j (job ∷ queue) rounds blocking w t effects owns ne =
      let h = handle evm w.sessions w.count now job blocking t in
      let w' : Worker B E W Tx = record w { sessions = h.sessions; count = h.count } in
      let here = handle-others evm w.sessions w.count now id j job blocking t owns.0 ne in
      conclude_job-others h.outcome job queue rounds w' h.thread (effects ++ h.effects)
        (drain evm now queue 0 false w' h.thread (effects ++ h.effects)) j
        (get ℕ_discrete j w.sessions) here
        (drain-others now id j queue 0 false w' h.thread (effects ++ h.effects) owns.1 ne ∙ here)

  admit-others :
      (now id j : ℕ) (job : Job B E W Tx) (w : Worker B E W Tx) (t : Thread W)
      → session_id job ≡ some id
      → j ≢ id
      → get ℕ_discrete j (admit evm now job w t).worker.sessions ≡ get ℕ_discrete j w.sessions
  unfolding admit
  admit-others now id j job w t own ne = elim (Option-cases (get ℕ_discrete id w.blocked)) [
    | inl free ↦
        rw (own, admit, free, enqueue)
          (drain-others now id j (job ∷ []) 0 false w t [] (own, tt) ne)
    | inr (b, e) ↦ rw (own, admit, e, enqueue) refl
  ]

  unblock-others :
      (now id j : ℕ) (failed : Bool) (w : Worker B E W Tx) (t : Thread W)
      → Owned w
      → j ≢ id
      → get ℕ_discrete j (unblock evm now id failed w t).worker.sessions
        ≡ get ℕ_discrete j w.sessions
  unfolding unblock
  unblock-others now id j failed w t owned ne = elim (Option-cases (get ℕ_discrete id w.blocked)) [
    | inl e ↦ rw (e, unblock) refl
    | inr (b, e) ↦
        rw (e, unblock)
          (drain-others now id j b.queue b.rounds (failed || leb max_speculative_rounds b.rounds)
            (record w { blocked = remove ℕ_discrete id w.blocked }) t [] (rw e at (owned id)) ne)
  ]

  accept-others :
      (now id j : ℕ) (job : Job B E W Tx) (w : Worker B E W Tx) (t : Thread W)
      → subject job ≡ some id
      → Owned w
      → j ≢ id
      → get ℕ_discrete j (accept evm now job w t).worker.sessions ≡ get ℕ_discrete j w.sessions
  unfolding accept session_id
  accept-others now id j (Job.unblock id' failed) w t h owned ne =
      unblock-others now id' j failed w t owned (differs id' id j h ne)
  accept-others now id j job w t h owned ne = admit-others now id j job w t h ne

  -- If every queue of the worker holds jobs of its own session, then a job that arrives for one
  -- session, and all the jobs that it lets run, leave the entry of every other session as it was.
  pub turn-isolated :
      (ttl now id j : ℕ) (job : Job B E W Tx) (w : Worker B E W Tx) (t : Thread W)
      → subject job ≡ some id
      → Owned w
      → j ≢ id
      → get ℕ_discrete j (turn evm ttl (receives now job t) w).0.sessions
        ≡ get ℕ_discrete j w.sessions
  unfolding turn
  turn-isolated ttl now id j job w t h owned ne = accept-others now id j job w t h owned ne
