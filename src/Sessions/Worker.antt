-- ===== src/Sessions/Worker.antt =====
-- crates/session/src/lib.rs, `Worker` and `worker_loop`: one worker thread, which parks a job that
-- missed upstream state with every later job of its session, and serves other sessions meanwhile.
use forkyard.Base.{
  ℕ, ◌+◌, ◌-◌, List, [], ◌∷◌, ◌++◌, Bool, false, ◌||◌, none, some, ltb, leb, if◌then◌else◌, length,
  ℕ_discrete,
}
use forkyard.Base.Maps
use forkyard.Fetch.Keys.{StateKey}
use forkyard.Fetch.Speculation.{Thread}
use forkyard.Sessions.Jobs.{Job, session_id, ticket}
use forkyard.Sessions.Execute.{Evm}
use forkyard.Sessions.Handle.{
  Sessions, Effect, dropped, resolving, Outcome, answered, deferred, unwinds, handle,
}

-- Passes a job may take before it is run blocking.
abbrev pub max_speculative_rounds : ℕ
max_speculative_rounds = 16

pub record Blocked (B E W Tx : Type 0) : Type 0 where
  pub queue : List (Job B E W Tx)
  pub rounds : ℕ

pub record Worker (B E W Tx : Type 0) : Type 0 where
  pub sessions : Sessions B E W
  pub blocked : List (ℕ × Blocked B E W Tx)
  pub count : ℕ

-- The worker that `spawn_worker` starts.
unfoldable pub spawned : {B E W Tx : Type 0} → Worker B E W Tx
spawned = record { sessions = []; blocked = []; count = 0 }

-- The state of a worker after an event, with its thread and what it did to the outside.
pub record After (B E W Tx X I : Type 0) : Type 0 where
  pub worker : Worker B E W Tx
  pub thread : Thread W
  pub effects : List (Effect B E W X I)

module _ {B E W Tx X I : Type 0} where
  -- `Worker::park`: the job goes to the front of its session's queue. Its keys are resolved on
  -- another thread, which posts `Unblock` whatever happens.
  unfoldable pub park :
      Job B E W Tx
      → List StateKey
      → Blocked B E W Tx
      → Worker B E W Tx
      → Thread W
      → List (Effect B E W X I)
      → After B E W Tx X I
  park job keys blocked w t effects = elim (session_id job) [
    | none ↦ record { worker = w; thread = t; effects = effects }
    | some id ↦ record {
      worker = record w {
        blocked =
            Maps.insert ℕ_discrete id
              (record { queue = job ∷ blocked.queue; rounds = blocked.rounds + 1 }) w.blocked;
      };
      thread = t;
      effects = effects ++ resolving id keys ∷ [];
    }
  ]

  unfoldable pub dropping : List (Job B E W Tx) → List (Effect B E W X I)
  dropping [] = []
  dropping (job ∷ jobs) = dropped (ticket job) ∷ dropping jobs

  -- One round of the loop of `Worker::unblock`, after its job was handled; `rest` is the rest of the
  -- loop. A panic drops the job that ran and all that waits behind it.
  unfoldable pub conclude_job :
      Outcome
      → Job B E W Tx
      → List (Job B E W Tx)
      → ℕ
      → Worker B E W Tx
      → Thread W
      → List (Effect B E W X I)
      → After B E W Tx X I
      → After B E W Tx X I
  unfolding park dropping
  conclude_job answered job queue rounds w t effects rest = rest
  conclude_job (deferred keys) job queue rounds w t effects rest =
      park job keys (record { queue = queue; rounds = rounds }) w t effects
  conclude_job unwinds job queue rounds w t effects rest = record {
    worker = w;
    thread = t;
    effects = effects ++ dropping (job ∷ queue);
  }

module _ {B E W Tx X I : Type 0} (evm : Evm B E Tx X I) where
  -- The loop of `Worker::unblock` over what is left of a session's queue. Once a job is answered,
  -- the next one starts afresh, without blocking.
  unfoldable pub drain :
      ℕ
      → List (Job B E W Tx)
      → ℕ
      → Bool
      → Worker B E W Tx
      → Thread W
      → List (Effect B E W X I)
      → After B E W Tx X I
  unfolding handle conclude_job
  drain now [] rounds blocking w t effects = record { worker = w; thread = t; effects = effects }
  drain now (job ∷ queue) rounds blocking w t effects =
      let h = handle evm w.sessions w.count now job blocking t in
      let w' = record w { sessions = h.sessions; count = h.count } in
      let effects' = effects ++ h.effects in
      conclude_job h.outcome job queue rounds w' h.thread effects'
        (drain now queue 0 false w' h.thread effects')

  unfoldable pub unblock : ℕ → ℕ → Bool → Worker B E W Tx → Thread W → After B E W Tx X I
  unfolding drain
  unblock now id failed w t = elim (Maps.get ℕ_discrete id w.blocked) [
    | none ↦ record { worker = w; thread = t; effects = [] }
    | some blocked ↦
        drain now blocked.queue blocked.rounds (failed || leb max_speculative_rounds blocked.rounds)
          (record w { blocked = Maps.remove ℕ_discrete id w.blocked }) t []
  ]

  -- The last step of `Worker::accept`: run the one job, and park it if it missed.
  unfoldable pub start : ℕ → Job B E W Tx → Worker B E W Tx → Thread W → After B E W Tx X I
  unfolding drain
  start now job w t = drain now (job ∷ []) 0 false w t []

  -- A job of a session that waits goes behind the jobs that wait.
  unfoldable pub enqueue : ℕ → ℕ → Job B E W Tx → Worker B E W Tx → Thread W → After B E W Tx X I
  unfolding start
  enqueue now id job w t = elim (Maps.get ℕ_discrete id w.blocked) [
    | some blocked ↦ record {
      worker = record w {
        blocked =
            Maps.insert ℕ_discrete id (record blocked { queue = blocked.queue ++ job ∷ [] })
              w.blocked;
      };
      thread = t;
      effects = [];
    }
    | none ↦ start now job w t
  ]

  -- `Worker::accept`, for a job that is no `Unblock`.
  unfoldable pub admit : ℕ → Job B E W Tx → Worker B E W Tx → Thread W → After B E W Tx X I
  unfolding enqueue
  admit now job w t = elim (session_id job) [
    | some id ↦ enqueue now id job w t
    | none ↦ start now job w t
  ]

  unfoldable pub accept : ℕ → Job B E W Tx → Worker B E W Tx → Thread W → After B E W Tx X I
  unfolding unblock admit
  accept now (Job.unblock id failed) w t = unblock now id failed w t
  accept now job w t = admit now job w t

-- The sweep of `worker_loop`, on a second with no job.
unfoldable pub retain : {B E W : Type 0} → ℕ → ℕ → Sessions B E W → Sessions B E W
retain ttl now [] = []
retain ttl now ((id, (s, touched)) ∷ sessions) =
    if ltb (now - touched) ttl
    then (id, (s, touched)) ∷ retain ttl now sessions
    else retain ttl now sessions

-- What arrives at the worker's loop: a job, with the thread as its reads find it, or a timeout.
pub data Event (B E W Tx : Type 0) : Type 0 where
  receives : ℕ → Job B E W Tx → Thread W → Event B E W Tx
  times_out : ℕ → Event B E W Tx

module _ {B E W Tx X I : Type 0} (evm : Evm B E Tx X I) (ttl : ℕ) where
  -- One turn of `worker_loop`: the count follows the sessions after either event.
  unfoldable pub turn : Event B E W Tx → Worker B E W Tx → Worker B E W Tx × List (Effect B E W X I)
  unfolding accept retain
  turn (receives now job t) w =
      let after = accept evm now job w t in
      (record after.worker { count = length after.worker.sessions }, after.effects)
  turn (times_out now) w =
      let kept = retain ttl now w.sessions in
      let removed = length w.sessions - length kept in
      (record w { sessions = kept; count = if ltb 0 removed then length kept else w.count }, [])
