-- ===== src/Sessions/Rounds.antt =====
-- The rounds of a job that waits on upstream, in `Worker::unblock`.
use mathlib.Core.List.{append_assoc, append-nil}
use forkyard.Base.{
  ℕ, ◌+◌, ◌<◌, List, [], ◌∷◌, ◌++◌, ◌≡◌, ◌≢◌, refl, ap, sym, ◌∙◌, ◌⊎◌, inl, inr, Bool, true, false,
  ◌||◌, some, Option-cases, ℕ_discrete, arith, leb,
}
use forkyard.Base.Maps.{get, remove, get-insert_self}
use forkyard.Fetch.Keys.{StateKey}
use forkyard.Fetch.Speculation.{Thread}
use forkyard.Sessions.Jobs.{Job, session_id, ticket}
use forkyard.Sessions.Execute.{Evm}
use forkyard.Sessions.Handle.{Effect, Outcome, answered, deferred, unwinds, handle}
use forkyard.Sessions.Worker.{
  Worker, Blocked, After, park, dropping, conclude_job, drain, unblock, max_speculative_rounds,
}
use forkyard.Sessions.Accounts.{finished, finished-append, Closing, handle-Closes}
use forkyard.Sessions.Progress.{handle-ne-deferred}

module _ {B E W Tx X I : Type 0} where
  -- `more` is closed behind what was closed before.
  abbrev Grows : List (Effect B E W X I) → After B E W Tx X I → Type 0
  Grows effects a = (more : List ℕ) × (finished a.effects ≡ finished effects ++ more)

  conclude_job-Grows :
      (o : Outcome) (job : Job B E W Tx) (queue : List (Job B E W Tx)) (rounds : ℕ)
      (w : Worker B E W Tx) (t : Thread W) (effects : List (Effect B E W X I))
      (rest : After B E W Tx X I)
      → Grows effects rest
      → Grows effects (conclude_job o job queue rounds w t effects rest)
  unfolding conclude_job
  conclude_job-Grows answered job queue rounds w t effects rest g = g
  conclude_job-Grows (deferred keys) job queue rounds w t effects rest g =
      elim (Option-cases (session_id job)) [
        | inl e ↦ ([], rw (e, park) (sym (append-nil (finished effects))))
        | inr (id, e) ↦ ([], rw (e, park) (finished-append effects _))
      ]
  conclude_job-Grows unwinds job queue rounds w t effects rest g =
      (_, finished-append effects (dropping (job ∷ queue)))

module _ {B E W Tx X I : Type 0} (evm : Evm B E Tx X I) where
  drain-Grows :
      (now : ℕ) (queue : List (Job B E W Tx)) (rounds : ℕ) (blocking : Bool) (w : Worker B E W Tx)
      (t : Thread W) (effects : List (Effect B E W X I))
      → Grows effects (drain evm now queue rounds blocking w t effects)
  unfolding drain
  drain-Grows now [] rounds blocking w t effects = ([], sym (append-nil (finished effects)))
  drain-Grows now (job ∷ queue) rounds blocking w t effects =
      let h = handle evm w.sessions w.count now job blocking t in
      let w' : Worker B E W Tx = record w { sessions = h.sessions; count = h.count } in
      let rest = drain evm now queue 0 false w' h.thread (effects ++ h.effects) in
      let (more, e) =
        conclude_job-Grows h.outcome job queue rounds w' h.thread (effects ++ h.effects) rest
          (drain-Grows now queue 0 false w' h.thread (effects ++ h.effects)) in
      (
        finished h.effects ++ more,
        e
            ∙ ap (λ l. l ++ more) (finished-append effects h.effects)
            ∙ append_assoc (finished effects) (finished h.effects) more,
      )

module _ {B E W Tx X I : Type 0} where
  -- The front job of a session's queue is closed, or it waits for one round more, and then this was
  -- not its last.
  abbrev pub Advances : ℕ → ℕ → Job B E W Tx → List (Job B E W Tx) → After B E W Tx X I → Type 0
  Advances id rounds job queue a =
      ((rest : List ℕ) × (finished a.effects ≡ ticket job ∷ rest))
      ⊎ ((finished a.effects ≡ [])
          × (get ℕ_discrete id a.worker.blocked
              ≡ some (record { queue = job ∷ queue; rounds = rounds + 1 }))
          × (rounds < max_speculative_rounds))

module _ {B E W Tx X I : Type 0} where
  conclude_front :
      (id : ℕ) (b : Blocked B E W Tx) (o : Outcome) (job : Job B E W Tx)
      (queue : List (Job B E W Tx)) (w : Worker B E W Tx) (t : Thread W)
      (new : List (Effect B E W X I)) (rest : After B E W Tx X I)
      → session_id job ≡ some id
      → Closing (ticket job) o (finished new)
      → ((keys : List StateKey) → o ≡ deferred keys → b.rounds < max_speculative_rounds)
      → Grows new rest
      → Advances id b.rounds job queue (conclude_job o job queue b.rounds w t new rest)
  unfolding conclude_job
  conclude_front id b answered job queue w t new rest own c few (more, g) =
      inl (more, g ∙ ap (λ l. l ++ more) c)
  conclude_front id b (deferred keys) job queue w t new rest own c few g =
      rw (own, park)
        (inr (
          finished-append new _ ∙ ap (λ l. l ++ []) c,
          get-insert_self ℕ_discrete id _ w.blocked,
          few keys refl,
        ))
  conclude_front id b unwinds job queue w t new rest own c few g = inl (
    finished (dropping {X = X} {I = I} queue),
    finished-append new (dropping (job ∷ queue))
        ∙ ap (λ l. l ++ finished (dropping {X = X} {I = I} (job ∷ queue))) c,
  )

few_rounds :
    (failed : Bool) (rounds : ℕ)
    → failed || leb max_speculative_rounds rounds ≢ true
    → rounds < max_speculative_rounds
few_rounds true rounds h = absurd (h refl)
few_rounds false rounds h = ground arith

module _ {B E W Tx X I : Type 0} (evm : Evm B E Tx X I) where
  drain-Advances :
      (now id : ℕ) (blocking : Bool) (w : Worker B E W Tx) (t : Thread W) (b : Blocked B E W Tx)
      (job : Job B E W Tx) (queue : List (Job B E W Tx))
      → session_id job ≡ some id
      → (blocking ≢ true → b.rounds < max_speculative_rounds)
      → Advances id b.rounds job queue
          (drain {X = X} {I = I} evm now (job ∷ queue) b.rounds blocking w t [])
  unfolding drain
  drain-Advances now id blocking w t b job queue own few =
      let h = handle evm w.sessions w.count now job blocking t in
      let w' : Worker B E W Tx = record w { sessions = h.sessions; count = h.count } in
      conclude_front id b h.outcome job queue w' h.thread h.effects
        (drain evm now queue 0 false w' h.thread h.effects) own
        (handle-Closes evm w.sessions w.count now job blocking t)
        (λ keys e. few (λ forced.
          handle-ne-deferred evm w.sessions w.count now job t keys
            (ap (λ v. (handle evm w.sessions w.count now job v t).outcome) (sym forced) ∙ e)))
        (drain-Grows evm now queue 0 false w' h.thread h.effects)

  -- An `Unblock` of a session whose queue starts with a job of that session closes this job first,
  -- with an answer or by a panic; or it closes nothing, and the same queue waits for one round more,
  -- which it had fewer than 16 of.
  pub unblock-Advances :
      (now id : ℕ) (failed : Bool) (w : Worker B E W Tx) (t : Thread W) (b : Blocked B E W Tx)
      (job : Job B E W Tx) (queue : List (Job B E W Tx))
      → get ℕ_discrete id w.blocked ≡ some b
      → b.queue ≡ job ∷ queue
      → session_id job ≡ some id
      → Advances id b.rounds job queue (unblock evm now id failed w t)
  unfolding unblock
  unblock-Advances now id failed w t b job queue e q own =
      rw (e, unblock, q)
        (drain-Advances now id (failed || leb max_speculative_rounds b.rounds)
          (record w { blocked = remove ℕ_discrete id w.blocked }) t b job queue own
          (few_rounds failed b.rounds))
