-- ===== src/Sessions/Accounts.antt =====
-- The tickets of a worker's jobs: which of them an event closes and which wait.
use mathlib.Core.List.{append-nil, append_assoc}
use forkyard.Base.{
  ℕ, List, [], ◌∷◌, ◌++◌, ◌+◌, ◌≡◌, ◌≢◌, refl, ap, ◌∙◌, inl, inr, Bool, false, Option, none, some,
  Option-cases, ℕ_discrete, All, map,
}
use forkyard.Base.Maps.{get, insert, get-insert_self, get-insert_ne}
use forkyard.Engine.Session.{Session}
use forkyard.Fetch.Keys.{StateKey}
use forkyard.Fetch.Speculation.{Thread}
use forkyard.Sessions.Attempt.{Pass, done, missed, panicked}
use forkyard.Sessions.Jobs.{Job, Reply, session_id, ticket}
use forkyard.Sessions.Execute.{Evm}
use forkyard.Sessions.Handle.{
  Sessions, Effect, replied, dropped, resolving, Outcome, answered, deferred, unwinds, Handled,
  handle, Arm, reads, uses, registers, removes, unreachable, arm, serve, settle_read,
}
use forkyard.Sessions.Worker.{Worker, Blocked, After, park, dropping, conclude_job, drain}

abbrev pub Closing : ℕ → Outcome → List ℕ → Type 0
Closing n answered tickets = tickets ≡ n ∷ []
Closing n (deferred keys) tickets = tickets ≡ []
Closing n unwinds tickets = tickets ≡ []

module _ {B E W X I : Type 0} where
  -- The tickets that effects close, with or without an answer.
  abbrev pub finished : List (Effect B E W X I) → List ℕ
  finished [] = []
  finished (replied n answer ∷ effects) = n ∷ finished effects
  finished (dropped n ∷ effects) = n ∷ finished effects
  finished (resolving id keys ∷ effects) = finished effects

  -- One answer to the ticket if the job is answered, and none before.
  abbrev pub Closes : ℕ → Handled B E W X I → Type 0
  Closes n h = Closing n h.outcome (finished h.effects)

  pub finished-append :
      (xs ys : List (Effect B E W X I)) → finished (xs ++ ys) ≡ finished xs ++ finished ys
  finished-append [] ys = refl
  finished-append (replied n answer ∷ xs) ys = ap (◌∷◌ n) (finished-append xs ys)
  finished-append (dropped n ∷ xs) ys = ap (◌∷◌ n) (finished-append xs ys)
  finished-append (resolving id keys ∷ xs) ys = finished-append xs ys

module _ {B E W X I : Type 0} where
  settle_read-Closes :
      (sessions : Sessions B E W) (count now id reply : ℕ)
      (p : Pass (Reply B E W X I) × Session B E (Thread W) × Thread W)
      → Closes reply (settle_read sessions count now id reply p)
  unfolding settle_read
  settle_read-Closes sessions count now id reply (done answer, s, t) = refl
  settle_read-Closes sessions count now id reply (missed keys, s, t) = refl
  settle_read-Closes sessions count now id reply (panicked, s, t) = refl

  serve-Closes :
      (sessions : Sessions B E W) (count now reply : ℕ) (a : Arm B E W X I) (t : Thread W)
      → Closes reply (serve sessions count now reply a t)
  unfolding serve
  serve-Closes sessions count now reply (reads id fail pass) t =
      elim (Option-cases (get ℕ_discrete id sessions)) [
        | inl e ↦ rw (e, serve) refl
        | inr ((s, touched), e) ↦
            rw (e, serve) (settle_read-Closes sessions count now id reply (pass s t))
      ]
  serve-Closes sessions count now reply (uses id fail use_it) t =
      elim (Option-cases (get ℕ_discrete id sessions)) [
        | inl e ↦ rw (e, serve) refl
        | inr ((s, touched), e) ↦ rw (e, serve) refl
      ]
  serve-Closes sessions count now reply (registers id s answer) t = refl
  serve-Closes sessions count now reply (removes id) t = refl
  serve-Closes sessions count now reply unreachable t = refl

module _ {B E W Tx X I : Type 0} (evm : Evm B E Tx X I) where
  pub handle-Closes :
      (sessions : Sessions B E W) (count now : ℕ) (job : Job B E W Tx) (blocking : Bool)
      (t : Thread W)
      → Closes (ticket job) (handle evm sessions count now job blocking t)
  unfolding handle
  handle-Closes sessions count now job blocking t =
      serve-Closes sessions count now (ticket job) (arm evm blocking job) t

module _ {B E W Tx : Type 0} where
  abbrev pub queue_of : Option (Blocked B E W Tx) → List (Job B E W Tx)
  queue_of none = []
  queue_of (some blocked) = blocked.queue

  -- The jobs of a session that wait, the first of them on upstream.
  abbrev pub pending : ℕ → Worker B E W Tx → List (Job B E W Tx)
  pending id w = queue_of (get ℕ_discrete id w.blocked)

  abbrev pub tickets : List (Job B E W Tx) → List ℕ
  tickets = map ticket

  abbrev pub Owns : ℕ → List (Job B E W Tx) → Type 0
  Owns id = All (λ job. session_id job ≡ some id)

-- After an event of session `id` that leaves the tickets `owed`: what was closed, and then what
-- still waits, is what was owed, in order; no other session's queue has changed.
pub record Settles {B E W Tx X I : Type 0} (id : ℕ) (blocked : List (ℕ × Blocked B E W Tx))
    (owed : List ℕ) (a : After B E W Tx X I) : Type 0 where
  pub closes : finished a.effects ++ tickets (pending id a.worker) ≡ owed
  pub others : (j : ℕ) → j ≢ id → get ℕ_discrete j a.worker.blocked ≡ get ℕ_discrete j blocked
  pub owns : Owns id (pending id a.worker)

module _ {B E W Tx : Type 0} (X I : Type 0) where
  finished-dropping :
      (jobs : List (Job B E W Tx)) → finished (dropping {X = X} {I = I} jobs) ≡ tickets jobs
  unfolding dropping
  finished-dropping [] = refl
  finished-dropping (job ∷ jobs) = ap (◌∷◌ (ticket job)) (finished-dropping jobs)

module _ {B E W X I : Type 0} where
  pub finished_quiet :
      (effects new : List (Effect B E W X I))
      → finished new ≡ []
      → finished (effects ++ new) ≡ finished effects
  finished_quiet effects new c =
      finished-append effects new ∙ ap (◌++◌ (finished effects)) c ∙ append-nil (finished effects)

module _ {B E W Tx X I : Type 0} where
  pub owing :
      {id : ℕ} {blocked : List (ℕ × Blocked B E W Tx)} {m n : List ℕ} {a : After B E W Tx X I}
      → m ≡ n
      → Settles id blocked m a
      → Settles id blocked n a
  owing e h = record { closes = h.closes ∙ e; others = h.others; owns = h.owns }

  park-Settles :
      (id : ℕ) (job : Job B E W Tx) (keys : List StateKey) (queue : List (Job B E W Tx))
      (rounds : ℕ) (w : Worker B E W Tx) (t : Thread W) (effects : List (Effect B E W X I))
      → session_id job ≡ some id
      → Owns id queue
      → Settles id w.blocked
          (finished effects ++ tickets (job ∷ queue))
          (park job keys (record { queue = queue; rounds = rounds }) w t effects)
  unfolding park
  park-Settles id job keys queue rounds w t effects own owns =
      rw (own, park)
        (let b : Blocked B E W Tx = record { queue = job ∷ queue; rounds = rounds + 1 } in
          let here : get ℕ_discrete id (insert ℕ_discrete id b w.blocked) ≡ some b =
            get-insert_self ℕ_discrete id b w.blocked in
          record {
            closes = rw (here, finished-append) (rw append-nil);
            others = λ j ne. get-insert_ne ℕ_discrete id j b w.blocked ne;
            owns = rw here (own, owns);
          })

  conclude_job-Settles :
      (id : ℕ) (o : Outcome) (job : Job B E W Tx) (queue : List (Job B E W Tx)) (rounds : ℕ)
      (w : Worker B E W Tx) (t : Thread W) (effects new : List (Effect B E W X I))
      (rest : After B E W Tx X I)
      → Closing (ticket job) o (finished new)
      → session_id job ≡ some id
      → Owns id queue
      → get ℕ_discrete id w.blocked ≡ none
      → Settles id w.blocked (finished (effects ++ new) ++ tickets queue) rest
      → Settles id w.blocked
          (finished effects ++ tickets (job ∷ queue))
          (conclude_job o job queue rounds w t (effects ++ new) rest)
  unfolding conclude_job
  conclude_job-Settles id answered job queue rounds w t effects new rest c own owns free settled =
      owing
        (ap (λ l. l ++ tickets queue) (finished-append effects new ∙ ap (◌++◌ (finished effects)) c)
          ∙ append_assoc (finished effects) (ticket job ∷ []) (tickets queue))
        settled
  conclude_job-Settles id (deferred keys) job queue rounds w t effects new rest c own owns free
        settled =
      owing (ap (λ l. l ++ tickets (job ∷ queue)) (finished_quiet effects new c))
        (park-Settles id job keys queue rounds w t (effects ++ new) own owns)
  conclude_job-Settles id unwinds job queue rounds w t effects new rest c own owns free settled =
      record {
        closes = rw free (
            append-nil (finished ((effects ++ new) ++ dropping (job ∷ queue)))
            ∙ finished-append (effects ++ new) (dropping (job ∷ queue))
            ∙ ap (λ l. l ++ finished (dropping {X = X} {I = I} (job ∷ queue)))
                (finished_quiet effects new c)
            ∙ ap (◌++◌ (finished effects)) (finished-dropping X I (job ∷ queue)));
        others = λ j ne. refl;
        owns = rw free tt;
      }

module _ {B E W Tx X I : Type 0} (evm : Evm B E Tx X I) where
  -- The loop over a session's queue closes its tickets in order, up to where it parks a job again.
  pub drain-Settles :
      (id now : ℕ) (queue : List (Job B E W Tx)) (rounds : ℕ) (blocking : Bool)
      (w : Worker B E W Tx) (t : Thread W) (effects : List (Effect B E W X I))
      → Owns id queue
      → get ℕ_discrete id w.blocked ≡ none
      → Settles id w.blocked
          (finished effects ++ tickets queue)
          (drain evm now queue rounds blocking w t effects)
  unfolding drain
  drain-Settles id now [] rounds blocking w t effects owns free = record {
    closes = rw free refl;
    others = λ j ne. refl;
    owns = rw free tt;
  }
  drain-Settles id now (job ∷ queue) rounds blocking w t effects owns free =
      let h = handle evm w.sessions w.count now job blocking t in
      let w' : Worker B E W Tx = record w { sessions = h.sessions; count = h.count } in
      conclude_job-Settles id h.outcome job queue rounds w' h.thread effects h.effects
        (drain evm now queue 0 false w' h.thread (effects ++ h.effects))
        (handle-Closes evm w.sessions w.count now job blocking t) owns.0 owns.1 free
        (drain-Settles id now queue 0 false w' h.thread (effects ++ h.effects) owns.1 free)
