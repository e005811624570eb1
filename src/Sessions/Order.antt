-- ===== src/Sessions/Order.antt =====
-- The order in which the jobs of one session are closed by `worker_loop`.
use mathlib.Core.List.{append-nil, append_assoc, map-append}
use mathlib.Core.Logic.{ite, if_pos, if_neg}
use forkyard.Base.{
  ℕ, List, [], ◌∷◌, ◌++◌, ◌≡◌, ◌≢◌, refl, ap, sym, ◌∙◌, inl, inr, Bool, Option, none, some,
  Option-cases, ℕ_discrete, false, ◌||◌, leb, All-append,
}
use forkyard.Base.Maps.{
  get, insert, remove, get-insert_self, get-insert_ne, get-remove_self, get-remove_ne,
}
use forkyard.Fetch.Speculation.{Thread}
use forkyard.Sessions.Jobs.{Job, session_id, ticket}
use forkyard.Sessions.Execute.{Evm}
use forkyard.Sessions.Worker.{
  Worker, Blocked, After, Event, receives, times_out, unblock, enqueue, admit, accept, turn,
  spawned, max_speculative_rounds,
}
use forkyard.Sessions.Accounts.{
  Settles, finished, pending, queue_of, tickets, Owns, owing, drain-Settles,
}

module _ {B E W Tx : Type 0} where
  -- Every queue holds jobs of its own session.
  abbrev pub Owned : Worker B E W Tx → Type 0
  Owned w = (id : ℕ) → Owns id (pending id w)

  -- The session that a job concerns.
  abbrev pub subject : Job B E W Tx → Option ℕ
  subject (Job.unblock id failed) = some id
  subject job = session_id job

  -- The tickets that a job brings.
  abbrev pub brings : Job B E W Tx → List ℕ
  brings (Job.unblock id failed) = []
  brings job = ticket job ∷ []

module _ {B E W Tx X I : Type 0} where
  -- The session's entry is taken out before its queue runs.
  after_removal :
      (id : ℕ) (w : Worker B E W Tx) (owed : List ℕ) (a : After B E W Tx X I)
      → Settles id (remove ℕ_discrete id w.blocked) owed a
      → Settles id w.blocked owed a
  after_removal id w owed a h = record {
    closes = h.closes;
    others = λ j ne. h.others j ne ∙ get-remove_ne ℕ_discrete id j w.blocked ne;
    owns = h.owns;
  }

module _ {B E W Tx X I : Type 0} (evm : Evm B E Tx X I) where
  admit-Settles :
      (now id : ℕ) (job : Job B E W Tx) (w : Worker B E W Tx) (t : Thread W)
      → session_id job ≡ some id
      → Owned w
      → Settles id w.blocked (tickets (pending id w) ++ ticket job ∷ []) (admit evm now job w t)
  unfolding admit
  admit-Settles now id job w t own owned = elim (Option-cases (get ℕ_discrete id w.blocked)) [
    | inl free ↦
        rw (own, admit, free, enqueue)
          (drain-Settles evm id now (job ∷ []) 0 false w t [] (own, tt) free)
    | inr (b, e) ↦
        rw (own, admit, e, enqueue)
          (let b' : Blocked B E W Tx = record b { queue = b.queue ++ job ∷ [] } in
            let here : get ℕ_discrete id (insert ℕ_discrete id b' w.blocked) ≡ some b' =
              get-insert_self ℕ_discrete id b' w.blocked in
            record {
              closes = rw here (map-append ticket b.queue (job ∷ []));
              others = λ j ne. get-insert_ne ℕ_discrete id j b' w.blocked ne;
              owns = rw here (
                  All-append (λ j. session_id j ≡ some id) b.queue (job ∷ []) (rw e at (owned id))
                    (own, tt));
            })
  ]

  unblock-Settles :
      (now id : ℕ) (failed : Bool) (w : Worker B E W Tx) (t : Thread W)
      → Owned w
      → Settles id w.blocked (tickets (pending id w)) (unblock evm now id failed w t)
  unfolding unblock
  unblock-Settles now id failed w t owned = elim (Option-cases (get ℕ_discrete id w.blocked)) [
    | inl e ↦
        rw (e, unblock) (record { closes = rw e refl; others = λ j ne. refl; owns = owned id })
    | inr (b, e) ↦
        let w' : Worker B E W Tx = record w { blocked = remove ℕ_discrete id w.blocked } in
        rw (e, unblock)
          (after_removal id w _ _ (
            drain-Settles evm id now b.queue b.rounds
              (failed || leb max_speculative_rounds b.rounds) w' t [] (rw e at (owned id))
              (get-remove_self ℕ_discrete id w.blocked)))
  ]

  -- Every event of a session closes tickets of that session alone, oldest first, and adds its own
  -- behind those that wait.
  accept-Settles :
      (now id : ℕ) (job : Job B E W Tx) (w : Worker B E W Tx) (t : Thread W)
      → subject job ≡ some id
      → Owned w
      → Settles id w.blocked (tickets (pending id w) ++ brings job) (accept evm now job w t)
  unfolding accept session_id
  accept-Settles now id (Job.unblock id' failed) w t h owned =
      let e : id' ≡ id = cc in
      owing (sym (append-nil (tickets (pending id w))))
        (rw e (unblock-Settles now id failed w t owned))
  accept-Settles now id job w t h owned = admit-Settles now id job w t h owned

module _ {B E W Tx : Type 0} where
  -- The session that an event concerns.
  abbrev pub concerns : Event B E W Tx → Option ℕ
  concerns (receives now job t) = subject job
  concerns (times_out now) = none

  abbrev pub arrives : Event B E W Tx → List ℕ
  arrives (receives now job t) = brings job
  arrives (times_out now) = []

-- A list, if it is the session's.
abbrev pub of_session : ℕ → Option ℕ → List ℕ → List ℕ
of_session id none l = []
of_session id (some j) l = ite (ℕ_discrete j id) l []

module _ {B E W Tx X I : Type 0} (evm : Evm B E Tx X I) (ttl : ℕ) where
  -- The worker after some events, in order.
  unfoldable pub turns : List (Event B E W Tx) → Worker B E W Tx → Worker B E W Tx
  turns [] w = w
  turns (event ∷ events) w = turns events (turn evm ttl event w).0

  -- The tickets that a session's events closed, in order.
  unfoldable pub closed_for : ℕ → List (Event B E W Tx) → Worker B E W Tx → List ℕ
  closed_for id [] w = []
  closed_for id (event ∷ events) w =
      let (w', effects) = turn evm ttl event w in
      of_session id (concerns event) (finished effects) ++ closed_for id events w'

-- The tickets of a session's jobs, in the order in which they arrive.
abbrev pub arrived_for : {B E W Tx : Type 0} → ℕ → List (Event B E W Tx) → List ℕ
arrived_for id [] = []
arrived_for id (event ∷ events) =
    of_session id (concerns event) (arrives event) ++ arrived_for id events

subject-ne-none : {B E W Tx : Type 0} (job : Job B E W Tx) → subject job ≢ none
unfolding session_id
subject-ne-none (Job.unblock id failed) = λ e. cc
subject-ne-none job = λ e. cc

module _ {B E W Tx X I : Type 0} (evm : Evm B E Tx X I) (ttl : ℕ) where
  abbrev Accounted : ℕ → Event B E W Tx → Worker B E W Tx → Type 0
  Accounted id event w =
      let (w', effects) = turn evm ttl event w in
      of_session id (concerns event) (finished effects) ++ tickets (pending id w')
      ≡ tickets (pending id w) ++ of_session id (concerns event) (arrives event)

  turn_Accounted :
      (id : ℕ) (event : Event B E W Tx) (w : Worker B E W Tx) → Owned w → Accounted id event w
  unfolding turn
  turn_Accounted id (times_out now) w owned = sym (append-nil (tickets (pending id w)))
  turn_Accounted id (receives now job t) w owned = elim (Option-cases (subject job)) [
    | inl e ↦ absurd (subject-ne-none job e)
    | inr (j, e) ↦
        let h = accept-Settles evm now j job w t e owned in
        elim (ℕ_discrete j id) [
          | yes p ↦
              rw (e, if_pos (ℕ_discrete j id) p, if_pos (ℕ_discrete j id) p)
                ((accept-Settles evm now id job w t (e ∙ ap some p) owned).closes)
          | no p ↦
              rw (e, if_neg (ℕ_discrete j id) p, if_neg (ℕ_discrete j id) p)
                (ap (λ o. tickets (queue_of o)) (h.others id (λ q. p (sym q)))
                  ∙ sym (append-nil (tickets (pending id w))))
        ]
  ]

  turn-Owned :
      (event : Event B E W Tx) (w : Worker B E W Tx) → Owned w → Owned (turn evm ttl event w).0
  unfolding turn
  turn-Owned (times_out now) w owned id = owned id
  turn-Owned (receives now job t) w owned id = elim (Option-cases (subject job)) [
    | inl e ↦ absurd (subject-ne-none job e)
    | inr (j, e) ↦
        let h = accept-Settles evm now j job w t e owned in
        elim (ℕ_discrete j id) [
          | yes p ↦ (accept-Settles evm now id job w t (e ∙ ap some p) owned).owns
          | no p ↦ rw (h.others id (λ q. p (sym q))) (owned id)
        ]
  ]

  closed_for-arrived_for :
      (id : ℕ) (events : List (Event B E W Tx)) (w : Worker B E W Tx)
      → Owned w
      → closed_for evm ttl id events w ++ tickets (pending id (turns evm ttl events w))
        ≡ tickets (pending id w) ++ arrived_for id events
  unfolding closed_for turns
  closed_for-arrived_for id [] w owned = sym (append-nil (tickets (pending id w)))
  closed_for-arrived_for id (event ∷ events) w owned =
      let w' = (turn evm ttl event w).0 in
      let now_closed = of_session id (concerns event) (finished (turn evm ttl event w).1) in
      append_assoc now_closed (closed_for evm ttl id events w')
        (tickets (pending id (turns evm ttl events w')))
      ∙ ap (◌++◌ now_closed) (closed_for-arrived_for id events w' (turn-Owned event w owned))
      ∙ sym (append_assoc now_closed (tickets (pending id w')) (arrived_for id events))
      ∙ ap (λ l. l ++ arrived_for id events) (turn_Accounted id event w owned)
      ∙ append_assoc (tickets (pending id w)) (of_session id (concerns event) (arrives event))
          (arrived_for id events)

  -- Whatever events a fresh worker sees, the jobs of a session are closed in the order in which they
  -- arrived, each once: the tickets closed so far, followed by the tickets that wait, are the tickets
  -- that arrived.
  pub closed_in_order :
      (id : ℕ) (events : List (Event B E W Tx))
      → closed_for evm ttl id events spawned ++ tickets (pending id (turns evm ttl events spawned))
        ≡ arrived_for id events
  unfolding spawned get
  closed_in_order id events = closed_for-arrived_for id events spawned (λ j. tt)
