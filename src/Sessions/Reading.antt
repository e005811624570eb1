-- ===== src/Sessions/Reading.antt =====
-- crates/session/src/lib.rs: what a job that reads does to its session.
use mathlib.Core.Path.{subst}
use forkyard.Base.{
  ℕ, List, [], ◌∷◌, Bool, true, false, Option, none, some, Option-cases, inl, inr, ok, err, ◌≡◌,
  refl, sym, ap, ◌∙◌, ℕ_discrete,
}
use forkyard.Base.Maps.{get, insert, get-insert_self}
use forkyard.Engine.Rollback.{undone}
use forkyard.Engine.Session.{Session, begin_speculation, end_speculation}
use forkyard.Fetch.Keys.{StateKey}
use forkyard.Fetch.Speculation.{Thread, speculate}
use forkyard.Sessions.Attempt.{Pass, done, missed, panicked, attempt, conclude}
use forkyard.Sessions.Execute.{
  Evm, Ran, execute, settle_execution, touch_and_transact, read_slot, read_account, code_of,
}
use forkyard.Sessions.Handle.{
  Sessions, Arm, reads, uses, registers, removes, unreachable, settle_read, serve, answering, arm,
  handle,
}
use forkyard.Sessions.Jobs.{Job, Reply, session_id, ticket}
use forkyard.Sessions.Keeping.{Keeps, same-Keeps, then-Keeps, run-Keeps}
use forkyard.Sessions.Program.{Program, run}
use forkyard.Sessions.Undo.{run-Kept, undone-begin_speculation}

module _ {B E S : Type 0} where
  begun-Keeps : (s : Session B E S) → Keeps s (begin_speculation s)
  unfolding begin_speculation
  begun-Keeps s = record {
    accounts = λ a info h. h;
    code = λ h c e. e;
    storage = λ a i v e. e;
    base = refl;
    inherited = refl;
    block_env = refl;
  }

  ended-Keeps : (s t : Session B E S) → Keeps s t → Keeps s (end_speculation t true)
  unfolding end_speculation
  ended-Keeps s t k = elim (Option-cases t.read_log) [
    | inl off ↦ rw (off, end_speculation) k
    | inr (log, on) ↦
        rw (on, end_speculation)
          (record {
            accounts = k.accounts;
            code = k.code;
            storage = k.storage;
            base = k.base;
            inherited = k.inherited;
            block_env = k.block_env;
          })
  ]

module _ {B E W R : Type 0} where
  conclude-Keeps :
      (s : Session B E (Thread W))
      (x : Option (R × List StateKey) × Session B E (Thread W) × Thread W)
      → undone x.1 ≡ s
      → Keeps s x.1
      → Keeps s (conclude x).1
  unfolding conclude
  conclude-Keeps s (none, s', t) back k = subst (Keeps s) (sym back) (same-Keeps s)
  conclude-Keeps s (some (r, []), s', t) back k = ended-Keeps s s' k
  conclude-Keeps s (some (r, key ∷ keys), s', t) back k = subst (Keeps s) (sym back) (same-Keeps s)

  attempt-Keeps :
      (s : Session B E (Thread W)) (blocking : Bool) (f : Program B E R) (t : Thread W)
      → s.read_log ≡ none
      → Keeps s (attempt s blocking f t).1
  unfolding attempt speculate begin_speculation
  attempt-Keeps s true f t h = run-Keeps f s t
  attempt-Keeps s false f t h =
      conclude-Keeps s (speculate (run f (begin_speculation s)) t)
        ((run-Kept f [] (begin_speculation s) (record t { misses = some [] }) refl).undoes
          ∙ undone-begin_speculation s h)
        (then-Keeps s (begin_speculation s) _ (begun-Keeps s)
          (run-Keeps f (begin_speculation s) (record t { misses = some [] })))

module _ {B E W X I : Type 0} where
  settle_execution-Keeps :
      (s : Session B E (Thread W)) (x : Pass (Ran B X I) × Session B E (Thread W) × Thread W)
      → Keeps s x.1
      → Keeps s (settle_execution false x).1
  unfolding settle_execution
  settle_execution-Keeps s (done (ok (result, changes)), s', t) k = k
  settle_execution-Keeps s (done (err e), s', t) k = k
  settle_execution-Keeps s (missed keys, s', t) k = k
  settle_execution-Keeps s (panicked, s', t) k = k

module _ {B E W X I A : Type 0} where
  answering-Keeps :
      (s : Session B E (Thread W)) (wrap : A → Reply B E W X I)
      (x : Pass A × Session B E (Thread W) × Thread W)
      → Keeps s x.1
      → Keeps s (answering wrap x).1
  unfolding answering
  answering-Keeps s wrap (done a, s', t) k = k
  answering-Keeps s wrap (missed keys, s', t) k = k
  answering-Keeps s wrap (panicked, s', t) k = k

-- A job that reads: `simulate` is one, with its checks or without, and so is a branch.
abbrev pub IsRead : {B E W Tx : Type 0} → Job B E W Tx → Type 0
IsRead (Job.simulate id tx disable_checks reply) = Unit
IsRead (Job.storage id address key reply) = Unit
IsRead (Job.code id address reply) = Unit
IsRead (Job.basic id address reply) = Unit
IsRead (Job.state id reply) = Unit
IsRead (Job.branch parent reply) = Unit
IsRead (Job.block_env_of id reply) = Unit
IsRead _ = ⊥

module _ {B E W : Type 0} where
  -- The session is there, and keeps what it had.
  abbrev pub Found : ℕ → Session B E (Thread W) → Sessions B E W → Type 0
  Found id s sessions =
      (s' : Session B E (Thread W)) × (touched : ℕ) × (get ℕ_discrete id sessions
        ≡ some (s', touched))
      × Keeps s s'

some_inj : (n m : ℕ) → some n ≡ some m → n ≡ m
some_inj n m h = cc

module _ {B E W X I : Type 0} (s : Session B E (Thread W)) where
  -- An arm that serves the session and keeps what it has.
  Gentle : ℕ → Arm B E W X I → Type 0
  Gentle id (reads own fail pass) = (own ≡ id) × ((t : Thread W) → Keeps s (pass s t).1)
  Gentle id (uses own fail use_it) = (own ≡ id) × ((use_it s).1 ≡ s)
  Gentle id _ = ⊥

  settle_read-Found :
      (sessions : Sessions B E W) (count now id reply : ℕ)
      (x : Pass (Reply B E W X I) × Session B E (Thread W) × Thread W)
      → Keeps s x.1
      → Found id s (settle_read sessions count now id reply x).sessions
  unfolding settle_read
  settle_read-Found sessions count now id reply (done a, s', t) k =
      (s', now, get-insert_self ℕ_discrete id (s', now) sessions, k)
  settle_read-Found sessions count now id reply (missed keys, s', t) k =
      (s', now, get-insert_self ℕ_discrete id (s', now) sessions, k)
  settle_read-Found sessions count now id reply (panicked, s', t) k =
      (s', now, get-insert_self ℕ_discrete id (s', now) sessions, k)

  serve-Found :
      (a : Arm B E W X I) (sessions : Sessions B E W) (count now reply id touched : ℕ)
      (t : Thread W)
      → Gentle id a
      → get ℕ_discrete id sessions ≡ some (s, touched)
      → Found id s (serve sessions count now reply a t).sessions
  unfolding serve Gentle
  serve-Found (reads own fail pass) sessions count now reply id touched t g here =
      let there : get ℕ_discrete own sessions ≡ some (s, touched) =
        ap (λ k. get ℕ_discrete k sessions) g.0 ∙ here in
      rw (there, serve)
        (subst (λ k. Found k s (settle_read sessions count now own reply (pass s t)).sessions) g.0
          (settle_read-Found sessions count now own reply (pass s t) (g.1 t)))
  serve-Found (uses own fail use_it) sessions count now reply id touched t g here =
      let there : get ℕ_discrete own sessions ≡ some (s, touched) =
        ap (λ k. get ℕ_discrete k sessions) g.0 ∙ here in
      let s' = (use_it s).1 in
      rw (there, serve)
        (
          s',
          now,
          ap (λ k. get ℕ_discrete k (insert ℕ_discrete own (s', now) sessions)) (sym g.0)
              ∙ get-insert_self ℕ_discrete own (s', now) sessions,
          subst (Keeps s) (sym g.1) (same-Keeps s),
        )
  serve-Found (registers own fresh answer) sessions count now reply id touched t g here = absurd g
  serve-Found (removes own) sessions count now reply id touched t g here = absurd g
  serve-Found unreachable sessions count now reply id touched t g here = absurd g

module _ {B E W Tx X I : Type 0} (evm : Evm B E Tx X I) (blocking : Bool)
    (s : Session B E (Thread W)) (quiet : s.read_log ≡ none) where
  arm-Gentle :
      (job : Job B E W Tx) (id : ℕ)
      → IsRead job
      → session_id job ≡ some id
      → Gentle {X = X} {I = I} s id (arm evm blocking job)
  unfolding arm session_id execute Gentle
  arm-Gentle (Job.simulate own tx disable_checks reply) id r e = (
    some_inj own id e,
    λ t.
        let p = touch_and_transact evm s.block_env tx disable_checks in
        answering-Keeps s Reply.executed (settle_execution false (attempt s blocking p t))
          (settle_execution-Keeps s (attempt s blocking p t) (attempt-Keeps s blocking p t quiet)),
  )
  arm-Gentle (Job.storage own address key reply) id r e = (
    some_inj own id e,
    λ t.
        let p = read_slot evm address key in
        answering-Keeps s Reply.slot_is (attempt s blocking p t)
          (attempt-Keeps s blocking p t quiet),
  )
  arm-Gentle (Job.code own address reply) id r e = (
    some_inj own id e,
    λ t.
        let p = code_of evm address in
        answering-Keeps s Reply.code_is (attempt s blocking p t)
          (attempt-Keeps s blocking p t quiet),
  )
  arm-Gentle (Job.basic own address reply) id r e = (
    some_inj own id e,
    λ t.
        let p = read_account evm address in
        answering-Keeps s Reply.account_is (attempt s blocking p t)
          (attempt-Keeps s blocking p t quiet),
  )
  arm-Gentle (Job.state own reply) id r e = (some_inj own id e, refl)
  arm-Gentle (Job.branch own reply) id r e = (some_inj own id e, refl)
  arm-Gentle (Job.block_env_of own reply) id r e = (some_inj own id e, refl)
  arm-Gentle _ id r e = absurd r

  -- Where a session is in no other pass, a job that reads, speculatively or blocking, whether it is
  -- answered, misses keys or panics, leaves the session in the registry, with every account, code
  -- and slot that its overlay has, and with its base, what it inherited and its block as they were.
  pub handle-Keeps :
      (job : Job B E W Tx) (sessions : Sessions B E W) (count now id touched : ℕ) (t : Thread W)
      → IsRead job
      → session_id job ≡ some id
      → get ℕ_discrete id sessions ≡ some (s, touched)
      → Found id s (handle evm sessions count now job blocking t).sessions
  unfolding handle
  handle-Keeps job sessions count now id touched t r e here =
      serve-Found s (arm evm blocking job) sessions count now (ticket job) id touched t
        (arm-Gentle job id r e) here
