-- ===== src/Sessions/Progress.antt =====
-- Jobs that are run blocking, in `attempt`, `execute` and `Worker::handle`.
use forkyard.Base.{
  ℕ, List, ◌≢◌, refl, inl, inr, Bool, true, false, Option, none, some, Option-cases, ℕ_discrete, ok,
  err,
}
use forkyard.Base.Maps.{get}
use forkyard.Engine.Session.{Session}
use forkyard.Fetch.Keys.{StateKey}
use forkyard.Fetch.Speculation.{Thread}
use forkyard.Sessions.Program.{Program, run}
use forkyard.Sessions.Attempt.{Pass, done, missed, panicked, settle, attempt}
use forkyard.Sessions.Jobs.{Job, Reply, ticket}
use forkyard.Sessions.Execute.{Evm, Ran, settle_execution, execute}
use forkyard.Sessions.Handle.{
  Sessions, deferred, handle, Arm, reads, uses, registers, removes, unreachable, arm, serve,
  settle_read, answering,
}

-- The pass waits for its reads, so nothing is missing when it ends.
abbrev Decisive : {A : Type 0} → Pass A → Type 0
Decisive p = (keys : List StateKey) → p ≢ missed keys

module _ {B E W R : Type 0} where
  attempt-Decisive :
      (s : Session B E (Thread W)) (f : Program B E R) (t : Thread W)
      → Decisive (attempt s true f t).0
  unfolding attempt
  attempt-Decisive s f t keys = settled (run f s t).0
    where
      settled : (o : Option R) → settle o ≢ missed keys
      settled none = λ e. cc
      settled (some r) = λ e. cc

module _ {B E W X I A : Type 0} where
  answering-Decisive :
      (wrap : A → Reply B E W X I) (x : Pass A × Session B E (Thread W) × Thread W)
      → Decisive x.0
      → Decisive (answering wrap x).0
  unfolding answering
  answering-Decisive wrap (done r, s, t) d keys = λ e. cc
  answering-Decisive wrap (missed ks, s, t) d keys = λ e. d ks refl
  answering-Decisive wrap (panicked, s, t) d keys = λ e. cc

module _ {B E W X I : Type 0} where
  settle_execution-Decisive :
      (commits : Bool) (x : Pass (Ran B X I) × Session B E (Thread W) × Thread W)
      → Decisive x.0
      → Decisive (settle_execution commits x).0
  unfolding settle_execution
  settle_execution-Decisive commits (done (ok (r, c)), s, t) d keys = λ e. cc
  settle_execution-Decisive commits (done (err x), s, t) d keys = λ e. cc
  settle_execution-Decisive commits (missed ks, s, t) d keys = λ e. d ks refl
  settle_execution-Decisive commits (panicked, s, t) d keys = λ e. cc

  abbrev ArmDecisive : Arm B E W X I → Type 0
  ArmDecisive (reads id fail pass) =
      (s : Session B E (Thread W)) (t : Thread W) → Decisive (pass s t).0
  ArmDecisive a = Unit {0}

  serve-ne-deferred :
      (sessions : Sessions B E W) (count now reply : ℕ) (a : Arm B E W X I) (t : Thread W)
      (keys : List StateKey)
      → ArmDecisive a
      → (serve sessions count now reply a t).outcome ≢ deferred keys
  unfolding serve
  serve-ne-deferred sessions count now reply (reads id fail pass) t keys d =
      elim (Option-cases (get ℕ_discrete id sessions)) [
        | inl e ↦ rw (e, serve) (λ h. cc)
        | inr ((s, touched), e) ↦ rw (e, serve) (settled (pass s t) (d s t))
      ]
    where
      settled :
          (x : Pass (Reply B E W X I) × Session B E (Thread W) × Thread W)
          → Decisive x.0
          → (settle_read sessions count now id reply x).outcome ≢ deferred keys
      settled (done answer, s, u) d' = λ e. cc
      settled (missed ks, s, u) d' = absurd (d' ks refl)
      settled (panicked, s, u) d' = λ e. cc
  serve-ne-deferred sessions count now reply (uses id fail use_it) t keys d =
      elim (Option-cases (get ℕ_discrete id sessions)) [
        | inl e ↦ rw (e, serve) (λ h. cc)
        | inr ((s, touched), e) ↦ rw (e, serve) (λ h. cc)
      ]
  serve-ne-deferred sessions count now reply (registers id s answer) t keys d = λ e. cc
  serve-ne-deferred sessions count now reply (removes id) t keys d = λ e. cc
  serve-ne-deferred sessions count now reply unreachable t keys d = λ e. cc

module _ {B E W Tx X I : Type 0} (evm : Evm B E Tx X I) where
  execute-Decisive :
      (s : Session B E (Thread W)) (tx : Tx) (commits checks : Bool) (t : Thread W)
      → Decisive (execute evm s tx commits checks true t).0
  unfolding execute
  execute-Decisive s tx commits checks t =
      settle_execution-Decisive commits _ (attempt-Decisive s _ t)

  arm-Decisive : (job : Job B E W Tx) → ArmDecisive {W = W} (arm evm true job)
  unfolding arm
  arm-Decisive (Job.simulate id tx checks reply) =
      λ s t. answering-Decisive _ _ (execute-Decisive s tx false checks t)
  arm-Decisive (Job.advance id tx reply) =
      λ s t. answering-Decisive _ _ (execute-Decisive s tx true false t)
  arm-Decisive (Job.storage id a k reply) = λ s t. answering-Decisive _ _ (attempt-Decisive s _ t)
  arm-Decisive (Job.code id a reply) = λ s t. answering-Decisive _ _ (attempt-Decisive s _ t)
  arm-Decisive (Job.basic id a reply) = λ s t. answering-Decisive _ _ (attempt-Decisive s _ t)
  arm-Decisive job = tt

  -- A job that is run blocking is answered or panics: it never waits.
  pub handle-ne-deferred :
      (sessions : Sessions B E W) (count now : ℕ) (job : Job B E W Tx) (t : Thread W)
      (keys : List StateKey)
      → (handle evm sessions count now job true t).outcome ≢ deferred keys
  unfolding handle
  handle-ne-deferred sessions count now job t keys =
      serve-ne-deferred sessions count now (ticket job) (arm evm true job) t keys (arm-Decisive job)
