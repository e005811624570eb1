-- ===== src/Sessions/Handle.antt =====
-- crates/session/src/lib.rs, `Worker::handle` and `handle_job`: what one job does to the
-- sessions of its worker, and what it is answered.
use forkyard.Base.{
  ℕ, ◌^◌, List, [], ◌∷◌, Bool, true, false, Option, none, some, Result, ok, err, ltb, if◌then◌else◌,
  length, ℕ_discrete,
}
use forkyard.Base.Maps
use forkyard.Engine.Types.{BlockEnv, DatabaseRef}
use forkyard.Engine.Snapshot.{BaseSnapshot}
use forkyard.Engine.Session
use forkyard.Engine.Session.{Session}
use forkyard.Engine.State
use forkyard.Engine.State.{SessionState}
use forkyard.Fetch.Keys.{StateKey}
use forkyard.Fetch.Speculation.{Thread}
use forkyard.Sessions.Attempt.{Pass, done, missed, panicked, attempt}
use forkyard.Sessions.Jobs.{Job, Reply, SessionError, ticket}
use forkyard.Sessions.Execute.{Evm, execute, code_of, read_slot, read_account}

-- A session with the time it was last touched.
abbrev pub Sessions : Type 0 → Type 0 → Type 0 → Type 0
Sessions B E W = List (ℕ × (Session B E (Thread W) × ℕ))

-- What a worker does to the outside: it answers a ticket, it drops a ticket's sender unanswered
-- (its caller then sees `WorkerGone`), or it has keys resolved, on another thread, for a session.
pub data Effect (B E W X I : Type 0) : Type 0 where
  replied : ℕ → Reply B E W X I → Effect B E W X I
  dropped : ℕ → Effect B E W X I
  resolving : ℕ → List StateKey → Effect B E W X I

-- `Outcome`, or a panic that unwinds to the worker loop.
pub data Outcome : Type 0 where
  answered : Outcome
  deferred : List StateKey → Outcome
  unwinds : Outcome

-- The outcome of one job, with the sessions, the count, the thread and the reply after it.
pub record Handled (B E W X I : Type 0) : Type 0 where
  pub outcome : Outcome
  pub sessions : Sessions B E W
  pub count : ℕ
  pub thread : Thread W
  pub effects : List (Effect B E W X I)

-- How a job is served: `serve` does what the arms of the two matches have in common. `reads` runs a
-- pass against a session; `uses` touches a session without reading upstream state; both answer an
-- error for a session that is not there.
pub data Arm (B E W X I : Type 0) : Type 0 where
  reads :
      ℕ
      → (SessionError I → Reply B E W X I)
      → (Session B E (Thread W)
          → Thread W
          → Pass (Reply B E W X I) × Session B E (Thread W) × Thread W)
      → Arm B E W X I
  uses :
      ℕ
      → (SessionError I → Reply B E W X I)
      → (Session B E (Thread W) → Reply B E W X I × Session B E (Thread W))
      → Arm B E W X I
  registers : ℕ → Session B E (Thread W) → Reply B E W X I → Arm B E W X I
  removes : ℕ → Arm B E W X I
  unreachable : Arm B E W X I

module _ {B E W X I : Type 0} where
  -- What is left of a pass: its answer, its missing keys, or its panic.
  unfoldable pub settle_read :
      Sessions B E W
      → ℕ
      → ℕ
      → ℕ
      → ℕ
      → Pass (Reply B E W X I) × Session B E (Thread W) × Thread W
      → Handled B E W X I
  settle_read sessions count now id reply (done answer, s, t) = record {
    outcome = answered;
    sessions = Maps.insert ℕ_discrete id (s, now) sessions;
    count = count;
    thread = t;
    effects = replied reply answer ∷ [];
  }
  settle_read sessions count now id reply (missed keys, s, t) = record {
    outcome = deferred keys;
    sessions = Maps.insert ℕ_discrete id (s, now) sessions;
    count = count;
    thread = t;
    effects = [];
  }
  settle_read sessions count now id reply (panicked, s, t) = record {
    outcome = unwinds;
    sessions = Maps.insert ℕ_discrete id (s, now) sessions;
    count = count;
    thread = t;
    effects = [];
  }

  abbrev pub answers : Sessions B E W → ℕ → Thread W → ℕ → Reply B E W X I → Handled B E W X I
  answers sessions count t reply answer = record {
    outcome = answered;
    sessions = sessions;
    count = count;
    thread = t;
    effects = replied reply answer ∷ [];
  }

  unfoldable pub serve : Sessions B E W → ℕ → ℕ → ℕ → Arm B E W X I → Thread W → Handled B E W X I
  unfolding settle_read
  serve sessions count now reply (reads id fail pass) t = elim (Maps.get ℕ_discrete id sessions) [
    | none ↦ answers sessions count t reply (fail (SessionError.unknown id))
    | some (s, touched) ↦ settle_read sessions count now id reply (pass s t)
  ]
  serve sessions count now reply (uses id fail use_it) t = elim (Maps.get ℕ_discrete id sessions) [
    | none ↦ answers sessions count t reply (fail (SessionError.unknown id))
    | some (s, touched) ↦
        let (answer, s') = use_it s in
        answers (Maps.insert ℕ_discrete id (s', now) sessions) count t reply answer
  ]
  serve sessions count now reply (registers id s answer) t =
      let sessions' = Maps.insert ℕ_discrete id (s, now) sessions in
      answers sessions' (length sessions') t reply answer
  serve sessions count now reply (removes id) t =
      let sessions' = Maps.remove ℕ_discrete id sessions in
      answers sessions' (length sessions') t reply Reply.discarded
  serve sessions count now reply unreachable t = record {
    outcome = unwinds;
    sessions = sessions;
    count = count;
    thread = t;
    effects = [];
  }

module _ {B E W X I A : Type 0} where
  -- The result of a pass as the reply that is sent.
  unfoldable pub answering :
      (A → Reply B E W X I)
      → Pass A × Session B E (Thread W) × Thread W
      → Pass (Reply B E W X I) × Session B E (Thread W) × Thread W
  answering answer (done result, s, t) = (done (answer result), s, t)
  answering answer (missed keys, s, t) = (missed keys, s, t)
  answering answer (panicked, s, t) = (panicked, s, t)

module _ {B E W X I A : Type 0} where
  -- The arm of a job whose answer `wrap` carries a result.
  abbrev pub reads_result :
      ℕ
      → (Result (SessionError I) A → Reply B E W X I)
      → (Session B E (Thread W)
          → Thread W
          → Pass (Result (SessionError I) A) × Session B E (Thread W) × Thread W)
      → Arm B E W X I
  reads_result id wrap pass = reads id (λ e. wrap (err e)) (λ s t. answering wrap (pass s t))

  abbrev pub uses_result :
      ℕ
      → (Result (SessionError I) A → Reply B E W X I)
      → (Session B E (Thread W) → Result (SessionError I) A × Session B E (Thread W))
      → Arm B E W X I
  uses_result id wrap use_it = uses id (λ e. wrap (err e)) (λ s. (wrap (use_it s).0, (use_it s).1))

module _ {B E W : Type 0} where
  -- The session that a `Fork` job opens.
  unfoldable pub open_session :
      BaseSnapshot B
      → DatabaseRef B E (Thread W)
      → BlockEnv
      → Option (SessionState B)
      → Session B E (Thread W)
  open_session base fallback block_env (some state) = State.restore base fallback block_env state
  open_session base fallback block_env none = Session.fork base fallback block_env

  -- `u64::try_from` of the block's number, beside the state.
  unfoldable pub state_of :
      {I : Type 0} → Session B E (Thread W) → Result (SessionError I) (SessionState B × ℕ)
  state_of s =
      if ltb s.block_env.number (2 ^ 64)
      then ok (State.state s, s.block_env.number)
      else err (SessionError.execution "block number does not fit a u64")

module _ {B E W Tx X I : Type 0} (evm : Evm B E Tx X I) where
  -- `Worker::handle` and `handle_job`. `Unblock` is unreachable there, which is a panic.
  unfoldable pub arm : Bool → Job B E W Tx → Arm B E W X I
  unfolding open_session state_of answering
  arm blocking (Job.simulate id tx disable_checks reply) =
      reads_result id Reply.executed (λ s t. execute evm s tx false disable_checks blocking t)
  arm blocking (Job.advance id tx reply) =
      reads_result id Reply.executed (λ s t. execute evm s tx true false blocking t)
  arm blocking (Job.storage id address key reply) =
      reads_result id Reply.slot_is (λ s t. attempt s blocking (read_slot evm address key) t)
  arm blocking (Job.code id address reply) =
      reads_result id Reply.code_is (λ s t. attempt s blocking (code_of evm address) t)
  arm blocking (Job.basic id address reply) =
      reads_result id Reply.account_is (λ s t. attempt s blocking (read_account evm address) t)
  arm blocking (Job.fork id base fallback block_env seed reply) =
      registers id (open_session base fallback block_env seed) Reply.forked
  arm blocking (Job.state id reply) = uses_result id Reply.state_is (λ s. (state_of s, s))
  arm blocking (Job.branch parent reply) =
      uses_result parent Reply.branched (λ s. (ok (Session.branch s), s))
  arm blocking (Job.adopt id s reply) = registers id s Reply.adopted
  arm blocking (Job.discard id reply) = removes id
  arm blocking (Job.block_env_of id reply) =
      uses_result id Reply.block_env_is (λ s. (ok s.block_env, s))
  arm blocking (Job.set_account id address info reply) =
      uses_result id Reply.written (λ s. (ok tt, Session.set_account address info s))
  arm blocking (Job.set_storage id address key value reply) =
      uses_result id Reply.written (λ s. (ok tt, Session.set_storage address key value s))
  arm blocking (Job.unblock id failed) = unreachable

  unfoldable pub handle :
      Sessions B E W → ℕ → ℕ → Job B E W Tx → Bool → Thread W → Handled B E W X I
  unfolding serve arm ticket
  handle sessions count now job blocking t =
      serve sessions count now (ticket job) (arm blocking job) t
