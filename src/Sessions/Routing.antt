-- ===== src/Sessions/Routing.antt =====
-- Where the calls of `SessionManager` in crates/session/src/lib.rs send their jobs.
use Prim.Native.String.{String}
use forkyard.Base.{
  ℕ, Bool, true, false, inl, inr, ◌≡◌, refl, ◌&&◌, ◌==◌, ◌^◌, ltb, Option, none, some, Option-cases,
  Result, ok, err, if◌then◌else◌,
}
use forkyard.Engine.Types.{BlockEnv, DatabaseRef}
use forkyard.Engine.Snapshot.{BaseSnapshot}
use forkyard.Engine.Session.{Session}
use forkyard.Engine.State.{SessionState}
use forkyard.Engine.SnapshotStore.{SnapshotInfo}
use forkyard.Fetch.Speculation.{Thread}
use forkyard.Sessions.Jobs.{Reply, SessionError, session_id, ticket}
use forkyard.Sessions.Calls
use forkyard.Sessions.Calls.{
  Call, returns, reads, writes, allocates, pins, initializes, sends, stores, loads, PinnedBlock,
  StoreHandle, and_then, Answer, acknowledged, register, fork_seeded, opened_at,
  fork_at_block_seeded, restore, SessionManager,
}
use forkyard.Sessions.Manager
use forkyard.Sessions.Requests.{
  Request, perform, fork, fork_at_block, fork_from, restore_at, resume, snapshot, session_state,
  session_block_env, basic, set_account, set_storage, storage, code, simulate, advance, call,
  estimate_gas, discard,
}
use forkyard.Sessions.Manager.{adopted, stored, resumed, with_store, as_session}

module _ {B E W Tx X I A : Type 0} where
  -- Each job that is sent for a session is about that session, and is answered on its own channel,
  -- whatever comes in between.
  unfoldable pub Routed : Call B E W Tx X I A → Type 0
  Routed (returns a) = Unit
  Routed (reads k) = (m : SessionManager B E W) → Routed (k m)
  Routed (writes change c) = Routed c
  Routed (allocates k) = (id : ℕ) → Routed (k id)
  Routed (pins n k) = (cell : ℕ) → Routed (k cell)
  Routed (initializes cell n k) = (r : Result String (PinnedBlock B E W)) → Routed (k r)
  Routed (sends id job k) =
      ((reply : ℕ) → (session_id (job reply) ≡ some id) × (ticket (job reply) ≡ reply))
      × ((r : Option (Reply B E W X I)) → Routed (k r))
  Routed (stores store n state k) = (r : Result String SnapshotInfo) → Routed (k r)
  Routed (loads store id k) = (r : Result String (ℕ × SessionState B)) → Routed (k r)

module _ {B E W Tx X I A C : Type 0} where
  and_then-Routed :
      (c : Call B E W Tx X I A) (f : A → Call B E W Tx X I C)
      → Routed c
      → ((a : A) → Routed (f a))
      → Routed (and_then c f)
  unfolding Routed and_then
  and_then-Routed (returns a) f h g = g a
  and_then-Routed (reads k) f h g = λ m. and_then-Routed (k m) f (h m) g
  and_then-Routed (writes change c) f h g = and_then-Routed c f h g
  and_then-Routed (allocates k) f h g = λ id. and_then-Routed (k id) f (h id) g
  and_then-Routed (pins n k) f h g = λ cell. and_then-Routed (k cell) f (h cell) g
  and_then-Routed (initializes cell n k) f h g = λ r. and_then-Routed (k r) f (h r) g
  and_then-Routed (sends id job k) f h g = (h.0, λ r. and_then-Routed (k r) f (h.1 r) g)
  and_then-Routed (stores store n state k) f h g = λ r. and_then-Routed (k r) f (h r) g
  and_then-Routed (loads store id k) f h g = λ r. and_then-Routed (k r) f (h r) g

module _ (B E W Tx X I : Type 0) where
  acknowledged-Routed :
      {A : Type 0} (a : A) (r : Option (Reply B E W X I)) → Routed (acknowledged B E W Tx X I a r)
  unfolding Routed acknowledged
  acknowledged-Routed a none = tt
  acknowledged-Routed a (some reply) = tt

  register-Routed :
      (base : BaseSnapshot B) (fallback : DatabaseRef B E (Thread W)) (block_env : BlockEnv)
      (seed : Option (SessionState B))
      → Routed (register B E W Tx X I base fallback block_env seed)
  unfolding Routed register session_id ticket
  register-Routed base fallback block_env seed =
      λ id. ((λ reply. (refl, refl)), acknowledged-Routed id)

  fork_seeded-Routed : (seed : Option (SessionState B)) → Routed (fork_seeded B E W Tx X I seed)
  unfolding Routed fork_seeded
  fork_seeded-Routed seed = λ m1 m2 m3. register-Routed m1.base m2.fallback m3.block_env seed

  opened_at-Routed :
      (n : ℕ) (seed : Option (SessionState B)) (r : Result String (PinnedBlock B E W))
      → Routed (opened_at B E W Tx X I n seed r)
  unfolding Routed opened_at
  opened_at-Routed n seed (ok p) = register-Routed p.base p.fallback p.block_env seed
  opened_at-Routed n seed (err reason) = tt

  -- Both outcomes of a test.
  if-Routed :
      {A : Type 0} (b : Bool) (c d : Call B E W Tx X I A)
      → Routed c
      → Routed d
      → Routed (if b then c else d)
  if-Routed true c d h g = h
  if-Routed false c d h g = g

  fork_at_block_seeded-Routed :
      (n : ℕ) (seed : Option (SessionState B)) → Routed (fork_at_block_seeded B E W Tx X I n seed)
  unfolding Routed fork_at_block_seeded
  fork_at_block_seeded-Routed n seed =
      λ cell m. if-Routed m.block_forks _ _ (opened_at-Routed n seed) tt

  restore-Routed : (n : ℕ) (state : SessionState B) → Routed (restore B E W Tx X I n state)
  unfolding Routed restore
  restore-Routed n state = λ m.
      if-Routed (ltb m.block_env.number (2 ^ 64) && (m.block_env.number == n)) _ _
        (fork_seeded-Routed (some state)) (fork_at_block_seeded-Routed n (some state))

  adopted-Routed :
      (r : Result (SessionError I) (Session B E (Thread W))) → Routed (adopted B E W Tx X I r)
  unfolding Routed adopted session_id ticket
  adopted-Routed (err e) = tt
  adopted-Routed (ok session) = λ id. ((λ reply. (refl, refl)), acknowledged-Routed id)

  stored-Routed :
      (store : StoreHandle) (r : Result (SessionError I) (ℕ × SessionState B))
      → Routed (stored B E W Tx X I store r)
  unfolding Routed stored
  stored-Routed store (ok (number, state)) = λ r. tt
  stored-Routed store (err e) = tt

  resumed-Routed : (r : Result String (ℕ × SessionState B)) → Routed (resumed B E W Tx X I r)
  unfolding Routed resumed
  resumed-Routed (ok (number, state)) = restore-Routed number state
  resumed-Routed (err e) = tt

  with_store-Routed :
      {A : Type 0} (use_it : StoreHandle → Answer B E W Tx X I A)
      → ((store : StoreHandle) → Routed (use_it store))
      → Routed (with_store B E W Tx X I use_it)
  unfolding Routed with_store
  with_store-Routed use_it h =
      λ m. elim (Option-cases m.snapshots) [ inl e ↦ rw e tt | inr (store, e) ↦ rw e (h store) ]

  dispatch-Routed :
      (id : ℕ) (tx : Tx) (commit disable_checks : Bool)
      → Routed (Manager.dispatch B E W Tx X I id tx commit disable_checks)
  unfolding Routed Manager.dispatch session_id ticket
  dispatch-Routed id tx true disable_checks = ((λ reply. (refl, refl)), λ r. tt)
  dispatch-Routed id tx false disable_checks = ((λ reply. (refl, refl)), λ r. tt)

  snapshot-Routed : (id : ℕ) → Routed (Manager.snapshot B E W Tx X I id)
  unfolding Routed Manager.snapshot Manager.session_state session_id ticket
  snapshot-Routed id =
      with_store-Routed
        (λ store. and_then (Manager.session_state B E W Tx X I id) (stored B E W Tx X I store))
        (λ store.
          and_then-Routed (Manager.session_state B E W Tx X I id) (stored B E W Tx X I store)
            ((λ reply. (refl, refl)), λ r. tt) (stored-Routed store))

  -- Whatever is called on the manager, and whatever the rest of the system answers in between, each
  -- job goes to the worker of the session that the job is about, with its reply channel in it.
  pub perform-Routed : (r : Request B Tx) → Routed (perform B E W Tx X I r)
  unfolding Routed perform session_id ticket Calls.fork Calls.fork_at_block Manager.fork_from
      Manager.resume Manager.session_state Manager.session_block_env Manager.basic
      Manager.set_account Manager.set_storage Manager.storage Manager.code Manager.simulate
      Manager.advance Manager.call Manager.estimate_gas Manager.discard
  perform-Routed fork = fork_seeded-Routed none
  perform-Routed (fork_at_block n) = fork_at_block_seeded-Routed n none
  perform-Routed (fork_from parent) = ((λ reply. (refl, refl)), λ r. adopted-Routed (as_session r))
  perform-Routed (restore_at n state) = restore-Routed n state
  perform-Routed (resume id) = with_store-Routed _ (λ store r. resumed-Routed r)
  perform-Routed (snapshot id) = snapshot-Routed id
  perform-Routed (session_state id) = ((λ reply. (refl, refl)), λ r. tt)
  perform-Routed (session_block_env id) = ((λ reply. (refl, refl)), λ r. tt)
  perform-Routed (basic id address) = ((λ reply. (refl, refl)), λ r. tt)
  perform-Routed (set_account id address info) = ((λ reply. (refl, refl)), λ r. tt)
  perform-Routed (set_storage id address key value) = ((λ reply. (refl, refl)), λ r. tt)
  perform-Routed (storage id address key) = ((λ reply. (refl, refl)), λ r. tt)
  perform-Routed (code id address) = ((λ reply. (refl, refl)), λ r. tt)
  perform-Routed (simulate id tx) = dispatch-Routed id tx false false
  perform-Routed (advance id tx) = dispatch-Routed id tx true false
  perform-Routed (call id tx) = dispatch-Routed id tx false true
  perform-Routed (estimate_gas id tx) = dispatch-Routed id tx false true
  perform-Routed (discard id) = ((λ reply. (refl, refl)), acknowledged-Routed tt)
