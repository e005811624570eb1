-- ===== src/Sessions/Clean.antt =====
-- Whole programs: a clean speculative pass against a blocking one.
use mathlib.Core.List.{append_assoc}
use forkyard.Base.{
  ℕ, List, [], ◌∷◌, ◌++◌, ◌≡◌, refl, ap, sym, ◌∙◌, ◌⊎◌, inl, inr, true, false, Option, none, some,
  arith, Option-cases, Result, ok, err,
}
use forkyard.Engine.Types.{AccountInfo}
use forkyard.Engine.Session.{Session, ReadKey, log_read, begin_speculation, end_speculation}
use forkyard.Engine.Database
use forkyard.Engine.Database.{receive_account, receive_code, receive_slot}
use forkyard.Fetch.Keys.{StateKey, sort, dedup, dedup-sort-ne-nil}
use forkyard.Fetch.Speculation.{Thread, speculate, with_misses, recorded, restore}
use forkyard.Fetch.Placeholders.{waiting, IsHonest}
use forkyard.Sessions.Program.{
  Program, returns, panics, reads_account, reads_code, reads_slot, reads_hash, run,
}
use forkyard.Sessions.Agreement.{
  closed, Agrees, basic-Agrees, code_by_hash-Agrees, storage-Agrees, block_hash-Agrees,
}
use forkyard.Sessions.Attempt.{Pass, done, settle, conclude, attempt}

module _ {B E S : Type 0} where
  fallback-log_read : (key : ReadKey) (s : Session B E S) → (log_read key s).fallback ≡ s.fallback
  unfolding log_read
  fallback-log_read key s = ground arith

  fallback-receive_account :
      (address : ℕ) (s : Session B E S) (x : Result E (Option (AccountInfo B)) × S)
      → (receive_account address s x).1.fallback ≡ s.fallback
  unfolding receive_account
  fallback-receive_account address s (ok (some info), w) = fallback-log_read _ _
  fallback-receive_account address s (ok none, w) = refl
  fallback-receive_account address s (err e, w) = refl

  fallback-receive_code :
      (hash : ℕ) (s : Session B E S) (x : Result E B × S)
      → (receive_code hash s x).1.fallback ≡ s.fallback
  unfolding receive_code
  fallback-receive_code hash s (ok code, w) = fallback-log_read _ _
  fallback-receive_code hash s (err e, w) = refl

  fallback-receive_slot :
      (address index : ℕ) (s : Session B E S) (x : Result E ℕ × S)
      → (receive_slot address index s x).1.fallback ≡ s.fallback
  unfolding receive_slot
  fallback-receive_slot address index s (ok value, w) = fallback-log_read _ _
  fallback-receive_slot address index s (err e, w) = refl

  fallback-basic :
      (address : ℕ) (s : Session B E S) (w : S)
      → (Database.basic address s w).1.fallback ≡ s.fallback
  unfolding Database.basic
  fallback-basic address s w =
      ground (arith, fallback-receive_account address s (s.fallback.basic_ref address w))

  fallback-code_by_hash :
      (hash : ℕ) (s : Session B E S) (w : S)
      → (Database.code_by_hash hash s w).1.fallback ≡ s.fallback
  unfolding Database.code_by_hash
  fallback-code_by_hash hash s w =
      ground (arith, fallback-receive_code hash s (s.fallback.code_by_hash_ref hash w))

  fallback-storage :
      (address index : ℕ) (s : Session B E S) (w : S)
      → (Database.storage address index s w).1.fallback ≡ s.fallback
  unfolding Database.storage
  fallback-storage address index s w =
      ground (arith, fallback-receive_slot address index s (s.fallback.storage_ref address index w))

  fallback-block_hash :
      (number : ℕ) (s : Session B E S) (w : S)
      → (Database.block_hash number s w).1.fallback ≡ s.fallback
  unfolding Database.block_hash
  fallback-block_hash number s w = ground arith

module _ {B E W R : Type 0} where
  -- The outcome `x` of a speculating program against the outcome `y` of the same program, waiting.
  abbrev Follows :
      List StateKey
      → Option R × Session B E (Thread W) × Thread W
      → Option R × Session B E (Thread W) × Thread W
      → Type 0
  Follows keys x y =
      ((key : StateKey) × (more : List StateKey) × (x.2.misses ≡ some (keys ++ key ∷ more)))
      ⊎ ((x.2.misses ≡ some keys) × (y ≡ (x.0, closed x.1, waiting x.2)))

module _ {B E W R A : Type 0} where
  -- One step, and then what the program makes of its result.
  step_Follows :
      (keys : List StateKey) (k : A → Program B E R) (x y : A × Session B E (Thread W) × Thread W)
      → Agrees keys x y
      → ((keys' : List StateKey)
          → x.2.misses ≡ some keys'
          → Follows keys' (run (k x.0) x.1 x.2) (run (k x.0) (closed x.1) (waiting x.2)))
      → Follows keys (run (k x.0) x.1 x.2) (run (k y.0) y.1 y.2)
  step_Follows keys k x y (inl (key, e)) rest = elim (rest (keys ++ key ∷ []) e) [
    | inl (key', more, e') ↦
        inl (key, key' ∷ more, e' ∙ ap some (append_assoc keys (key ∷ []) (key' ∷ more)))
    | inr (e', q) ↦ inl (key, [], e')
  ]
  step_Follows keys k x y (inr (e, q)) rest = rw q (rest keys e)

module _ {B E W R : Type 0} where
  run-Follows :
      (p : Program B E R) (s : Session B E (Thread W)) (t : Thread W) (keys : List StateKey)
      → IsHonest s.fallback
      → t.misses ≡ some keys
      → Follows keys (run p s t) (run p (closed s) (waiting t))
  unfolding run
  run-Follows (returns r) s t keys honest h = inr (h, refl)
  run-Follows panics s t keys honest h = inr (h, refl)
  run-Follows (reads_account a k) s t keys honest h =
      step_Follows keys k (Database.basic a s t) (Database.basic a (closed s) (waiting t))
        (basic-Agrees s honest t keys h a)
        (λ keys' e.
          run-Follows (k (Database.basic a s t).0) (Database.basic a s t).1 (Database.basic a s t).2
            keys' (rw (fallback-basic a s t) honest) e)
  run-Follows (reads_code c k) s t keys honest h =
      step_Follows keys k (Database.code_by_hash c s t)
        (Database.code_by_hash c (closed s) (waiting t)) (code_by_hash-Agrees s honest t keys h c)
        (λ keys' e.
          run-Follows (k (Database.code_by_hash c s t).0) (Database.code_by_hash c s t).1
            (Database.code_by_hash c s t).2 keys' (rw (fallback-code_by_hash c s t) honest) e)
  run-Follows (reads_slot a i k) s t keys honest h =
      step_Follows keys k (Database.storage a i s t) (Database.storage a i (closed s) (waiting t))
        (storage-Agrees s honest t keys h a i)
        (λ keys' e.
          run-Follows (k (Database.storage a i s t).0) (Database.storage a i s t).1
            (Database.storage a i s t).2 keys' (rw (fallback-storage a i s t) honest) e)
  run-Follows (reads_hash n k) s t keys honest h =
      step_Follows keys k (Database.block_hash n s t) (Database.block_hash n (closed s) (waiting t))
        (block_hash-Agrees s honest t keys h n)
        (λ keys' e.
          run-Follows (k (Database.block_hash n s t).0) (Database.block_hash n s t).1
            (Database.block_hash n s t).2 keys' (rw (fallback-block_hash n s t) honest) e)

module _ {B E W : Type 0} where
  closed-begin_speculation :
      (s : Session B E (Thread W)) → s.read_log ≡ none → closed (begin_speculation s) ≡ s
  unfolding begin_speculation
  closed-begin_speculation s h = ap (λ l. record s { read_log = l }) (sym h)

  end_speculation_keep : (s : Session B E (Thread W)) → end_speculation s true ≡ closed s
  unfolding end_speculation
  end_speculation_keep s = elim (Option-cases s.read_log) [
    | inl e ↦ rw (e, end_speculation) (ap (λ l. record s { read_log = l }) e)
    | inr (log, e) ↦ rw (e, end_speculation)
  ]

module _ {B E W R : Type 0} where
  conclude-done :
      (o : Option R) (misses : List StateKey) (s : Session B E (Thread W)) (t : Thread W) (r : R)
      → (conclude (with_misses o misses, s, t)).0 ≡ done r
      → (o ≡ some r) × (misses ≡ [])
  unfolding conclude
  conclude-done none misses s t r h = cc
  conclude-done (some r') [] s t r h = (cc, refl)
  conclude-done (some r') (key ∷ keys) s t r h = cc

  -- What `attempt` makes of the outcome of its pass, for a thread that did not speculate before.
  abbrev concluded :
      Option R × Session B E (Thread W) × Thread W → Pass R × Session B E (Thread W) × Thread W
  concluded x =
      conclude (with_misses x.0 (dedup (sort (recorded x.2.misses))), x.1, restore none x.2)

  concluded_clean :
      (x : Option R × Session B E (Thread W) × Thread W) (r : R)
      → x.0 ≡ some r
      → x.2.misses ≡ some []
      → concluded x ≡ (done r, closed x.1, waiting x.2)
  unfolding conclude sort dedup restore
  concluded_clean x r o e =
      (λ i. conclude (with_misses (o i) (dedup (sort (recorded (e i)))), x.1, restore none x.2))
      ∙ ap (λ c. (done r, c, waiting x.2)) (end_speculation_keep x.1)

  clean_of_Follows :
      (x y : Option R × Session B E (Thread W) × Thread W) (r : R)
      → Follows [] x y
      → (concluded x).0 ≡ done r
      → (settle y.0, y.1, y.2) ≡ concluded x
  clean_of_Follows x y r (inl (key, more, e)) h =
      absurd (dedup-sort-ne-nil key more (rw e at ((conclude-done _ _ _ _ r h).1)))
  clean_of_Follows x y r (inr (e, q)) h =
      let o = (conclude-done _ _ _ _ r h).0 in
      ap (λ z. (settle z.0, z.1, z.2)) q
      ∙ ap (λ z. (settle z, closed x.1, waiting x.2)) o
      ∙ sym (concluded_clean x r o e)

  -- Where the fallback is honest and neither the session nor the thread is in another pass, a
  -- speculative pass that comes back clean is, in its result, the session and all that is shared,
  -- the pass that waits for every read.
  pub attempt_clean :
      (s : Session B E (Thread W)) (f : Program B E R) (t : Thread W) (r : R)
      → IsHonest s.fallback
      → s.read_log ≡ none
      → t.misses ≡ none
      → (attempt s false f t).0 ≡ done r
      → attempt s true f t ≡ attempt s false f t
  unfolding attempt speculate begin_speculation
  attempt_clean s f t r honest hs ht h =
      let t' : Thread W = record t { misses = some [] } in
      let x : Option R × Session B E (Thread W) × Thread W = run f (begin_speculation s) t' in
      let y : Option R × Session B E (Thread W) × Thread W =
        run f (closed (begin_speculation s)) (waiting t') in
      let outer : (m : Option (List StateKey)) → Pass R × Session B E (Thread W) × Thread W =
        λ m. conclude (with_misses x.0 (dedup (sort (recorded x.2.misses))), x.1, restore m x.2) in
      let same : run f s t ≡ y = λ i.
        run f (sym (closed-begin_speculation s hs) i) (ap (λ m. record t { misses = m }) ht i) in
      ap (λ z. (settle z.0, z.1, z.2)) same
      ∙ clean_of_Follows x y r (run-Follows f (begin_speculation s) t' [] honest refl)
          (ap (λ m. (outer m).0) (sym ht) ∙ h)
      ∙ ap outer (sym ht)
