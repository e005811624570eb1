-- ===== src/Fetch/Resolving.antt =====
-- `send_batch` and `resolve_batched` of crates/fetch/src/lib.rs: what they have cached when they
-- succeed.
use Prim.Native.String.{String}
use forkyard.Base.{
  ℕ, zero, suc, ◌-◌, List, [], ◌∷◌, Bool, true, false, none, some, Result, ok, err, All, ◌≡◌, refl,
  inl, inr, arith, Bool-cases, ◌∙◌, ◌&&◌, map, if◌then◌else◌,
}
use forkyard.Engine.Types.{AccountInfo, DatabaseRef}
use forkyard.Fetch.Batch.{Batch, new_batch, add_keys}
use forkyard.Fetch.Batches.{account_key, slot_key, Pending, add_keys-Pending}
use forkyard.Fetch.Blocking.{read_blocking-Fills}
use forkyard.Fetch.Filling.{
  Cached, Grows, Fills, Grows-refl, Grows-trans, All-Grows, cache_account-Grows,
  cache_account-Cached, cache_slot-Grows, cache_slot-Cached, through-Grows, and_then-Fills,
  try_each-Fills,
}
use forkyard.Fetch.Keys.{StateKey, account, storage, block_hash}
use forkyard.Fetch.ReadThrough.{Shared, through, cache_account, cache_slot}
use forkyard.Fetch.Retry.{retry_delay, is_rate_limited, rate_limit_retries}
use forkyard.Fetch.Speculation.{Thread}
use forkyard.Fetch.Upstream.{
  is_cached, missing, Replies, Batcher, is_nil, and_then, try_each, retried, put_account, put_slot,
  account_of, store_account, store_slot, answered, released, permitted, read_hash, planned,
  prepared, send_batch, slept, batched, resolve_batched,
}

All-nil :
    {A : Type 0} (Q : StateKey → Type 0) (key : A → StateKey) (items : List A)
    → is_nil items ≡ true
    → All Q (map key items)
All-nil Q key [] h = tt
All-nil Q key (x ∷ items) h = cc

module _ {B E W Bytes : Type 0} (inner : DatabaseRef B E W) (to_string : E → String)
    (batch : Batcher B Bytes W) where
  put_account-Fills :
      (a : ℕ) (info : Result String (AccountInfo B)) (t : Thread (Shared B W))
      → Fills (account a ∷ []) t (put_account inner to_string batch a info t)
  unfolding put_account
  put_account-Fills a (err e) t = (Grows-refl t, λ h. cc)
  put_account-Fills a (ok info) t =
      let write : W → Unit {0} × W = λ w. (tt {0}, batch.insert_account a info w) in
      let u = (through write t).1 in
      (
        Grows-trans t u (cache_account a (some info) u) (through-Grows write t)
            (cache_account-Grows a (some info) u),
        λ h. (cache_account-Cached a (some info) u, tt),
      )

  put_slot-Fills :
      (a i : ℕ) (value : Result String ℕ) (t : Thread (Shared B W))
      → Fills (storage a i ∷ []) t (put_slot inner to_string batch a i value t)
  unfolding put_slot
  put_slot-Fills a i (err e) t = (Grows-refl t, λ h. cc)
  put_slot-Fills a i (ok value) t =
      let write : W → Unit {0} × W = λ w. (tt {0}, batch.insert_slot a i value w) in
      let u = (through write t).1 in
      (
        Grows-trans t u (cache_slot a i value u) (through-Grows write t)
            (cache_slot-Grows a i value u),
        λ h. (cache_slot-Cached a i value u, tt),
      )

  abbrev Stored :
      Batch → Thread (Shared B W) → Result String (Unit {0}) × Thread (Shared B W) → Type 0
  Stored b t out =
      Grows t out.1
      × (out.0 ≡ ok tt
          → All (Cached out.1) (map account_key b.accounts)
            × All (Cached out.1) (map slot_key b.slots))

  answered-Stored :
      (b : Batch) (replies : Result String (Replies Bytes)) (t u : Thread (Shared B W))
      → u.misses ≡ none
      → Grows t u
      → Stored b t (answered inner to_string batch b (replies, u))
  unfolding answered
  answered-Stored b (err e) t u q g = (g, λ h. cc)
  answered-Stored b (ok replies) t u q g =
      let on_account = store_account inner to_string batch replies in
      let on_slot = store_slot inner to_string batch replies in
      let accounts =
        try_each-Fills account_key on_account
          (λ e v quiet.
            unfold store_account in
            put_account-Fills e.0 (account_of inner to_string batch replies e) v)
          b.accounts u q in
      let both =
        and_then-Fills (map account_key b.accounts) (map slot_key b.slots) u
          (try_each on_account b.accounts u) (try_each on_slot b.slots) accounts
          (λ v grown.
            try_each-Fills slot_key on_slot
              (λ e w quiet. unfold store_slot in put_slot-Fills e.0 e.1 (replies.number e.2) w)
              b.slots v (grown.0 ∙ q)) in
      let last = (and_then (try_each on_account b.accounts u) (try_each on_slot b.slots)).1 in
      (Grows-trans t u last g both.0, both.1)

  released-Stored :
      (b : Batch) (t : Thread (Shared B W)) (out : Result String (Unit {0}) × Thread (Shared B W))
      → Stored b t out
      → Stored b t (released inner to_string batch out)
  unfolding released
  released-Stored b t (r, u) s =
      let release : W → Unit {0} × W = λ w. (tt {0}, batch.release w) in
      let g = through-Grows release u in
      let v = (through release u).1 in
      (
        Grows-trans t u v s.0 g,
        λ h. (
          All-Grows u v (map account_key b.accounts) g (s.1 h).0,
          All-Grows u v (map slot_key b.slots) g (s.1 h).1,
        ),
      )

  permitted-Stored :
      (b : Batch) (permit : Result String (Unit {0})) (t u : Thread (Shared B W))
      → u.misses ≡ none
      → Grows t u
      → Stored b t (permitted inner to_string batch b (permit, u))
  unfolding permitted
  permitted-Stored b (err e) t u q g = (g, λ h. cc)
  permitted-Stored b (ok permit) t u q g =
      let send = batch.send b.calls in
      let sent = through-Grows send u in
      let v = (through send u).1 in
      released-Stored b t (answered inner to_string batch b (through send u))
        (answered-Stored b (through send u).0 t v (sent.0 ∙ q) (Grows-trans t u v g sent))

  abbrev Done :
      Batch → Thread (Shared B W) → Result String (Unit {0}) × Thread (Shared B W) → Type 0
  Done b t out = Grows t out.1 × (out.0 ≡ ok tt → Pending (Cached out.1) b)

  hashes-Fills :
      (numbers : List ℕ) (t : Thread (Shared B W))
      → t.misses ≡ none
      → Fills (map block_hash numbers) t (try_each (read_hash inner to_string batch) numbers t)
  unfolding read_hash
  hashes-Fills numbers t q =
      try_each-Fills block_hash (read_hash inner to_string batch)
        (λ n u quiet. read_blocking-Fills inner to_string (block_hash n) u quiet) numbers t q

  after-Done :
      (b : Batch) (t : Thread (Shared B W)) (out : Result String (Unit {0}) × Thread (Shared B W))
      → t.misses ≡ none
      → Stored b t out
      → Done b t (and_then out (try_each (read_hash inner to_string batch) b.hashes))
  after-Done b t (err e, u) q s = (s.0, λ h. cc)
  after-Done b t (ok v, u) q s =
      let last = try_each (read_hash inner to_string batch) b.hashes u in
      let f = hashes-Fills b.hashes u (s.0.0 ∙ q) in
      (
        Grows-trans t u last.1 s.0 f.0,
        λ h. (
          All-Grows u last.1 (map account_key b.accounts) f.0 (s.1 refl).0,
          All-Grows u last.1 (map slot_key b.slots) f.0 (s.1 refl).1,
          f.1 h,
        ),
      )

  requested-Done :
      (b : Batch) (t : Thread (Shared B W))
      → t.misses ≡ none
      → Done b t (
          and_then
            (permitted inner to_string batch b (through batch.acquire t))
            (try_each (read_hash inner to_string batch) b.hashes))
  requested-Done b t q =
      let got = through-Grows batch.acquire t in
      let u = (through batch.acquire t).1 in
      after-Done b t (permitted inner to_string batch b (through batch.acquire t)) q
        (permitted-Stored b (through batch.acquire t).0 t u (got.0 ∙ q) got)

  planned-Done :
      (nothing : Bool) (b : Batch) (t : Thread (Shared B W))
      → (is_nil b.accounts && is_nil b.slots) ≡ nothing
      → t.misses ≡ none
      → Done b t (planned inner to_string batch nothing b t)
  unfolding planned
  planned-Done false b t e q = requested-Done b t q
  planned-Done true b t e q =
      let f = hashes-Fills b.hashes t q in
      let after = (try_each (read_hash inner to_string batch) b.hashes t).1 in
      (
        f.0,
        λ h. (
          All-nil (Cached after) account_key b.accounts (ground arith),
          All-nil (Cached after) slot_key b.slots (ground arith),
          f.1 h,
        ),
      )

  prepared-Fills :
      (keys : List StateKey) (t : Thread (Shared B W)) (made : Result String Batch)
      → add_keys batch.written keys new_batch ≡ made
      → t.misses ≡ none
      → Fills keys t (prepared inner to_string batch made t)
  unfolding prepared
  prepared-Fills keys t (err e) refused q = (Grows-refl t, λ h. cc)
  prepared-Fills keys t (ok b) made q =
      let done = planned-Done (is_nil b.accounts && is_nil b.slots) b t refl q in
      let after = (prepared inner to_string batch (ok b) t).1 in
      (
        done.0,
        λ h. (add_keys-Pending batch.written (Cached after) keys new_batch made (done.1 h)).0,
      )

  send_batch-Fills :
      (keys : List StateKey) (t : Thread (Shared B W))
      → t.misses ≡ none
      → Fills keys t (send_batch inner to_string batch keys t)
  unfolding send_batch
  send_batch-Fills [] t q = (Grows-refl t, λ h. tt)
  send_batch-Fills (key ∷ keys) t q = prepared-Fills (key ∷ keys) t _ refl q

  rest_missing :
      (hit : Bool) (k : StateKey) (keys : List StateKey) (t u : Thread (Shared B W))
      → hit ≡ true
      → All
          (Cached u)
          (if hit then missing t.shared.cache keys else k ∷ missing t.shared.cache keys)
      → All (Cached u) (missing t.shared.cache keys)
  rest_missing true k keys t u e h = h
  rest_missing false k keys t u e h = cc

  asked_missing :
      (hit : Bool) (k : StateKey) (keys : List StateKey) (t u : Thread (Shared B W))
      → hit ≡ false
      → All
          (Cached u)
          (if hit then missing t.shared.cache keys else k ∷ missing t.shared.cache keys)
      → Cached u k × All (Cached u) (missing t.shared.cache keys)
  asked_missing true k keys t u e h = cc
  asked_missing false k keys t u e h = h

  -- What was asked for is what was not cached.
  All-missing :
      (keys : List StateKey) (t u : Thread (Shared B W))
      → Grows t u
      → All (Cached u) (missing t.shared.cache keys)
      → All (Cached u) keys
  unfolding missing
  All-missing [] t u g h = tt
  All-missing (k ∷ keys) t u g h = elim (Bool-cases (is_cached t.shared.cache k)) [
    | inl hit ↦ (
      g.1 k hit,
      All-missing keys t u g (rest_missing (is_cached t.shared.cache k) k keys t u hit h),
    )
    | inr miss ↦
        let both = asked_missing (is_cached t.shared.cache k) k keys t u miss h in
        (both.0, All-missing keys t u g both.1)
  ]

  sent-Fills :
      (keys : List StateKey) (t : Thread (Shared B W))
      → t.misses ≡ none
      → Fills keys t (send_batch inner to_string batch (missing t.shared.cache keys) t)
  sent-Fills keys t q =
      let f = send_batch-Fills (missing t.shared.cache keys) t q in
      let after = (send_batch inner to_string batch (missing t.shared.cache keys) t).1 in
      (f.0, λ h. All-missing keys t after f.0 (f.1 h))

  retried-Fills :
      (keys : List StateKey) (t : Thread (Shared B W))
      (again : Thread (Shared B W) → Result String (Unit {0}) × Thread (Shared B W))
      (out : Result String (Unit {0}) × Thread (Shared B W))
      → Fills keys t out
      → ((u : Thread (Shared B W)) → Grows t u → Fills keys t (again u))
      → Fills keys t (retried again out)
  unfolding retried
  retried-Fills keys t again (ok v, u) f g = f
  retried-Fills keys t again (err e, u) f g = elim (Bool-cases (is_rate_limited e)) [
    | inl limited ↦ rw limited (g u f.0)
    | inr fatal ↦ rw fatal f
  ]

  slept-Grows :
      (attempt : ℕ) (t : Thread (Shared B W)) → Grows t (slept inner to_string batch attempt t)
  unfolding slept
  slept-Grows attempt t =
      let sleep : W → Unit {0} × W =
        λ w. (tt {0}, batch.sleep (retry_delay attempt (batch.nanos w)) w) in
      through-Grows sleep t

  batched-Fills :
      (left : ℕ) (keys : List StateKey) (t : Thread (Shared B W))
      → t.misses ≡ none
      → Fills keys t (batched inner to_string batch left keys t)
  unfolding batched
  batched-Fills zero keys t q = sent-Fills keys t q
  batched-Fills (suc left) keys t q =
      retried-Fills keys t
        (λ u.
          batched inner to_string batch left keys
            (slept inner to_string batch (rate_limit_retries - suc left) u))
        (send_batch inner to_string batch (missing t.shared.cache keys) t) (sent-Fills keys t q)
        (λ u g.
          let v = slept inner to_string batch (rate_limit_retries - suc left) u in
          let f = batched-Fills left keys v (g.0 ∙ q) in
          let last = (batched inner to_string batch left keys v).1 in
          (
            Grows-trans t v last
                (Grows-trans t u v g (slept-Grows (rate_limit_retries - suc left) u)) f.0,
            f.1,
          ))

  -- Where a thread does not speculate, `resolve_batched` takes nothing out of the cache, goes on
  -- not speculating, and where it succeeds it leaves each of its keys cached.
  pub resolve_batched-Fills :
      (keys : List StateKey) (t : Thread (Shared B W))
      → t.misses ≡ none
      → Fills keys t (resolve_batched inner to_string batch keys t)
  unfolding resolve_batched
  resolve_batched-Fills keys t q = batched-Fills rate_limit_retries keys t q
