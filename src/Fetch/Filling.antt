-- ===== src/Fetch/Filling.antt =====
-- What the steps of `resolve_batched` do to the cache of a thread that does not speculate.
use Prim.Native.String.{String}
use forkyard.Base.{
  ℕ, List, [], ◌∷◌, true, Option, none, Result, ok, err, All, ◌≡◌, refl, arith, ℕ_discrete, ◌∙◌,
  map,
}
use forkyard.Base.Maps.{get-insert}
use forkyard.Engine.Types.{AccountInfo, slot_discrete}
use forkyard.Fetch.Keys.{StateKey, account, storage, block_hash}
use forkyard.Fetch.ReadThrough.{Shared, through, cache_account, cache_slot, cache_hash}
use forkyard.Fetch.Speculation.{Thread}
use forkyard.Fetch.Upstream.{is_cached, try_each, and_then}

module _ {B W : Type 0} where
  abbrev pub Cached : Thread (Shared B W) → StateKey → Type 0
  Cached t k = is_cached t.shared.cache k ≡ true

  -- The thread records as before, and what was cached is.
  abbrev pub Grows : Thread (Shared B W) → Thread (Shared B W) → Type 0
  Grows t t' = (t'.misses ≡ t.misses) × ((k : StateKey) → Cached t k → Cached t' k)

  -- From `t`, a step only adds to the cache, and where it succeeds it has cached the keys.
  abbrev pub Fills :
      List StateKey → Thread (Shared B W) → Result String (Unit {0}) × Thread (Shared B W) → Type 0
  Fills keys t out = Grows t out.1 × (out.0 ≡ ok tt → All (Cached out.1) keys)

  pub Grows-refl : (t : Thread (Shared B W)) → Grows t t
  Grows-refl t = (refl, λ k h. h)

  pub Grows-trans : (t u v : Thread (Shared B W)) → Grows t u → Grows u v → Grows t v
  Grows-trans t u v g h = (h.0 ∙ g.0, λ k c. h.1 k (g.1 k c))

  pub All-Grows :
      (t u : Thread (Shared B W)) (ks : List StateKey)
      → Grows t u
      → All (Cached t) ks
      → All (Cached u) ks
  All-Grows t u [] g h = tt
  All-Grows t u (k ∷ ks) g h = (g.1 k h.0, All-Grows t u ks g h.1)

  cache_account_kept :
      (a : ℕ) (info : Option (AccountInfo B)) (t : Thread (Shared B W)) (k : StateKey)
      → Cached t k
      → Cached (cache_account a info t) k
  unfolding cache_account is_cached
  cache_account_kept a info t (account b) h =
      ground (arith, get-insert ℕ_discrete a b info t.shared.cache.accounts)
  cache_account_kept a info t (storage b j) h = h
  cache_account_kept a info t (block_hash m) h = h

  pub cache_account-Cached :
      (a : ℕ) (info : Option (AccountInfo B)) (t : Thread (Shared B W))
      → Cached (cache_account a info t) (account a)
  unfolding cache_account is_cached
  cache_account-Cached a info t =
      ground (arith, get-insert ℕ_discrete a a info t.shared.cache.accounts)

  pub cache_account-Grows :
      (a : ℕ) (info : Option (AccountInfo B)) (t : Thread (Shared B W))
      → Grows t (cache_account a info t)
  unfolding cache_account
  cache_account-Grows a info t = (refl, cache_account_kept a info t)

  cache_slot_kept :
      (a i v : ℕ) (t : Thread (Shared B W)) (k : StateKey)
      → Cached t k
      → Cached (cache_slot a i v t) k
  unfolding cache_slot is_cached
  cache_slot_kept a i v t (account b) h = h
  cache_slot_kept a i v t (storage b j) h =
      ground (arith, get-insert slot_discrete (a, i) (b, j) v t.shared.cache.storage)
  cache_slot_kept a i v t (block_hash m) h = h

  pub cache_slot-Cached :
      (a i v : ℕ) (t : Thread (Shared B W)) → Cached (cache_slot a i v t) (storage a i)
  unfolding cache_slot is_cached
  cache_slot-Cached a i v t =
      ground (arith, get-insert slot_discrete (a, i) (a, i) v t.shared.cache.storage)

  pub cache_slot-Grows : (a i v : ℕ) (t : Thread (Shared B W)) → Grows t (cache_slot a i v t)
  unfolding cache_slot
  cache_slot-Grows a i v t = (refl, cache_slot_kept a i v t)

  cache_hash_kept :
      (n v : ℕ) (t : Thread (Shared B W)) (k : StateKey) → Cached t k → Cached (cache_hash n v t) k
  unfolding cache_hash is_cached
  cache_hash_kept n v t (account b) h = h
  cache_hash_kept n v t (storage b j) h = h
  cache_hash_kept n v t (block_hash m) h =
      ground (arith, get-insert ℕ_discrete n m v t.shared.cache.block_hashes)

  pub cache_hash-Cached :
      (n v : ℕ) (t : Thread (Shared B W)) → Cached (cache_hash n v t) (block_hash n)
  unfolding cache_hash is_cached
  cache_hash-Cached n v t = ground (arith, get-insert ℕ_discrete n n v t.shared.cache.block_hashes)

  pub cache_hash-Grows : (n v : ℕ) (t : Thread (Shared B W)) → Grows t (cache_hash n v t)
  unfolding cache_hash
  cache_hash-Grows n v t = (refl, cache_hash_kept n v t)

  pub through-Grows :
      {A : Type 0} (f : W → A × W) (t : Thread (Shared B W)) → Grows t (through f t).1
  unfolding through
  through-Grows f t = (refl, λ k h. h)

  pub and_then-Fills :
      (ks ls : List StateKey) (t : Thread (Shared B W))
      (out : Result String (Unit {0}) × Thread (Shared B W))
      (next : Thread (Shared B W) → Result String (Unit {0}) × Thread (Shared B W))
      → Fills ks t out
      → ((u : Thread (Shared B W)) → Grows t u → Fills ls u (next u))
      → Grows t (and_then out next).1
        × ((and_then out next).0 ≡ ok tt
            → All (Cached (and_then out next).1) ks × All (Cached (and_then out next).1) ls)
  and_then-Fills ks ls t (err e, u) next f g = (f.0, λ h. cc)
  and_then-Fills ks ls t (ok v, u) next f g =
      let rest = g u f.0 in
      (
        Grows-trans t u (next u).1 f.0 rest.0,
        λ h. (All-Grows u (next u).1 ks rest.0 (f.1 refl), rest.1 h),
      )

  pub try_each-Fills :
      {A : Type 0} (key : A → StateKey)
      (f : A → Thread (Shared B W) → Result String (Unit {0}) × Thread (Shared B W))
      → ((a : A) (t : Thread (Shared B W)) → t.misses ≡ none → Fills (key a ∷ []) t (f a t))
      → (items : List A) (t : Thread (Shared B W)) → t.misses ≡ none
      → Fills (map key items) t (try_each f items t)
  unfolding try_each
  try_each-Fills key f each [] t q = (Grows-refl t, λ h. tt)
  try_each-Fills key f each (a ∷ rest) t q =
      let both =
        and_then-Fills (key a ∷ []) (map key rest) t (f a t) (try_each f rest) (each a t q)
          (λ u g. try_each-Fills key f each rest u (g.0 ∙ q)) in
      (both.0, λ h. ((both.1 h).0.0, (both.1 h).1))
