-- ===== src/Fetch/Blocking.antt =====
-- What a read that succeeds has cached, where the thread does not speculate.
use Prim.Native.String.{String}
use forkyard.Base.{
  ℕ, [], ◌∷◌, Option, none, some, Result, ok, err, ◌≡◌, inl, inr, arith, Option-cases, ℕ_discrete,
}
use forkyard.Base.Maps.{get}
use forkyard.Engine.Types.{AccountInfo, DatabaseRef, slot_discrete}
use forkyard.Fetch.Keys.{StateKey, account, storage, block_hash}
use forkyard.Fetch.ReadThrough.{
  Shared, through, cache_account, cache_slot, cache_hash, fetched_account, fetched_slot,
  fetched_hash, read_account, read_slot, read_hash, basic_ref, storage_ref, block_hash_ref,
}
use forkyard.Fetch.Speculation.{Thread, record_miss}
use forkyard.Fetch.Upstream.{dropped, is_cached, read_blocking}
use forkyard.Fetch.Filling.{
  Grows, Fills, Grows-refl, Grows-trans, cache_account-Grows, cache_account-Cached,
  cache_slot-Grows, cache_slot-Cached, cache_hash-Grows, cache_hash-Cached, through-Grows,
}

module _ {B E W : Type 0} (inner : DatabaseRef B E W) (to_string : E → String) where
  fetched_account-Fills :
      (a : ℕ) (t : Thread (Shared B W))
      (out : Result E (Option (AccountInfo B)) × Thread (Shared B W))
      → Grows t out.1
      → Fills (account a ∷ []) t (dropped inner to_string (fetched_account a out))
  unfolding dropped fetched_account
  fetched_account-Fills a t (ok v, u) g = (
    Grows-trans t u (cache_account a v u) g (cache_account-Grows a v u),
    λ h. (cache_account-Cached a v u, tt),
  )
  fetched_account-Fills a t (err e, u) g = (g, λ h. cc)

  basic_ref_miss :
      (a : ℕ) (t : Thread (Shared B W))
      → get ℕ_discrete a t.shared.cache.accounts ≡ none
      → t.misses ≡ none
      → basic_ref inner a t ≡ fetched_account a (through (inner.basic_ref a) t)
  unfolding basic_ref read_account record_miss
  basic_ref_miss a t e q = ground arith

  basic_ref_hit :
      (a : ℕ) (t : Thread (Shared B W)) (hit : Option (AccountInfo B))
      → get ℕ_discrete a t.shared.cache.accounts ≡ some hit
      → basic_ref inner a t ≡ (ok hit, t)
  unfolding basic_ref
  basic_ref_hit a t hit e = ground arith

  basic_ref-Fills :
      (a : ℕ) (t : Thread (Shared B W))
      → t.misses ≡ none
      → Fills (account a ∷ []) t (dropped inner to_string (basic_ref inner a t))
  basic_ref-Fills a t q = elim (Option-cases (get ℕ_discrete a t.shared.cache.accounts)) [
    | inl e ↦ rw (basic_ref_miss a t e q) (
        fetched_account-Fills a t (through (inner.basic_ref a) t)
          (through-Grows (inner.basic_ref a) t))
    | inr (hit, e) ↦
        rw (basic_ref_hit a t hit e)
          (unfold dropped in (Grows-refl t, λ h. (unfold is_cached in rw e, tt)))
  ]

  fetched_slot-Fills :
      (a i : ℕ) (t : Thread (Shared B W)) (out : Result E ℕ × Thread (Shared B W))
      → Grows t out.1
      → Fills (storage a i ∷ []) t (dropped inner to_string (fetched_slot a i out))
  unfolding dropped fetched_slot
  fetched_slot-Fills a i t (ok v, u) g = (
    Grows-trans t u (cache_slot a i v u) g (cache_slot-Grows a i v u),
    λ h. (cache_slot-Cached a i v u, tt),
  )
  fetched_slot-Fills a i t (err e, u) g = (g, λ h. cc)

  storage_ref_miss :
      (a i : ℕ) (t : Thread (Shared B W))
      → get slot_discrete (a, i) t.shared.cache.storage ≡ none
      → t.misses ≡ none
      → storage_ref inner a i t ≡ fetched_slot a i (through (inner.storage_ref a i) t)
  unfolding storage_ref read_slot record_miss
  storage_ref_miss a i t e q = ground arith

  storage_ref_hit :
      (a i : ℕ) (t : Thread (Shared B W)) (hit : ℕ)
      → get slot_discrete (a, i) t.shared.cache.storage ≡ some hit
      → storage_ref inner a i t ≡ (ok hit, t)
  unfolding storage_ref
  storage_ref_hit a i t hit e = ground arith

  storage_ref-Fills :
      (a i : ℕ) (t : Thread (Shared B W))
      → t.misses ≡ none
      → Fills (storage a i ∷ []) t (dropped inner to_string (storage_ref inner a i t))
  storage_ref-Fills a i t q =
      elim (Option-cases (get slot_discrete (a, i) t.shared.cache.storage)) [
        | inl e ↦ rw (storage_ref_miss a i t e q) (
            fetched_slot-Fills a i t (through (inner.storage_ref a i) t)
              (through-Grows (inner.storage_ref a i) t))
        | inr (hit, e) ↦
            rw (storage_ref_hit a i t hit e)
              (unfold dropped in (Grows-refl t, λ h. (unfold is_cached in rw e, tt)))
      ]

  fetched_hash-Fills :
      (n : ℕ) (t : Thread (Shared B W)) (out : Result E ℕ × Thread (Shared B W))
      → Grows t out.1
      → Fills (block_hash n ∷ []) t (dropped inner to_string (fetched_hash n out))
  unfolding dropped fetched_hash
  fetched_hash-Fills n t (ok v, u) g = (
    Grows-trans t u (cache_hash n v u) g (cache_hash-Grows n v u),
    λ h. (cache_hash-Cached n v u, tt),
  )
  fetched_hash-Fills n t (err e, u) g = (g, λ h. cc)

  block_hash_ref_miss :
      (n : ℕ) (t : Thread (Shared B W))
      → get ℕ_discrete n t.shared.cache.block_hashes ≡ none
      → t.misses ≡ none
      → block_hash_ref inner n t ≡ fetched_hash n (through (inner.block_hash_ref n) t)
  unfolding block_hash_ref read_hash record_miss
  block_hash_ref_miss n t e q = ground arith

  block_hash_ref_hit :
      (n : ℕ) (t : Thread (Shared B W)) (hit : ℕ)
      → get ℕ_discrete n t.shared.cache.block_hashes ≡ some hit
      → block_hash_ref inner n t ≡ (ok hit, t)
  unfolding block_hash_ref
  block_hash_ref_hit n t hit e = ground arith

  block_hash_ref-Fills :
      (n : ℕ) (t : Thread (Shared B W))
      → t.misses ≡ none
      → Fills (block_hash n ∷ []) t (dropped inner to_string (block_hash_ref inner n t))
  block_hash_ref-Fills n t q = elim (Option-cases (get ℕ_discrete n t.shared.cache.block_hashes)) [
    | inl e ↦ rw (block_hash_ref_miss n t e q) (
        fetched_hash-Fills n t (through (inner.block_hash_ref n) t)
          (through-Grows (inner.block_hash_ref n) t))
    | inr (hit, e) ↦
        rw (block_hash_ref_hit n t hit e)
          (unfold dropped in (Grows-refl t, λ h. (unfold is_cached in rw e, tt)))
  ]

  pub read_blocking-Fills :
      (key : StateKey) (t : Thread (Shared B W))
      → t.misses ≡ none
      → Fills (key ∷ []) t (read_blocking inner to_string key t)
  unfolding read_blocking
  read_blocking-Fills (account a) t q = basic_ref-Fills a t q
  read_blocking-Fills (storage a i) t q = storage_ref-Fills a i t q
  read_blocking-Fills (block_hash n) t q = block_hash_ref-Fills n t q
