-- ===== src/Fetch/Upstream.antt =====
-- crates/fetch/src/lib.rs, `Batcher`, `is_cached`, `read_blocking`, `send_batch` and
-- `resolve_batched`: how a thread that does not speculate gets keys into the cache.
use Prim.Native.String.{String, ◌++◌ as ◌+text+◌}
use forkyard.Base.{
  ℕ, suc, zero, ◌-◌, ◌^◌, List, [], ◌∷◌, Bool, true, false, Option, none, some, Result, ok, err,
  ◌>>=◌, ◌&&◌, map_err, ltb, if◌then◌else◌, ℕ_discrete,
}
use forkyard.Base.Maps.{get}
use forkyard.Engine.Types.{AccountInfo, DatabaseRef, keccak_empty, slot_discrete}
use forkyard.Fetch.Batch.{Call, Batch, new_batch, add_keys}
use forkyard.Fetch.Keys.{StateKey, account, storage, block_hash}
use forkyard.Fetch.ReadThrough.{
  ReadCache, Shared, through, cache_account, cache_slot, basic_ref, storage_ref, block_hash_ref,
}
use forkyard.Fetch.Retry.{is_rate_limited, retry_delay, rate_limit_retries}
use forkyard.Fetch.Speculation.{Thread}

abbrev pub is_some : {A : Type 0} → Option A → Bool
is_some none = false
is_some (some a) = true

unfoldable pub is_cached : {B : Type 0} → ReadCache B → StateKey → Bool
is_cached cache (account a) = is_some (get ℕ_discrete a cache.accounts)
is_cached cache (storage a i) = is_some (get slot_discrete (a, i) cache.storage)
is_cached cache (block_hash n) = is_some (get ℕ_discrete n cache.block_hashes)

-- The keys of a list that are not cached.
unfoldable pub missing : {B : Type 0} → ReadCache B → List StateKey → List StateKey
unfolding is_cached
missing cache [] = []
missing cache (k ∷ ks) = if is_cached cache k then missing cache ks else k ∷ missing cache ks

-- The replies to a batch, by waiter.
pub record Replies (Bytes : Type 0) : Type 0 where
  pub number : ℕ → Result String ℕ
  pub bytes : ℕ → Result String Bytes

-- A `Batcher` as its user sees it: alloy's client and the semaphore in front of it, the store
-- behind the backend, the clock, and what revm does with code.
pub record Batcher (B Bytes W : Type 0) : Type 0 where
  pub written : Call → Result String (Unit {0})
  pub acquire : W → Result String (Unit {0}) × W
  pub release : W → W
  pub send : List Call → W → Result String (Replies Bytes) × W
  pub insert_account : ℕ → AccountInfo B → W → W
  pub insert_slot : ℕ → ℕ → ℕ → W → W
  pub nanos : W → ℕ
  pub sleep : ℕ → W → W
  pub is_empty : Bytes → Bool
  pub keccak256 : Bytes → ℕ
  pub new_raw_checked : Bytes → Result String B
  pub address_text : ℕ → String
  pub number_text : ℕ → String

abbrev pub is_nil : {A : Type 0} → List A → Bool
is_nil [] = true
is_nil (a ∷ rest) = false

module _ {T : Type 0} where
  -- `?` between two steps of a thread.
  abbrev pub and_then :
      Result String (Unit {0}) × T
      → (T → Result String (Unit {0}) × T)
      → Result String (Unit {0}) × T
  and_then (ok u, t) next = next t
  and_then (err e, t) next = (err e, t)

  -- `try_for_each`.
  unfoldable pub try_each :
      {A : Type 0}
      → (A → T → Result String (Unit {0}) × T)
      → List A
      → T
      → Result String (Unit {0}) × T
  try_each f [] t = (ok tt, t)
  try_each f (a ∷ rest) t = and_then (f a t) (try_each f rest)

  -- A batch that is still refused after the last retry, or for another reason, keeps its error.
  unfoldable pub retried :
      (T → Result String (Unit {0}) × T)
      → Result String (Unit {0}) × T
      → Result String (Unit {0}) × T
  unfolding is_rate_limited
  retried again (ok u, t) = (ok u, t)
  retried again (err e, t) = if is_rate_limited e then again t else (err e, t)

module _ {B E W : Type 0} (inner : DatabaseRef B E W) (to_string : E → String) where
  -- `.map(drop)`, and the error as a text.
  unfoldable pub dropped :
      {A : Type 0}
      → Result E A × Thread (Shared B W)
      → Result String (Unit {0}) × Thread (Shared B W)
  dropped (ok a, t) = (ok tt, t)
  dropped (err e, t) = (err (to_string e), t)

  unfoldable pub read_blocking :
      StateKey → Thread (Shared B W) → Result String (Unit {0}) × Thread (Shared B W)
  unfolding dropped basic_ref storage_ref block_hash_ref
  read_blocking (account a) t = dropped (basic_ref inner a t)
  read_blocking (storage a i) t = dropped (storage_ref inner a i t)
  read_blocking (block_hash n) t = dropped (block_hash_ref inner n t)

  module _ {Bytes : Type 0} (batch : Batcher B Bytes W) where
    -- The code that the store holds: none where it is empty, and an error if it does not decode.
    unfoldable pub decoded_code : ℕ → Bytes → Result String (ℕ × Option B)
    decoded_code address code = elim (batch.is_empty code) [
      | true ↦ ok (keccak_empty, none)
      | false ↦ do
        b ←
            map_err (λ e. "code of " +text+ (batch.address_text address +text+ (": " +text+ e)))
              (batch.new_raw_checked code)
        ok (batch.keccak256 code, some b)
    ]

    unfoldable pub nonce_of : ℕ → ℕ → Result String ℕ
    nonce_of address nonce =
        if ltb nonce (2 ^ 64)
        then ok nonce
        else err (
            "nonce of "
            +text+ (batch.address_text address
                +text+ (" does not fit a u64: " +text+ batch.number_text nonce)))

    unfoldable pub account_of : Replies Bytes → ℕ × ℕ × ℕ × ℕ → Result String (AccountInfo B)
    unfolding decoded_code nonce_of
    account_of replies (address, w_balance, w_nonce, w_code) = do
      balance ← replies.number w_balance
      wide ← replies.number w_nonce
      bytes ← replies.bytes w_code
      (code_hash, code) ← decoded_code address bytes
      nonce ← nonce_of address wide
      ok (record { balance = balance; nonce = nonce; code_hash = code_hash; code = code })

    -- To the store behind the backend, and to the cache.
    unfoldable pub put_account :
        ℕ
        → Result String (AccountInfo B)
        → Thread (Shared B W)
        → Result String (Unit {0}) × Thread (Shared B W)
    unfolding through cache_account
    put_account address (err e) t = (err e, t)
    put_account address (ok info) t = (
      ok tt,
      cache_account address (some info)
          (through (λ w. (tt {0}, batch.insert_account address info w)) t).1,
    )

    unfoldable pub put_slot :
        ℕ
        → ℕ
        → Result String ℕ
        → Thread (Shared B W)
        → Result String (Unit {0}) × Thread (Shared B W)
    unfolding through cache_slot
    put_slot address index (err e) t = (err e, t)
    put_slot address index (ok value) t = (
      ok tt,
      cache_slot address index value
          (through (λ w. (tt {0}, batch.insert_slot address index value w)) t).1,
    )

    unfoldable pub store_account :
        Replies Bytes
        → ℕ × ℕ × ℕ × ℕ
        → Thread (Shared B W)
        → Result String (Unit {0}) × Thread (Shared B W)
    unfolding account_of put_account
    store_account replies entry t = put_account entry.0 (account_of replies entry) t

    unfoldable pub store_slot :
        Replies Bytes
        → ℕ × ℕ × ℕ
        → Thread (Shared B W)
        → Result String (Unit {0}) × Thread (Shared B W)
    unfolding put_slot
    store_slot replies (address, index, w) t = put_slot address index (replies.number w) t

    unfoldable pub answered :
        Batch
        → Result String (Replies Bytes) × Thread (Shared B W)
        → Result String (Unit {0}) × Thread (Shared B W)
    unfolding try_each store_account store_slot
    answered b (err e, t) = (err e, t)
    answered b (ok replies, t) =
        and_then (try_each (store_account replies) b.accounts t)
          (try_each (store_slot replies) b.slots)

    -- The permit is given back on each way out.
    unfoldable pub released :
        Result String (Unit {0}) × Thread (Shared B W)
        → Result String (Unit {0}) × Thread (Shared B W)
    unfolding through
    released (r, t) = (r, (through (λ w. (tt {0}, batch.release w)) t).1)

    unfoldable pub permitted :
        Batch
        → Result String (Unit {0}) × Thread (Shared B W)
        → Result String (Unit {0}) × Thread (Shared B W)
    unfolding released answered through
    permitted b (err e, t) = (err e, t)
    permitted b (ok u, t) = released (answered b (through (batch.send b.calls) t))

    unfoldable pub read_hash :
        ℕ → Thread (Shared B W) → Result String (Unit {0}) × Thread (Shared B W)
    unfolding read_blocking
    read_hash number = read_blocking (block_hash number)

    -- Where only block hashes are missing, nothing is sent.
    unfoldable pub planned :
        Bool → Batch → Thread (Shared B W) → Result String (Unit {0}) × Thread (Shared B W)
    unfolding permitted through try_each read_hash
    planned true b t = try_each read_hash b.hashes t
    planned false b t =
        and_then (permitted b (through batch.acquire t)) (try_each read_hash b.hashes)

    unfoldable pub prepared :
        Result String Batch → Thread (Shared B W) → Result String (Unit {0}) × Thread (Shared B W)
    unfolding planned
    prepared (err e) t = (err e, t)
    prepared (ok b) t = planned (is_nil b.accounts && is_nil b.slots) b t

    unfoldable pub send_batch :
        List StateKey → Thread (Shared B W) → Result String (Unit {0}) × Thread (Shared B W)
    unfolding prepared add_keys
    send_batch [] t = (ok tt, t)
    send_batch (key ∷ keys) t = prepared (add_keys batch.written (key ∷ keys) new_batch) t

    unfoldable pub slept : ℕ → Thread (Shared B W) → Thread (Shared B W)
    unfolding through retry_delay
    slept attempt t =
        (through (λ w. (tt {0}, batch.sleep (retry_delay attempt (batch.nanos w)) w)) t).1

    -- The loop of `resolve_batched`, by the retries that are left.
    unfoldable pub batched :
        ℕ → List StateKey → Thread (Shared B W) → Result String (Unit {0}) × Thread (Shared B W)
    unfolding missing send_batch retried slept
    batched zero keys t = send_batch (missing t.shared.cache keys) t
    batched (suc left) keys t =
        retried (λ t'. batched left keys (slept (rate_limit_retries - suc left) t'))
          (send_batch (missing t.shared.cache keys) t)

    unfoldable pub resolve_batched :
        List StateKey → Thread (Shared B W) → Result String (Unit {0}) × Thread (Shared B W)
    unfolding batched
    resolve_batched = batched rate_limit_retries
