-- ===== src/Tests/Upstreams.antt =====
-- A provider that refuses the first batch and answers the second.
use Prim.Native.String.{String}
use forkyard.Base.{
  ℕ, zero, suc, ◌+◌, ◌≤◌, List, [], ◌∷◌, true, false, none, Result, ok, err, ◌≡◌, refl, ℕ_discrete,
}
use forkyard.Base.Maps.{get, insert}
use forkyard.Engine.Types.{DatabaseRef}
use forkyard.Fetch.Backoff.{over, Refuses, always_refused}
use forkyard.Fetch.Filling.{Fills}
use forkyard.Fetch.Keys.{StateKey, account, storage, block_hash}
use forkyard.Fetch.ReadThrough.{Shared, default_cache}
use forkyard.Fetch.Resolving.{resolve_batched-Fills}
use forkyard.Fetch.Retry.{retry_delay, backoff, is_rate_limited}
use forkyard.Fetch.Speculation.{Thread}
use forkyard.Fetch.Upstream.{Batcher, Replies, missing, send_batch, resolve_batched}
use forkyard.Tests.{Bytes, NoError}

abbrev inner : DatabaseRef Bytes NoError ℕ
inner = record {
  basic_ref = λ address w. (ok none, w);
  code_by_hash_ref = λ hash w. (err tt, w);
  storage_ref = λ address index w. (ok 7, w);
  block_hash_ref = λ number w. (ok number, w);
}

abbrev replies : Replies Bytes
replies = record { number = λ i. ok i; bytes = λ i. ok [] }

-- The world is the number of batches that it has seen.
abbrev sends : ℕ → Result String (Replies Bytes) × ℕ
sends zero = (err "server returned an error response: error code -32005: rate limit exceeded", 1)
sends (suc n) = (ok replies, suc (suc n))

abbrev batcher : Batcher Bytes Bytes ℕ
batcher = record {
  written = λ call. ok tt;
  acquire = λ w. (ok tt, w);
  release = λ w. w;
  send = λ calls w. sends w;
  insert_account = λ address info w. w;
  insert_slot = λ address index value w. w;
  nanos = λ w. 500;
  sleep = λ delay w. w;
  is_empty = λ code. true;
  keccak256 = λ code. 0;
  new_raw_checked = λ code. ok code;
  address_text = λ a. "an address";
  number_text = λ n. "a number";
}

abbrev starting : Thread (Shared Bytes ℕ)
starting = record { misses = none; shared = record { cache = default_cache; inner = 0 } }

abbrev wanted : List StateKey
wanted = account 1 ∷ storage 1 2 ∷ block_hash 9 ∷ []

refused_once : (resolve_batched inner (λ e. "no error") batcher wanted starting).0 ≡ ok tt
unfolding resolve_batched get insert ℕ_discrete
refused_once = refl

two_batches : (resolve_batched inner (λ e. "no error") batcher wanted starting).1.shared.inner ≡ 2
unfolding resolve_batched get insert ℕ_discrete
two_batches = refl

not_limited : is_rate_limited "transaction 0x4290 not found" ≡ false
unfolding is_rate_limited
not_limited = refl

resolve_batched-Fills_example :
    Fills wanted starting (resolve_batched inner (λ e. "no error") batcher wanted starting)
resolve_batched-Fills_example =
    resolve_batched-Fills inner (λ e. "no error") batcher wanted starting refl

first_delay : retry_delay 0 7 ≡ 82
unfolding retry_delay backoff
first_delay = refl

-- Every batch is refused; the world is the time that was slept.
abbrev refusing : Batcher Bytes Bytes ℕ
refusing = record batcher {
  send = λ calls w. (err "HTTP error 429", w);
  sleep = λ delay w. w + delay;
}

refused_always : Refuses inner (λ e. "no error") refusing wanted none default_cache (λ w. w)
unfolding send_batch missing get is_rate_limited
refused_always w = ("HTTP error 429", w, refl, refl, refl)

always_refused_example :
    (e : String) × (w' : ℕ) × (resolve_batched inner (λ e. "no error") refusing wanted starting
      ≡ (err e, over inner (λ e. "no error") refusing wanted none default_cache (λ w. w) w'))
    × (is_rate_limited e ≡ true)
    × (0 + 3800 ≤ w')
    × (w' ≤ 0 + 6400)
always_refused_example =
    always_refused inner (λ e. "no error") refusing wanted none default_cache (λ w. w)
      refused_always (λ delay w. refl) 0
