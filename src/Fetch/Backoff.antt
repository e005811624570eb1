-- ===== src/Fetch/Backoff.antt =====
-- crates/fetch/src/lib.rs: how long `resolve_batched` goes on with a batch that is always refused.
use Prim.Native.String.{String}
use forkyard.Base.{ℕ, suc, ◌+◌, ◌-◌, ◌≤◌, List, true, Option, err, ◌≡◌, refl, ap, ◌∙◌, arith}
use forkyard.Engine.Types.{DatabaseRef}
use forkyard.Fetch.Keys.{StateKey}
use forkyard.Fetch.ReadThrough.{ReadCache, Shared, through}
use forkyard.Fetch.Retry.{backoff, is_rate_limited, retry_delay, rate_limit_retries, delay_bounds}
use forkyard.Fetch.Speculation.{Thread}
use forkyard.Fetch.Upstream.{Batcher, missing, send_batch, retried, slept, batched, resolve_batched}

module _ {B E W Bytes : Type 0} (inner : DatabaseRef B E W) (to_string : E → String)
    (batch : Batcher B Bytes W) (keys : List StateKey) (misses : Option (List StateKey))
    (cache : ReadCache B) (total : W → ℕ) where
  -- The thread over a world, the cache as it is.
  abbrev pub over : W → Thread (Shared B W)
  over w = record { misses = misses; shared = record { cache = cache; inner = w } }

  -- What is missing is asked for in a batch that is refused for the rate, and nothing is cached.
  abbrev pub Refuses : Type 0
  Refuses =
      (w : W)
      → (e : String) × (w' : W) × (send_batch inner to_string batch (missing cache keys) (over w)
          ≡ (err e, over w'))
        × (is_rate_limited e ≡ true)
        × (total w' ≡ total w)

  -- `total` is the time that a world has slept.
  abbrev pub Sleeps : Type 0
  Sleeps = (delay : ℕ) (w : W) → total (batch.sleep delay w) ≡ total w + delay

  module _ (refuses : Refuses) (sleeps : Sleeps) where
    again :
        (left : ℕ) (w : W)
        → (w' : W) × (nanos : ℕ) × (batched inner to_string batch (suc left) keys (over w)
            ≡ batched inner to_string batch left keys (over w'))
          × (total w' ≡ total w + retry_delay (rate_limit_retries - suc left) nanos)
    unfolding batched retried slept through
    again left w =
        let (e, w1, sent, limited, same) = refuses w in
        let delay = retry_delay (rate_limit_retries - suc left) (batch.nanos w1) in
        (
          batch.sleep delay w1,
          batch.nanos w1,
          ap
                (retried (λ t'.
                  batched inner to_string batch left keys
                    (slept inner to_string batch (rate_limit_retries - suc left) t')))
                sent
              ∙ rw limited refl,
          sleeps delay w1 ∙ ap (λ n. n + delay) same,
        )

    -- A batch that is refused for the rate each time, where nothing else gets its keys into the cache
    -- and only sleeping takes time: `resolve_batched` ends with such a refusal, and has slept 3.8 to
    -- 6.4 seconds in all.
    pub always_refused :
        (w : W)
        → (e : String) × (w' : W) × (resolve_batched inner to_string batch keys (over w)
            ≡ (err e, over w'))
          × (is_rate_limited e ≡ true)
          × (total w + 3800 ≤ total w')
          × (total w' ≤ total w + 6400)
    unfolding resolve_batched batched backoff
    always_refused w =
        let (w1, n0, e0, t0) = again 5 w in
        let (w2, n1, e1, t1) = again 4 w1 in
        let (w3, n2, e2, t2) = again 3 w2 in
        let (w4, n3, e3, t3) = again 2 w3 in
        let (w5, n4, e4, t4) = again 1 w4 in
        let (w6, n5, e5, t5) = again 0 w5 in
        let (e, w', sent, limited, same) = refuses w6 in
        let d0 = delay_bounds 0 n0 in
        let d1 = delay_bounds 1 n1 in
        let d2 = delay_bounds 2 n2 in
        let d3 = delay_bounds 3 n3 in
        let d4 = delay_bounds 4 n4 in
        let d5 = delay_bounds 5 n5 in
        (e, w', e0 ∙ e1 ∙ e2 ∙ e3 ∙ e4 ∙ e5 ∙ sent, limited, omega arith, omega arith)
