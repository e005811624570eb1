-- ===== src/Fetch/Retry.antt =====
-- crates/fetch/src/lib.rs, `is_rate_limited`, `retry_delay` and `RATE_LIMIT_RETRIES`: which errors
-- of the provider are tried again, and how long a thread sleeps before.
use Prim.Native.String.{String}
use forkyard.Base.{ℕ, ◌+◌, ◌*◌, ◌/◌, ◌%◌, ◌^◌, ◌≤◌, Bool, ◌||◌, arith, leb, if◌then◌else◌}
use forkyard.Base.Texts.{codes, contains, to_ascii_lowercase}

abbrev pub min : ℕ → ℕ → ℕ
min a b = if leb a b then a else b

unfoldable pub is_rate_limited : String → Bool
unfolding contains to_ascii_lowercase
is_rate_limited text =
    let error = to_ascii_lowercase (codes text) in
    contains error (codes "error code -32005")
    || contains error (codes "\"code\":-32005")
    || contains error (codes "http error 429")
    || contains error (codes "rate limit exceeded")
    || contains error (codes "too many requests")

-- `100 << attempt` for an attempt of at most 5.
unfoldable pub backoff : ℕ → ℕ
backoff attempt = min (100 * 2 ^ min attempt 5) 2000

-- `nanos` is the part below a second of the time.
unfoldable pub retry_delay : ℕ → ℕ → ℕ
retry_delay attempt nanos =
    let base = backoff attempt in let jitter = nanos % (base / 2 + 1) in base * 3 / 4 + jitter

abbrev pub rate_limit_retries : ℕ
rate_limit_retries = 6

spread_bounds :
    (base nanos : ℕ)
    → (base * 3 ≤ 4 * (base * 3 / 4 + nanos % (base / 2 + 1)) + 3)
      × (4 * (base * 3 / 4 + nanos % (base / 2 + 1)) ≤ base * 5)
spread_bounds base nanos = (grind arith, grind arith)

pub delay_bounds :
    (attempt nanos : ℕ)
    → (backoff attempt * 3 ≤ 4 * retry_delay attempt nanos + 3)
      × (4 * retry_delay attempt nanos ≤ backoff attempt * 5)
unfolding retry_delay
delay_bounds attempt nanos = spread_bounds (backoff attempt) nanos
