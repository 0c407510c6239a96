-- ===== src/RateLimit.antt =====
-- src/app/rate_limit.py: a token bucket for each client. Time is in nanoseconds of the monotonic
-- clock, and a token is `token` units, so that the refill of one nanosecond, rate / 60 tokens per
-- second, is exactly `rate` units. Float error is not modelled. The lock makes `allow` atomic.
pub mod Eviction
pub mod Allowance
pub mod RetryAfter
use llmops_rag_api.Prelude.{
  ℕ, ◌+◌, ◌-◌, ◌*◌, ◌/◌, Bool, true, false, ℤ, pos_part, ltb, leb, if◌then◌else◌, none, some, List,
  [], ◌∷◌, length, take, min_ℤ, neg_part, leb_ℤ, pos, sub_ℕ,
}
use llmops_rag_api.Prelude.Sort.{sort_by}
use llmops_rag_api.Rounding.{Rounding}
use llmops_rag_api.Text.{Text}
use llmops_rag_api.Dict.{Dict, lookup, set, erase}

abbrev pub ticks_per_second : ℕ
ticks_per_second = 1_000_000_000

abbrev pub token : ℕ
token = 60 * ticks_per_second

-- `tokens` falls below 0 if two threads read the clock in one order and take the lock in the other.
pub record Bucket : Type 0 where
  pub tokens : ℤ
  pub updated : ℕ

pub record RateLimiter : Type 0 where
  pub rate : ℕ
  pub max_keys : ℕ
  pub buckets : Dict Bucket

-- `RateLimiter(requests_per_minute, max_keys)`
unfoldable pub make : ℤ → ℕ → RateLimiter
make requests_per_minute max_keys = record {
  rate = pos_part requests_per_minute;
  max_keys = max_keys;
  buckets = [];
}

unfoldable pub burst : RateLimiter → ℕ
burst l = l.rate * token

unfoldable pub enabled : RateLimiter → Bool
enabled l = ltb 0 l.rate

abbrev pub updated_of : Text × Bucket → ℕ
updated_of e = e.1.updated

-- `for key, _ in entries: del self._buckets[key]`
unfoldable pub delete_all : List (Text × Bucket) → Dict Bucket → Dict Bucket
delete_all [] d = d
delete_all ((key, _) ∷ entries) d = delete_all entries (erase key d)

-- The oldest half of the entries, `ordered[: len(ordered) // 2]`.
unfoldable pub oldest_half : Dict Bucket → List (Text × Bucket)
oldest_half d = take (length d / 2) (sort_by updated_of d)

unfoldable pub evict : RateLimiter → RateLimiter
unfolding delete_all oldest_half
evict l =
    if leb (length l.buckets) l.max_keys
    then l
    else record l { buckets = delete_all (oldest_half l.buckets) l.buckets }

-- The refilled bucket: `min(burst, tokens + (now - updated) * refill_per_second)`.
unfoldable pub refill : ℕ → ℕ → Bucket → ℤ
refill now rate b =
    min_ℤ (pos (rate * token))
      (sub_ℕ (pos_part b.tokens + now * rate) (neg_part b.tokens + b.updated * rate))

-- `1.0 - tokens` where that is positive.
unfoldable pub deficit : ℤ → ℕ
deficit tokens = token + neg_part tokens - pos_part tokens

-- `round(deficit / refill_per_second, 2)`, in hundredths of a second.
unfoldable pub retry_after : Rounding → ℕ → ℤ → ℕ
unfolding deficit
retry_after rounding rate tokens =
    if ltb 0 rate
    then rounding.round_ratio (deficit tokens * 100) (rate * ticks_per_second)
    else 6000

-- `bucket.tokens = tokens; bucket.updated = now`
unfoldable pub put_bucket : Text → ℤ → ℕ → RateLimiter → RateLimiter
put_bucket key tokens now l = record l {
  buckets = set key (record { tokens = tokens; updated = now }) l.buckets;
}

-- A known client, whose bucket holds `tokens` after the refill.
unfoldable pub spend_token : Rounding → Text → ℕ → ℤ → RateLimiter → (Bool × ℕ) × RateLimiter
unfolding put_bucket
spend_token rounding key now tokens l =
    if leb_ℤ (pos token) tokens
    then ((true, 0), put_bucket key (pos (pos_part tokens - token)) now l)
    else ((false, retry_after rounding l.rate tokens), put_bucket key tokens now l)

unfoldable pub admit_new : Text → ℕ → RateLimiter → (Bool × ℕ) × RateLimiter
unfolding put_bucket burst
admit_new key now l = ((true, 0), put_bucket key (pos (burst l - token)) now (evict l))

-- `allow(key)` at the time `now`: whether the request may pass, and the seconds to wait if not.
unfoldable pub allow : Rounding → Text → ℕ → RateLimiter → (Bool × ℕ) × RateLimiter
allow rounding key now l =
    if enabled l
    then elim (lookup key l.buckets) [
      | none ↦ admit_new key now l
      | some b ↦ spend_token rounding key now (refill now l.rate b) l
    ]
    else ((true, 0), l)
