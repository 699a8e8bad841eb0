-- ===== src/Security/RateLimit.antt =====
-- `TokenBucketRateLimiter` of sara_unified/security/rate_limit.py. Tokens, costs, seconds and the
-- refill rate are whole numbers, at which the source's floats are exact.
pub mod Budget
use sara_omega.Prelude.{
  ℕ, String, ◌+◌, ◌-◌, ◌*◌, Bool, true, false, ◌||◌, Option, none, some, List, [], ◌∷◌, ltb, leb,
  ◌==◌, str_eq, if◌then◌else◌,
}
use sara_omega.Prelude.Dict.{Dict, lookup, insert}
use Prim.Native.Nat.{min}

pub record Bucket : Type 0 where
  pub tokens : ℕ
  pub updated_at : ℕ

pub record RateLimiter : Type 0 where
  pub capacity : ℕ
  pub refill : ℕ
  pub buckets : Dict Bucket

-- The constructor; `none` is its `ValueError`.
unfoldable pub make_limiter : ℕ → ℕ → Option RateLimiter
make_limiter capacity refill =
    if capacity == 0
    then none
    else some (record { capacity = capacity; refill = refill; buckets = [] })

-- `self._buckets.get(key, _Bucket(self.capacity, now))`
unfoldable pub bucket_of : RateLimiter → String → ℕ → Bucket
bucket_of l key now = elim (lookup key l.buckets) [
  | none ↦ record { tokens = l.capacity; updated_at = now }
  | some b ↦ b
]

-- The bucket's tokens after the refill for the time that has passed, at most the capacity. A clock
-- that runs backwards refills nothing.
unfoldable pub refilled : RateLimiter → Bucket → ℕ → ℕ
refilled l b now = min l.capacity (b.tokens + (now - b.updated_at) * l.refill)

unfoldable pub allow : String → ℕ → ℕ → RateLimiter → Bool × RateLimiter
unfolding bucket_of refilled
allow key cost now l =
    if str_eq key "" || cost == 0 || ltb l.capacity cost
    then (false, l)
    else (let tokens = refilled l (bucket_of l key now) now in
        if ltb tokens cost
        then (
          false,
          record l {
            buckets = insert key (record { tokens = tokens; updated_at = now }) l.buckets;
          },
        )
        else (
          true,
          record l {
            buckets = insert key (record { tokens = tokens - cost; updated_at = now }) l.buckets;
          },
        ))
