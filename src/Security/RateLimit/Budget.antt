-- ===== src/Security/RateLimit/Budget.antt =====
-- How much `allow` of sara_unified/security/rate_limit.py lets through.
use sara_omega.Prelude.{
  ℕ, String, ◌+◌, ◌-◌, ◌*◌, ◌≤◌, ◌<◌, ◌≡◌, ◌≢◌, ◌↔◌, ◌⊎◌, true, false, Option, none, some, List, [],
  ◌∷◌, arith, if◌then◌else◌, eq_iff,
}
use sara_omega.Prelude.Dict.{lookup, lookup-insert}
use sara_omega.Security.RateLimit.{Bucket, RateLimiter, bucket_of, refilled, allow}

-- A request passes exactly when it has a key and a cost from 1 to the capacity, and the refilled
-- bucket covers the cost.
pub allow_iff :
    (key : String) (cost now : ℕ) (l : RateLimiter)
    → ((allow key cost now l).0 ≡ true) ↔ (
        (key ≢ "")
        × (0 < cost)
        × (cost ≤ l.capacity)
        × (cost ≤ refilled l (bucket_of l key now) now))
unfolding allow
allow_iff key cost now l = (λ h. ground (arith, eq_iff key ""), λ h. ground (arith, eq_iff key ""))

-- Requests with one key, as costs and times, one after the other: the sum of the costs that pass.
unfoldable pub spent : String → List (ℕ × ℕ) → RateLimiter → ℕ
spent key [] l = 0
spent key (c ∷ cs) l =
    (if (allow key c.0 c.1 l).0 then c.0 else 0) + spent key cs (allow key c.0 c.1 l).1

-- The times do not run backwards, from `start` on and up to `end`.
abbrev pub Ascending : ℕ → List (ℕ × ℕ) → ℕ → Type 0
Ascending start [] end = start ≤ end
Ascending start (c ∷ cs) end = (start ≤ c.1) × Ascending c.1 cs end

-- The bucket of a key was last updated no later than `now`.
abbrev pub UpdatedBy : ℕ → Option Bucket → Type 0
UpdatedBy now none = Unit
UpdatedBy now (some b) = b.updated_at ≤ now

-- The tokens that a key has at a time, not cut off at the capacity.
abbrev available : ℕ → ℕ → ℕ → Option Bucket → ℕ
available capacity refill now none = capacity
available capacity refill now (some b) = b.tokens + (now - b.updated_at) * refill

split_time : (u v t r : ℕ) → u ≤ v → v ≤ t → (v - u) * r + (t - v) * r ≡ (t - u) * r
split_time u v t r h k = grind arith

available_later :
    (capacity r u v : ℕ) (o : Option Bucket)
    → UpdatedBy u o
    → u ≤ v
    → available capacity r v o ≤ available capacity r u o + (v - u) * r
available_later capacity r u v none k h = omega arith
available_later capacity r u v (some b) k h = omega (arith, split_time b.updated_at u v r k h)

refilled-le-available :
    (key : String) (now : ℕ) (l : RateLimiter)
    → refilled l (bucket_of l key now) now
      ≤ available l.capacity l.refill now (lookup key l.buckets)
unfolding refilled bucket_of
refilled-le-available key now l = ground arith

-- A call leaves the limiter alone, or it stores what is left of the refilled tokens.
allow_cases :
    (key : String) (cost now : ℕ) (l : RateLimiter)
    → let tokens = refilled l (bucket_of l key now) now in
      let (passed, l') = allow key cost now l in
      ((passed ≡ false) × (lookup key l'.buckets ≡ lookup key l.buckets))
      ⊎ ((passed ≡ false)
          × (lookup key l'.buckets ≡ some (record { tokens = tokens; updated_at = now })))
      ⊎ ((passed ≡ true)
          × (cost ≤ tokens)
          × (lookup key l'.buckets ≡ some (record { tokens = tokens - cost; updated_at = now })))
unfolding allow
allow_cases key cost now l =
    let tokens = refilled l (bucket_of l key now) now in
    ground (
      arith,
      eq_iff key key,
      lookup-insert key key (record { tokens = tokens; updated_at = now }) l.buckets,
      lookup-insert key key (record { tokens = tokens - cost; updated_at = now }) l.buckets,
    )

-- What a call leaves of the tokens, with what it has spent.
allow-available :
    (key : String) (cost now : ℕ) (l : RateLimiter)
    → (if (allow key cost now l).0 then cost else 0)
        + available l.capacity l.refill now (lookup key (allow key cost now l).1.buckets)
      ≤ available l.capacity l.refill now (lookup key l.buckets)
allow-available key cost now l =
    ground (arith, allow_cases key cost now l, refilled-le-available key now l)

allow-UpdatedBy :
    (key : String) (cost now u : ℕ) (l : RateLimiter)
    → u ≤ now
    → UpdatedBy u (lookup key l.buckets)
    → UpdatedBy now (lookup key (allow key cost now l).1.buckets)
allow-UpdatedBy key cost now u l h k = ground (arith, allow_cases key cost now l)

allow_keeps :
    (key : String) (cost now : ℕ) (l : RateLimiter)
    → ((allow key cost now l).1.capacity ≡ l.capacity)
      × ((allow key cost now l).1.refill ≡ l.refill)
unfolding allow
allow_keeps key cost now l = ground arith

Ascending-le : (cs : List (ℕ × ℕ)) (start end : ℕ) → Ascending start cs end → start ≤ end
Ascending-le [] start end h = h
Ascending-le (c ∷ cs) start end h = omega (arith, Ascending-le cs c.1 end h.1)

spent-le-available :
    (key : String) (cs : List (ℕ × ℕ)) (start end : ℕ) (l : RateLimiter)
    → Ascending start cs end
    → UpdatedBy start (lookup key l.buckets)
    → spent key cs l
      ≤ available l.capacity l.refill start (lookup key l.buckets) + (end - start) * l.refill
unfolding spent
spent-le-available key [] start end l h k = omega arith
spent-le-available key (c ∷ cs) start end l h k =
    let l' = (allow key c.0 c.1 l).1 in
    let keeps = allow_keeps key c.0 c.1 l in
    let later =
      spent-le-available key cs c.1 end l' h.1 (allow-UpdatedBy key c.0 c.1 start l h.0 k) in
    let left = allow-available key c.0 c.1 l in
    let refill = available_later l.capacity l.refill start c.1 (lookup key l.buckets) k h.0 in
    let time = split_time start c.1 end l.refill h.0 (Ascending-le cs c.1 end h.1) in
    let later' = rw (keeps.0, keeps.1) at later in omega arith

-- Over any calls with one key, at times that do not run backwards, the costs that pass add up to at
-- most the capacity and the refill of the time from the first call to the last, if the key is new.
pub spent-le-budget :
    (key : String) (cs : List (ℕ × ℕ)) (start end : ℕ) (l : RateLimiter)
    → Ascending start cs end
    → lookup key l.buckets ≡ none
    → spent key cs l ≤ l.capacity + (end - start) * l.refill
spent-le-budget key cs start end l h new =
    let bound = spent-le-available key cs start end l h (rw new tt) in rw new at bound
