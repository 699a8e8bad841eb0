-- ===== src/Security/Circuit/States.antt =====
-- The states of the breaker of sara_unified/security/circuit_breaker.py.
use mathlib.Core.Path.{subst}
use sara_omega.Prelude.{
  ℕ, ◌+◌, ◌≤◌, ◌<◌, ◌≡◌, ◌≢◌, refl, true, false, suc, List, [], ◌∷◌, none, some, length, leb, ltb,
  if◌then◌else◌, arith,
}
use sara_omega.Security.Circuit.{CircuitBreaker, is_due, is_open, record_failure, record_success}

-- What is called on a breaker, with the time of the call.
pub data Step : CircuitBreaker → CircuitBreaker → Type 0 where
  read : (now : ℕ) (b : CircuitBreaker) → Step b (is_open now b).1
  fail : (now : ℕ) (b : CircuitBreaker) → Step b (record_failure now b)
  succeed : (b : CircuitBreaker) → Step b (record_success b)

pub data Reach (b : CircuitBreaker) : CircuitBreaker → Type 0 where
  here : Reach b b
  next : {c d : CircuitBreaker} → Reach b c → Step c d → Reach b d

-- A breaker that is not open has fewer failures than its threshold, and one that is open has not.
pub record IsConsistent (b : CircuitBreaker) : Type 0 where
  pub threshold_pos : 0 < b.threshold
  pub closed : b.opened_at ≡ none → b.failures < b.threshold
  pub opened : b.opened_at ≢ none → b.threshold ≤ b.failures

Step-IsConsistent : {b c : CircuitBreaker} → Step b c → IsConsistent b → IsConsistent c
unfolding is_open record_failure record_success
Step-IsConsistent (read now b) h = ground (arith, h.closed, h.opened)
Step-IsConsistent (fail now b) h = ground (arith, h.closed, h.opened)
Step-IsConsistent (succeed b) h = ground arith

-- Every breaker that a consistent one can become is open exactly from its threshold on.
pub Reach-IsConsistent : {b c : CircuitBreaker} → Reach b c → IsConsistent b → IsConsistent c
Reach-IsConsistent here h = h
Reach-IsConsistent (next r s) h = Step-IsConsistent s (Reach-IsConsistent r h)

-- Failures one after another.
abbrev pub fail_all : List ℕ → CircuitBreaker → CircuitBreaker
fail_all [] b = b
fail_all (t ∷ ts) b = fail_all ts (record_failure t b)

-- The last time of a list that is not empty.
abbrev pub last : ℕ → List ℕ → ℕ
last t [] = t
last t (u ∷ us) = last u us

-- What the breaker has counted, after a failure and those that follow.
record HasFailed (threshold reset n t : ℕ) (b : CircuitBreaker) : Type 0 where
  threshold_is : b.threshold ≡ threshold
  reset_is : b.reset_seconds ≡ reset
  counted : b.failures ≡ n
  opened_is : b.opened_at ≡ (if leb threshold n then some t else none)

fail-HasFailed :
    (threshold reset n u t : ℕ) (b : CircuitBreaker)
    → HasFailed threshold reset n u b
    → HasFailed threshold reset (n + 1) t (record_failure t b)
unfolding record_failure
fail-HasFailed threshold reset n u t b h = record {
  threshold_is = h.threshold_is;
  reset_is = h.reset_is;
  counted = omega (arith, h.counted);
  opened_is = ground (arith, h.threshold_is, h.counted, h.opened_is);
}

fail_all-HasFailed :
    (threshold reset n t : ℕ) (ts : List ℕ) (b : CircuitBreaker)
    → HasFailed threshold reset n t b
    → HasFailed threshold reset (n + length ts) (last t ts) (fail_all ts b)
fail_all-HasFailed threshold reset n t [] b h =
    subst (λ k. HasFailed threshold reset k t b) (n_zero n) h
  where
    n_zero : (k : ℕ) → k ≡ k + 0
    n_zero k = omega arith
fail_all-HasFailed threshold reset n t (u ∷ us) b h =
    subst (λ k. HasFailed threshold reset k (last u us) (fail_all us (record_failure u b)))
      (shift n (length us))
      (fail_all-HasFailed threshold reset (n + 1) u us (record_failure u b)
        (fail-HasFailed threshold reset n t u b h))
  where
    shift : (k l : ℕ) → k + 1 + l ≡ k + suc l
    shift k l = omega arith

open-HasFailed :
    (threshold reset n t now : ℕ) (b : CircuitBreaker)
    → 0 < t
    → HasFailed threshold reset n t b
    → is_open now b ≡ (
        if leb threshold n
        then (if ltb now (t + reset) then (true, b) else (false, record_success b))
        else (false, b))
unfolding is_open is_due record_success
open-HasFailed threshold reset n t now b p h = ground (arith, h.opened_is, h.reset_is)

-- After a success and then failures, the last of them at a time that is not 0, `open` answers true
-- exactly where there were at least as many as the threshold and the reset time is not over since
-- the last one; where it is over, the breaker is as after a success, and else it is left as it is.
pub open-fail_all :
    (b : CircuitBreaker) (t : ℕ) (ts : List ℕ) (now : ℕ)
    → 0 < last t ts
    → (let failed = fail_all (t ∷ ts) (record_success b) in
        is_open now failed ≡ (
          if leb b.threshold (1 + length ts)
          then (if ltb now (last t ts + b.reset_seconds)
              then (true, failed)
              else (false, record_success failed))
          else (false, failed)))
unfolding record_success record_failure
open-fail_all b t ts now p =
    let first : HasFailed b.threshold b.reset_seconds 1 t (record_failure t (record_success b)) =
      record { threshold_is = refl; reset_is = refl; counted = refl; opened_is = refl } in
    open-HasFailed b.threshold b.reset_seconds (1 + length ts) (last t ts) now
      (fail_all (t ∷ ts) (record_success b)) p
      (fail_all-HasFailed b.threshold b.reset_seconds 1 t ts (record_failure t (record_success b))
        first)
