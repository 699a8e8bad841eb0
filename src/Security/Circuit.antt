-- ===== src/Security/Circuit.antt =====
-- `CircuitBreaker` of sara_unified/security/circuit_breaker.py. Times are whole seconds since the
-- epoch.
pub mod States
use sara_omega.Prelude.{
  ℕ, ◌+◌, ◌-◌, Bool, true, false, not, ◌&&◌, Option, none, some, leb, ◌==◌, if◌then◌else◌,
}

pub record CircuitBreaker : Type 0 where
  pub threshold : ℕ
  pub reset_seconds : ℕ
  pub failures : ℕ
  pub opened_at : Option ℕ

-- `self.opened_at and time.time() - self.opened_at >= self.reset_seconds`: the time 0 is false
unfoldable pub is_due : Option ℕ → ℕ → ℕ → Bool
is_due none reset now = false
is_due (some t) reset now = not (t == 0) && leb (t + reset) now

abbrev pub is_set : Option ℕ → Bool
is_set none = false
is_set (some t) = true

-- The property `open`, which resets the breaker when its time is over.
unfoldable pub is_open : ℕ → CircuitBreaker → Bool × CircuitBreaker
unfolding is_due
is_open now b =
    if is_due b.opened_at b.reset_seconds now
    then (false, record b { failures = 0; opened_at = none })
    else (is_set b.opened_at, b)

unfoldable pub record_failure : ℕ → CircuitBreaker → CircuitBreaker
record_failure now b =
    let failures = b.failures + 1 in
    record b {
      failures = failures;
      opened_at = if leb b.threshold failures then some now else b.opened_at;
    }

unfoldable pub record_success : CircuitBreaker → CircuitBreaker
record_success b = record b { failures = 0; opened_at = none }
