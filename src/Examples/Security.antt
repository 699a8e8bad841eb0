-- ===== src/Examples/Security.antt =====
-- The guards of requests and the chain of authority at concrete inputs.
use sara_omega.Prelude.{
  String, ◌+◌, ◌-◌, ◌*◌, ◌≤◌, ◌≡◌, refl, ◌≢◌, ◌↔◌, ◌⊎◌, true, none, some, List, [], ◌∷◌, arith,
  Some,
}
use sara_omega.Prelude.Int.{pos}
use sara_omega.Prelude.Dict.{Dict}
use sara_omega.Authority.{
  state_changing, destructive, read_only, role_grants, ApprovalStore, decide,
}
use sara_omega.Authority.Chain.{Approved, decide-allowed_iff}
use sara_omega.Security.Replay.{ReplayGuard, accepted, check}
use sara_omega.Security.Replay.Window.{check_all, check-no_replay}
use sara_omega.Security.RateLimit.{RateLimiter}
use sara_omega.Security.RateLimit.Budget.{spent, spent-le-budget}
use sara_omega.Security.Circuit.{CircuitBreaker, record_success, is_open}
use sara_omega.Security.Circuit.States.{fail_all, open-fail_all}

abbrev guard : ReplayGuard
guard = record { max_age_seconds = 300; capacity = 2; seen = [] }

first_accepted : (check "n1" (pos 100) (pos 100) guard).0 ≡ accepted
unfolding check
first_accepted = refl

check-no_replay_example :
    (check "n1"
      (pos 103)
      (pos 103)
      (check_all (("n2", pos 101, pos 102) ∷ []) (check "n1" (pos 100) (pos 100) guard).1)).0
    ≢ accepted
check-no_replay_example =
    check-no_replay "n1" (pos 100) (pos 100) (pos 103) (pos 103) (("n2", pos 101, pos 102) ∷ [])
      guard first_accepted (omega arith)

abbrev limiter : RateLimiter
limiter = record { capacity = 5; refill = 1; buckets = [] }

spent-le-budget_example :
    spent "k" ((3, 10) ∷ (3, 11) ∷ (2, 12) ∷ []) limiter
    ≤ limiter.capacity + (12 - 10) * limiter.refill
spent-le-budget_example =
    spent-le-budget "k" ((3, 10) ∷ (3, 11) ∷ (2, 12) ∷ []) 10 12 limiter
      (omega arith, (omega arith, (omega arith, omega arith))) refl

abbrev breaker : CircuitBreaker
breaker = record { threshold = 2; reset_seconds = 30; failures = 0; opened_at = none }

open-fail_all_example :
    is_open 36 (fail_all (5 ∷ 7 ∷ []) (record_success breaker))
    ≡ (true, fail_all (5 ∷ 7 ∷ []) (record_success breaker))
open-fail_all_example = open-fail_all breaker 5 (7 ∷ []) 36 (omega arith)

abbrev grants : Dict (List String)
grants = ("operator", "restart" ∷ []) ∷ []

abbrev approvals : ApprovalStore
approvals =
    record { subject = "alice"; approver = "bob"; scope = "restart"; approved_at = "t" } ∷ []

decide-allowed_iff_example :
    ((decide grants approvals "alice"
        ("operator" ∷ [])
        "restart"
        state_changing
        (some "restart")).allowed
      ≡ true)
    ↔ (Some (role_grants grants "restart") ("operator" ∷ [])
        × (state_changing ≢ destructive)
        × ((state_changing ≡ read_only) ⊎ Approved "alice" (some "restart") approvals))
decide-allowed_iff_example =
    decide-allowed_iff grants approvals "alice" ("operator" ∷ []) "restart" state_changing
      (some "restart")
