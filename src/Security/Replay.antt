-- ===== src/Security/Replay.antt =====
-- `ReplayGuard` of sara_unified/security/replay.py. Times are whole seconds, and the capacity is
-- not negative.
pub mod Window
use sara_omega.Prelude.{
  ℕ, String, Bool, List, [], ◌∷◌, ◌++◌, Option, none, some, length, ltb, if◌then◌else◌,
}
use sara_omega.Prelude.Dict.{Dict, has_key, insert}
use sara_omega.Prelude.Int.{ℤ, abs_diff}

pub record ReplayGuard : Type 0 where
  pub max_age_seconds : ℕ
  pub capacity : ℕ
  -- the `OrderedDict`, oldest first
  pub seen : Dict ℤ

-- `True`, and the two messages of `ReplayError`.
pub data Verdict : Type 0 where
  accepted stale replayed : Verdict

-- `while len(seen) > capacity: seen.popitem(last=False)`
unfoldable pub trim : ℕ → Dict ℤ → Dict ℤ
trim capacity [] = []
trim capacity (e ∷ d) =
    let shorter = trim capacity d in if ltb capacity (length (e ∷ d)) then shorter else e ∷ d

unfoldable pub check : String → ℤ → ℤ → ReplayGuard → Verdict × ReplayGuard
unfolding trim
check nonce timestamp now g =
    if ltb g.max_age_seconds (abs_diff now timestamp)
    then (stale, g)
    else if has_key nonce g.seen
    then (replayed, g)
    else (accepted, record g { seen = trim g.capacity (insert nonce timestamp g.seen) })
