-- ===== src/Identity/Lockout.antt =====
-- The defence of the log-in of app/user_identity.py against guessing.
pub mod Locked
use sara_omega.Prelude.{
  ℕ, ◌+◌, String, Bool, true, false, not, ◌||◌, List, [], ◌∷◌, Option, none, some, find, ltb, leb,
  str_eq, if◌then◌else◌,
}
use sara_omega.Prelude.Dict.{Dict, lookup, insert, remove}
use sara_omega.Prelude.Attempt.{Attempt, returned, raised}
use sara_omega.Identity.{
  User, AccountRecord, AuthFailures, IdentityStore, Hashes, auth_subject_hash, row_to_account,
  has_public_id,
}

-- `_lockout_values`, each at least 1
pub record LockoutValues : Type 0 where
  pub maximum : ℕ
  pub window_seconds : ℕ
  pub lock_seconds : ℕ

abbrev pub with_failures : Dict AuthFailures → IdentityStore → IdentityStore
with_failures failures s = record {
  users = s.users;
  enrollment_invites = s.enrollment_invites;
  oauth_codes = s.oauth_codes;
  oauth_tokens = s.oauth_tokens;
  auth_failures = failures;
}

-- `_assert_not_locked` raises.
unfoldable pub is_locked : String → ℕ → IdentityStore → Bool
is_locked subject now s = elim (lookup subject s.auth_failures) [
  | none ↦ false
  | some f ↦ elim f.locked_until [ none ↦ false | some t ↦ ltb now t ]
]

-- The count and the start of the window, after one more failure.
unfoldable pub next_window : LockoutValues → ℕ → Option AuthFailures → ℕ × ℕ
next_window v now none = (1, now)
next_window v now (some f) =
    if ltb (f.window_started_at + v.window_seconds) now
    then (1, now)
    else (f.failure_count + 1, f.window_started_at)

abbrev pub failure_row : LockoutValues → ℕ → ℕ × ℕ → AuthFailures
failure_row v now w = record {
  failure_count = w.0;
  window_started_at = w.1;
  locked_until = if leb v.maximum w.0 then some (now + v.lock_seconds) else none;
  updated_at = now;
}

-- `_record_auth_failure`
unfoldable pub record_auth_failure : LockoutValues → String → ℕ → IdentityStore → IdentityStore
unfolding next_window
record_auth_failure v subject now s =
    with_failures
      (insert subject (failure_row v now (next_window v now (lookup subject s.auth_failures)))
        s.auth_failures)
      s

-- `_clear_auth_failures`
unfoldable pub clear_auth_failures : String → IdentityStore → IdentityStore
clear_auth_failures subject s = with_failures (remove subject s.auth_failures) s

module _ (h : Hashes) (v : LockoutValues) where
  -- The row of an active user with that password
  abbrev pub verified_row : String → Option User → Option User
  verified_row password none = none
  verified_row password (some u) =
      if str_eq u.status "ACTIVE"
      then (if h.verify_password_hash password u.password_hash then some u else none)
      else none

  unfoldable pub settle_login :
      String → ℕ → Option User → IdentityStore → Attempt AccountRecord × IdentityStore
  unfolding record_auth_failure clear_auth_failures
  settle_login subject now none s = (raised "OAuthRejected", record_auth_failure v subject now s)
  settle_login subject now (some u) s = (returned (row_to_account u), clear_auth_failures subject s)

  unfoldable pub authenticate_for_oauth :
      String → String → String → ℕ → IdentityStore → Attempt AccountRecord × IdentityStore
  unfolding is_locked settle_login
  authenticate_for_oauth enrollment_id public_user_id password now s =
      let subject = auth_subject_hash h public_user_id in
      if str_eq public_user_id "" || str_eq password "" || str_eq public_user_id enrollment_id
      then (raised "OAuthRejected", s)
      else if is_locked subject now s
      then (raised "OAuthRejected", s)
      else settle_login subject now
          (verified_row password (find (has_public_id public_user_id) s.users)) s
