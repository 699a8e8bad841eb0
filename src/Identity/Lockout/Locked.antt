-- ===== src/Identity/Lockout/Locked.antt =====
-- Failed log-ins of app/user_identity.py lock the account.
use mathlib.Core.Path.{subst}
use sara_omega.Prelude.{
  ℕ, ◌+◌, ◌<◌, ◌≤◌, String, ◌≡◌, ◌≢◌, refl, ap, sym, ◌∙◌, true, false, List, [], ◌∷◌, none, some,
  find, length, Every, ltb, leb, str_eq, eq_iff, if◌then◌else◌, arith,
}
use sara_omega.Prelude.Dict.{lookup, lookup-insert}
use sara_omega.Prelude.Attempt.{raised}
use sara_omega.Identity.{
  User, AuthFailures, IdentityStore, Hashes, auth_subject_hash, has_public_id,
}
use sara_omega.Identity.Lockout.{
  LockoutValues, is_locked, next_window, failure_row, record_auth_failure, verified_row,
  settle_login, authenticate_for_oauth,
}

-- The time of the last attempt
abbrev pub last_time : ℕ → List (String × ℕ) → ℕ
last_time t [] = t
last_time t (a ∷ later) = last_time a.1 later

module _ (h : Hashes) (v : LockoutValues) (enrollment_id id : String) where
  abbrev subject : String
  subject = auth_subject_hash h id

  -- A password at a time.
  unfoldable pub login_all : List (String × ℕ) → IdentityStore → IdentityStore
  unfolding authenticate_for_oauth
  login_all [] s = s
  login_all (a ∷ later) s =
      login_all later (authenticate_for_oauth h v enrollment_id id a.0 a.1 s).1

  -- A wrong password, at a time in the window that began at `start`.
  pub record IsWrong (start : ℕ) (users : List User) (a : String × ℕ) : Type 0 where
    pub given : str_eq a.0 "" ≡ false
    pub unverified : verified_row h v a.0 (find (has_public_id id) users) ≡ none
    pub in_window : a.1 ≤ start + v.window_seconds

  -- The row of an account that has failed `count` times, the last time at `last`.
  record IsCounted (start count last : ℕ) (s : IdentityStore) : Type 0 where
    row : AuthFailures
    found : lookup subject s.auth_failures ≡ some row
    counted : row.failure_count ≡ count
    began : row.window_started_at ≡ start
    lock : row.locked_until ≡ (if leb v.maximum count then some (last + v.lock_seconds) else none)

  failed_login :
      (a : String × ℕ) (start : ℕ) (s : IdentityStore)
      → str_eq id "" ≡ false
      → str_eq id enrollment_id ≡ false
      → is_locked subject a.1 s ≡ false
      → IsWrong start s.users a
      → (authenticate_for_oauth h v enrollment_id id a.0 a.1 s).1
        ≡ record_auth_failure v subject a.1 s
  unfolding authenticate_for_oauth settle_login
  failed_login a start s named other free w = rw (named, w.given, other, free, w.unverified)

  recorded :
      (now : ℕ) (s : IdentityStore)
      → lookup subject (record_auth_failure v subject now s).auth_failures
        ≡ some (failure_row v now (next_window v now (lookup subject s.auth_failures)))
  unfolding record_auth_failure
  recorded now s =
      lookup-insert subject subject _ s.auth_failures ∙ rw ((eq_iff subject subject).1 refl)

  row-is_locked :
      (start count last now : ℕ) (s : IdentityStore)
      → IsCounted start count last s
      → is_locked subject now s
        ≡ (if leb v.maximum count then ltb now (last + v.lock_seconds) else false)
  unfolding is_locked
  row-is_locked start count last now s c = ground arith

  same_window :
      (now : ℕ) (r : AuthFailures)
      → now ≤ r.window_started_at + v.window_seconds
      → next_window v now (some r) ≡ (r.failure_count + 1, r.window_started_at)
  unfolding next_window
  same_window now r w = ground arith

  step-IsCounted :
      (a : String × ℕ) (start count last : ℕ) (s : IdentityStore)
      → IsCounted start count last s
      → a.1 ≤ start + v.window_seconds
      → IsCounted start (count + 1) a.1 (record_auth_failure v subject a.1 s)
  step-IsCounted a start count last s c w = record {
    row = failure_row v a.1 (c.row.failure_count + 1, c.row.window_started_at);
    found =
        recorded a.1 s
        ∙ ap (λ o. some (failure_row v a.1 (next_window v a.1 o))) c.found
        ∙ ap (λ w. some (failure_row v a.1 w)) (same_window a.1 c.row (rw c.began w));
    counted = ap (λ (n : ℕ). n + 1) c.counted;
    began = c.began;
    lock = rw c.counted refl;
  }

  login-IsCounted :
      (a : String × ℕ) (start count last : ℕ) (s : IdentityStore)
      → str_eq id "" ≡ false
      → str_eq id enrollment_id ≡ false
      → IsCounted start count last s
      → count < v.maximum
      → IsWrong start s.users a
      → IsCounted start (count + 1) a.1 (authenticate_for_oauth h v enrollment_id id a.0 a.1 s).1
        × ((authenticate_for_oauth h v enrollment_id id a.0 a.1 s).1.users ≡ s.users)
  unfolding record_auth_failure
  login-IsCounted a start count last s named other c few w =
      let free : is_locked subject a.1 s ≡ false =
        row-is_locked start count last a.1 s c ∙ ground arith in
      let same = failed_login a start s named other free w in
      (
        subst (λ t. IsCounted start (count + 1) a.1 t) (sym same)
            (step-IsCounted a start count last s c w.in_window),
        ap (λ (t : IdentityStore). t.users) same,
      )

  all-IsCounted :
      (attempts : List (String × ℕ)) (start count last : ℕ) (s : IdentityStore)
      → str_eq id "" ≡ false
      → str_eq id enrollment_id ≡ false
      → IsCounted start count last s
      → count + length attempts ≡ v.maximum
      → Every (IsWrong start s.users) attempts
      → IsCounted start v.maximum (last_time last attempts) (login_all attempts s)
  unfolding login_all
  all-IsCounted [] start count last s named other c n w =
      let same : count ≡ v.maximum = omega arith in subst (λ k. IsCounted start k last s) same c
  all-IsCounted (a ∷ later) start count last s named other c n w =
      let (next, users) = login-IsCounted a start count last s named other c (omega arith) w.0 in
      all-IsCounted later start (count + 1) a.1 _ named other next (omega arith)
        (subst (λ us. Every (IsWrong start us) later) (sym users) w.1)

  first-IsCounted :
      (a : String × ℕ) (s : IdentityStore)
      → lookup subject s.auth_failures ≡ none
      → IsCounted a.1 1 a.1 (record_auth_failure v subject a.1 s)
  unfolding next_window
  first-IsCounted a s fresh = record {
    row = failure_row v a.1 (1, a.1);
    found = recorded a.1 s ∙ ap (λ o. some (failure_row v a.1 (next_window v a.1 o))) fresh;
    counted = refl;
    began = refl;
    lock = refl;
  }

  fresh_unlocked :
      (now : ℕ) (s : IdentityStore)
      → lookup subject s.auth_failures ≡ none
      → is_locked subject now s ≡ false
  unfolding is_locked
  fresh_unlocked now s fresh = ground arith

  wrong_all-IsCounted :
      (a : String × ℕ) (later : List (String × ℕ)) (s : IdentityStore)
      → str_eq id "" ≡ false
      → str_eq id enrollment_id ≡ false
      → lookup subject s.auth_failures ≡ none
      → length (a ∷ later) ≡ v.maximum
      → Every (IsWrong a.1 s.users) (a ∷ later)
      → IsCounted a.1 v.maximum (last_time a.1 later) (login_all (a ∷ later) s)
  unfolding login_all record_auth_failure
  wrong_all-IsCounted a later s named other fresh n w =
      let same = failed_login a a.1 s named other (fresh_unlocked a.1 s fresh) w.0 in
      let next = subst (λ t. IsCounted a.1 1 a.1 t) (sym same) (first-IsCounted a s fresh) in
      let users = ap (λ (t : IdentityStore). t.users) same in
      all-IsCounted later a.1 1 a.1 _ named other next (omega arith)
        (subst (λ us. Every (IsWrong a.1 us) later) (sym users) w.1)

  -- After as many wrong passwords as the maximum, within one window, an account that had no failures
  -- is locked: until the lock's time is over, every log-in is refused, with the right password too,
  -- and changes nothing.
  pub wrong-locked :
      (a : String × ℕ) (later : List (String × ℕ)) (s : IdentityStore) (password : String) (now : ℕ)
      → id ≢ ""
      → id ≢ enrollment_id
      → lookup subject s.auth_failures ≡ none
      → length (a ∷ later) ≡ v.maximum
      → Every (IsWrong a.1 s.users) (a ∷ later)
      → now < last_time a.1 later + v.lock_seconds
      → authenticate_for_oauth h v enrollment_id id password now (login_all (a ∷ later) s)
        ≡ (raised "OAuthRejected", login_all (a ∷ later) s)
  unfolding authenticate_for_oauth
  wrong-locked a later s password now named other fresh n w soon =
      let given : str_eq id "" ≡ false = ground (arith, eq_iff id "") in
      let not_enrollment : str_eq id enrollment_id ≡ false =
        ground (arith, eq_iff id enrollment_id) in
      let locked : is_locked subject now (login_all (a ∷ later) s) ≡ true =
        row-is_locked a.1 v.maximum (last_time a.1 later) now (login_all (a ∷ later) s)
          (wrong_all-IsCounted a later s given not_enrollment fresh n w)
        ∙ ground arith in
      rw (given, not_enrollment, locked) (ground arith)
