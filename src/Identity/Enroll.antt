-- ===== src/Identity/Enroll.antt =====
-- Invitations, enrollment and the password of an account, of app/user_identity.py. The identifiers
-- that the eight rounds of `enroll` draw are a list, taken up to the eighth.
use sara_omega.Prelude.{
  ℕ, ◌+◌, zero, suc, String, Bool, false, not, ◌||◌, List, [], ◌∷◌, ◌++◌, Option, none, some, any,
  find, update_where, leb, str_eq, if◌then◌else◌,
}
use sara_omega.Prelude.Spent.{is_open}
use sara_omega.Prelude.Attempt.{Attempt, returned, raised, ◌>>=◌}
use sara_omega.Identity.{
  User, AccountRecord, Invite, IdentityStore, Hashes, token_hash, row_to_account, is_user,
  has_public_id, is_invite,
}
use sara_omega.Prelude.Text.{append}
use sara_omega.Identity.Clients.{Url, validated_base_url}
use sara_omega.Identity.Password.{validate_password}

abbrev pub with_invites : List Invite → IdentityStore → IdentityStore
with_invites invites s = record {
  users = s.users;
  enrollment_invites = invites;
  oauth_codes = s.oauth_codes;
  oauth_tokens = s.oauth_tokens;
  auth_failures = s.auth_failures;
}

pub record InvitationRecord : Type 0 where
  pub token : String
  pub enrollment_id : String
  pub enrollment_url : String
  pub expires_at : ℕ

unfoldable pub invite_at :
    Hashes
    → Attempt String
    → String
    → String
    → ℕ
    → ℕ
    → IdentityStore
    → Attempt InvitationRecord × IdentityStore
unfolding append
invite_at h (raised e) enrollment_id token ttl now s = (raised e, s)
invite_at h (returned base) enrollment_id token ttl now s =
    if any (is_invite (token_hash h token)) s.enrollment_invites
    then (raised "IdentityStoreError", s)
    else (
      returned (record {
        token = token;
        enrollment_id = enrollment_id;
        enrollment_url = append base (append "/enroll/" token);
        expires_at = now + ttl;
      }),
      with_invites
          (s.enrollment_invites
            ++ record {
              token_hash = token_hash h token;
              enrollment_id_hash = h.enrollment_hash enrollment_id;
              expires_at = now + ttl;
              consumed_at = none;
              user_uuid = none;
              created_at = now;
            }
              ∷ [])
          s,
    )

-- A time to live is not negative.
unfoldable pub create_invitation :
    Hashes
    → (String → Url)
    → String
    → String
    → String
    → ℕ
    → ℕ
    → IdentityStore
    → Attempt InvitationRecord × IdentityStore
unfolding invite_at validated_base_url
create_invitation h urlsplit base_url enrollment_id token ttl now s =
    invite_at h (validated_base_url urlsplit base_url) enrollment_id token ttl now s

-- A row of that id or public id: the `INSERT` into `users` fails.
abbrev pub is_taken : String → String → List User → Bool
is_taken uuid public_id users = any (is_user uuid) users || any (has_public_id public_id) users

abbrev pub new_user : String → String → String → ℕ → User
new_user password_hash uuid public_id now = record {
  user_uuid = uuid;
  public_user_id = public_id;
  password_hash = password_hash;
  status = "ACTIVE";
  created_at = now;
  updated_at = now;
}

-- The rounds that are left, over the pairs of identifiers that they draw: the new row.
unfoldable pub first_free : ℕ → List (String × String) → String → ℕ → List User → Option User
first_free zero drawn password_hash now users = none
first_free (suc rounds) [] password_hash now users = none
first_free (suc rounds) (d ∷ drawn) password_hash now users =
    let later = first_free rounds drawn password_hash now users in
    if is_taken d.0 d.1 users then later else some (new_user password_hash d.0 d.1 now)

abbrev pub consume_invite : String → ℕ → Invite → Invite
consume_invite uuid now i = record {
  token_hash = i.token_hash;
  enrollment_id_hash = i.enrollment_id_hash;
  expires_at = i.expires_at;
  consumed_at = some now;
  user_uuid = some uuid;
  created_at = i.created_at;
}

abbrev pub is_open_invite : String → Invite → Bool
is_open_invite hash i = if str_eq i.token_hash hash then is_open i.consumed_at else false

-- The account's row is written and the invitation consumed.
unfoldable pub enrolled :
    String → Option User → ℕ → IdentityStore → Attempt AccountRecord × IdentityStore
enrolled hash none now s = (raised "IdentityStoreError", s)
enrolled hash (some u) now s =
    if any (is_open_invite hash) s.enrollment_invites
    then (
      returned (row_to_account u),
      record {
        users = s.users ++ u ∷ [];
        enrollment_invites =
            update_where (is_open_invite hash) (consume_invite u.user_uuid now)
              s.enrollment_invites;
        oauth_codes = s.oauth_codes;
        oauth_tokens = s.oauth_tokens;
        auth_failures = s.auth_failures;
      },
    )
    else (raised "EnrollmentRejected", s)

unfoldable pub check_invite : Hashes → String → ℕ → Option Invite → Attempt (Unit {0})
check_invite h enrollment_id now none = raised "EnrollmentRejected"
check_invite h enrollment_id now (some i) =
    if not (is_open i.consumed_at)
    then raised "EnrollmentRejected"
    else if not (str_eq i.enrollment_id_hash (h.enrollment_hash enrollment_id))
    then raised "EnrollmentRejected"
    else if leb i.expires_at now
    then raised "EnrollmentRejected"
    else returned tt

abbrev pub enroll_checked :
    Attempt (Unit {0})
    → Attempt AccountRecord × IdentityStore
    → IdentityStore
    → Attempt AccountRecord × IdentityStore
enroll_checked (returned u) done s = done
enroll_checked (raised e) done s = (raised e, s)

unfoldable pub enroll :
    Hashes
    → String
    → String
    → String
    → String
    → List (String × String)
    → ℕ
    → IdentityStore
    → Attempt AccountRecord × IdentityStore
unfolding validate_password check_invite first_free enrolled
enroll h invite_token enrollment_id password password_confirm drawn now s =
    let hash = token_hash h invite_token in
    let invite = find (is_invite hash) s.enrollment_invites in
    enroll_checked
      (validate_password password password_confirm >>= λ _. check_invite h enrollment_id now invite)
      (enrolled hash (first_free 8 drawn (h.password_hash password) now s.users) now s) s

abbrev pub authenticate_row : Hashes → String → Option User → Attempt AccountRecord
authenticate_row h password none = raised "EnrollmentRejected"
authenticate_row h password (some u) =
    if not (str_eq u.status "ACTIVE")
    then raised "EnrollmentRejected"
    else if not (h.verify_password_hash password u.password_hash)
    then raised "EnrollmentRejected"
    else returned (row_to_account u)

unfoldable pub authenticate_password :
    Hashes → String → String → String → IdentityStore → Attempt AccountRecord
authenticate_password h enrollment_id public_user_id password s =
    if str_eq public_user_id "" || str_eq password "" || str_eq public_user_id enrollment_id
    then raised "EnrollmentRejected"
    else authenticate_row h password (find (has_public_id public_user_id) s.users)
