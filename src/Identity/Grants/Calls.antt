-- ===== src/Identity/Grants/Calls.antt =====
-- Every call of app/user_identity.py leaves each token one that descends from a code.
use sara_omega.Prelude.{
  ℕ, String, not, ◌||◌, List, [], ◌∷◌, ◌++◌, Option, none, some, any, find, any-append, str_eq,
}
use sara_omega.Prelude.Attempt.{Attempt, returned, raised, ◌>>=◌}
use sara_omega.Identity.{
  User, AccountRecord, IdentityStore, Hashes, is_invite, is_code, has_public_id, token_hash,
  auth_subject_hash,
}
use sara_omega.Identity.Clients.{validated_base_url, Url, OauthConfiguration, oauth_configuration}
use sara_omega.Identity.Requests.{validate_client_credentials, validate_authorization_request}
use sara_omega.Identity.Enroll.{
  invite_at, create_invitation, enroll, enrolled, enroll_checked, is_open_invite, first_free,
  check_invite,
}
use sara_omega.Identity.Password.{validate_password}
use sara_omega.Identity.Tokens.{
  issue_authorization_code, exchange_authorization_code, refresh_access_token, revoke_token,
  issue_with, revoke_with,
}
use sara_omega.Identity.Rows.{with_codes, new_code, user_active}
use sara_omega.Identity.Lockout.{
  LockoutValues, authenticate_for_oauth, settle_login, verified_row, is_locked, record_auth_failure,
  clear_auth_failures,
}
use sara_omega.Identity.Calls.{
  Call, invite, enroll_with, issue, exchange, refresh, login, perform, perform_all,
}
use sara_omega.Identity.Grants.{
  is_parent_code, IsGranted, codes_mono, revoked-IsGranted, IsGranted-if,
}
use sara_omega.Identity.Grants.Pairs.{exchange_with-IsGranted, refresh_with-IsGranted}

module _ (h : Hashes) where
  issue_with-IsGranted :
      (scope : Attempt String) (config : Attempt OauthConfiguration)
      (uuid client redirect code : String) (now : ℕ) (s : IdentityStore)
      → IsGranted s
      → IsGranted (issue_with h scope config uuid client redirect code now s).1
  unfolding issue_with
  issue_with-IsGranted (raised e) config uuid client redirect code now s g = g
  issue_with-IsGranted (returned scope) (raised e) uuid client redirect code now s g = g
  issue_with-IsGranted (returned scope) (returned config) uuid client redirect code now s g =
      let row = new_code h code uuid client redirect scope config.code_ttl_seconds now in
      IsGranted-if (not (user_active uuid s)) (raised "OAuthRejected", s) _ g
        (IsGranted-if (any (is_code (token_hash h code)) s.oauth_codes)
          (raised "IdentityStoreError", s) (returned code, with_codes (s.oauth_codes ++ row ∷ []) s)
          g
          (codes_mono s (s.oauth_codes ++ row ∷ [])
            (λ t q. any-append (is_parent_code t) s.oauth_codes (row ∷ []) q) g))

  revoke_with-IsGranted :
      (config : Attempt OauthConfiguration) (token client : String) (now : ℕ) (s : IdentityStore)
      → IsGranted s
      → IsGranted (revoke_with h config token client now s).1
  unfolding revoke_with
  revoke_with-IsGranted (raised e) token client now s g = g
  revoke_with-IsGranted (returned config) token client now s g = revoked-IsGranted _ now s g

  create-IsGranted :
      (base : Attempt String) (id token : String) (ttl now : ℕ) (s : IdentityStore)
      → IsGranted s
      → IsGranted (invite_at h base id token ttl now s).1
  unfolding invite_at
  create-IsGranted (raised e) id token ttl now s g = g
  create-IsGranted (returned base) id token ttl now s g =
      IsGranted-if (any (is_invite (token_hash h token)) s.enrollment_invites)
        (raised "IdentityStoreError", s) _ g g

  enrolled-IsGranted :
      (hash : String) (o : Option User) (now : ℕ) (s : IdentityStore)
      → IsGranted s
      → IsGranted (enrolled hash o now s).1
  unfolding enrolled
  enrolled-IsGranted hash none now s g = g
  enrolled-IsGranted hash (some u) now s g =
      IsGranted-if (any (is_open_invite hash) s.enrollment_invites) _
        (raised "EnrollmentRejected", s) g g

  checked-IsGranted :
      (a : Attempt (Unit {0})) (x : Attempt AccountRecord × IdentityStore) (s : IdentityStore)
      → IsGranted s
      → IsGranted x.1
      → IsGranted (enroll_checked a x s).1
  checked-IsGranted (returned u) x s g p = p
  checked-IsGranted (raised e) x s g p = g

  settled-IsGranted :
      (v : LockoutValues) (subject : String) (now : ℕ) (o : Option User) (s : IdentityStore)
      → IsGranted s
      → IsGranted (settle_login h v subject now o s).1
  unfolding settle_login record_auth_failure clear_auth_failures
  settled-IsGranted v subject now none s g = g
  settled-IsGranted v subject now (some u) s g = g

  login-IsGranted :
      (v : LockoutValues) (enrollment_id id password : String) (now : ℕ) (s : IdentityStore)
      → IsGranted s
      → IsGranted (authenticate_for_oauth h v enrollment_id id password now s).1
  unfolding authenticate_for_oauth
  login-IsGranted v enrollment_id id password now s g =
      let o = verified_row h v password (find (has_public_id id) s.users) in
      IsGranted-if (str_eq id "" || str_eq password "" || str_eq id enrollment_id)
        (raised "OAuthRejected", s) _ g
        (IsGranted-if (is_locked (auth_subject_hash h id) now s) (raised "OAuthRejected", s)
          (settle_login h v (auth_subject_hash h id) now o s) g
          (settled-IsGranted v (auth_subject_hash h id) now o s g))

  module _ (urlsplit : String → Url) where
    perform-IsGranted :
        (c : Call) (s : IdentityStore) → IsGranted s → IsGranted (perform h urlsplit c s)
    unfolding perform create_invitation enroll issue_authorization_code exchange_authorization_code
        refresh_access_token revoke_token
    perform-IsGranted (invite base id token ttl now) s g =
        create-IsGranted (validated_base_url urlsplit base) id token ttl now s g
    perform-IsGranted (enroll_with token id password confirm drawn now) s g =
        let hash = token_hash h token in
        let free = first_free 8 drawn (h.password_hash password) now s.users in
        let checks = validate_password password confirm >>= λ _.
        check_invite h id now (find (is_invite hash) s.enrollment_invites) in
        checked-IsGranted checks (enrolled hash free now s) s g
          (enrolled-IsGranted hash free now s g)
    perform-IsGranted (issue env uuid client redirect scope code now) s g =
        issue_with-IsGranted
          (validate_authorization_request urlsplit env client redirect "code" scope)
          (oauth_configuration urlsplit env) uuid client redirect code now s g
    perform-IsGranted (exchange env code client secret redirect drawn now) s g =
        exchange_with-IsGranted h (validate_client_credentials urlsplit env client secret) code
          client redirect drawn now s g
    perform-IsGranted (refresh env token client secret drawn now) s g =
        refresh_with-IsGranted h (validate_client_credentials urlsplit env client secret) token
          client drawn now s g
    perform-IsGranted (Call.revoke env token client secret now) s g =
        revoke_with-IsGranted (validate_client_credentials urlsplit env client secret) token client
          now s g
    perform-IsGranted (login v id user password now) s g =
        login-IsGranted v id user password now s g

    -- Whatever calls are made on a store where each token descends from an authorization code, each
    -- does afterwards: its parent is a used code of the same user, client and scope, or a revoked
    -- refresh token of these in the store, which descends from a code itself.
    pub perform_all-IsGranted :
        (cs : List Call) (s : IdentityStore) → IsGranted s → IsGranted (perform_all h urlsplit cs s)
    unfolding perform_all
    perform_all-IsGranted [] s g = g
    perform_all-IsGranted (c ∷ cs) s g =
        perform_all-IsGranted cs (perform h urlsplit c s) (perform-IsGranted c s g)
