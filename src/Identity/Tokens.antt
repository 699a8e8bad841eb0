-- ===== src/Identity/Tokens.antt =====
-- The authorization codes and the tokens of app/user_identity.py. A call that raises has rolled its
-- transaction back.
use sara_omega.Prelude.{
  ℕ, String, false, not, ◌||◌, [], ◌∷◌, ◌++◌, Option, none, some, any, find, member, leb, str_eq,
  if◌then◌else◌,
}
use sara_omega.Prelude.Attempt.{Attempt, returned, raised}
use sara_omega.Identity.{
  User, OauthCode, OauthToken, IdentityStore, Hashes, token_hash, client_id_hash, redirect_uri_hash,
  is_user, is_code, is_token,
}
use sara_omega.Prelude.Spent.{is_open}
use sara_omega.Identity.Clients.{Url, OauthConfiguration, OauthEnvironment, oauth_configuration}
use sara_omega.Identity.Requests.{validate_client_credentials, validate_authorization_request}
use sara_omega.Identity.Rows.{
  OauthTokenBundle, OauthPrincipal, Drawn, with_codes, user_active, new_code, insert_token_pair,
  consume_code, is_open_token, revoke_where,
}

module _ (h : Hashes) where
  -- The checks of the row of a code. That it is consumed is tested again by the `UPDATE`, whose
  -- row count is 1, since the hash is the table's key.
  unfoldable pub check_code :
      String → String → ℕ → Option OauthCode → IdentityStore → Attempt OauthCode
  check_code client_id redirect_uri now none s = raised "OAuthRejected"
  check_code client_id redirect_uri now (some c) s =
      if not (is_open c.consumed_at)
      then raised "OAuthRejected"
      else if leb c.expires_at now
      then raised "OAuthRejected"
      else if not (str_eq c.client_id_hash (client_id_hash h client_id))
      then raised "OAuthRejected"
      else if not (str_eq c.redirect_uri_hash (redirect_uri_hash h redirect_uri))
      then raised "OAuthRejected"
      else if not (user_active c.user_uuid s)
      then raised "OAuthRejected"
      else returned c

  unfoldable pub check_refresh : String → ℕ → Option OauthToken → IdentityStore → Attempt OauthToken
  check_refresh client_id now none s = raised "OAuthRejected"
  check_refresh client_id now (some t) s =
      if not (str_eq t.token_type "REFRESH") || not (is_open t.revoked_at)
      then raised "OAuthRejected"
      else if leb t.expires_at now
      then raised "OAuthRejected"
      else if not (str_eq t.client_id_hash (client_id_hash h client_id))
      then raised "OAuthRejected"
      else if not (user_active t.user_uuid s)
      then raised "OAuthRejected"
      else returned t

  unfoldable pub exchanged :
      OauthConfiguration
      → String
      → Drawn
      → ℕ
      → Attempt OauthCode
      → IdentityStore
      → Attempt OauthTokenBundle × IdentityStore
  unfolding insert_token_pair
  exchanged config client_id drawn now (raised e) s = (raised e, s)
  exchanged config client_id drawn now (returned c) s =
      insert_token_pair h config c.user_uuid client_id c.scope c.code_hash drawn now s
        (consume_code c.code_hash now s)

  unfoldable pub refreshed :
      OauthConfiguration
      → String
      → Drawn
      → ℕ
      → Attempt OauthToken
      → IdentityStore
      → Attempt OauthTokenBundle × IdentityStore
  unfolding insert_token_pair
  refreshed config client_id drawn now (raised e) s = (raised e, s)
  refreshed config client_id drawn now (returned t) s =
      insert_token_pair h config t.user_uuid client_id t.scope t.token_hash drawn now s
        (revoke_where (is_open_token t.token_hash) now s)

  unfoldable pub exchange_with :
      Attempt OauthConfiguration
      → String
      → String
      → String
      → Drawn
      → ℕ
      → IdentityStore
      → Attempt OauthTokenBundle × IdentityStore
  unfolding exchanged check_code
  exchange_with (raised e) code client_id redirect_uri drawn now s = (raised e, s)
  exchange_with (returned config) code client_id redirect_uri drawn now s =
      if not (member redirect_uri config.redirect_uris)
      then (raised "OAuthRejected", s)
      else exchanged config client_id drawn now
          (check_code client_id redirect_uri now (find (is_code (token_hash h code)) s.oauth_codes)
            s)
          s

  unfoldable pub refresh_with :
      Attempt OauthConfiguration
      → String
      → String
      → Drawn
      → ℕ
      → IdentityStore
      → Attempt OauthTokenBundle × IdentityStore
  unfolding refreshed check_refresh
  refresh_with (raised e) refresh_token client_id drawn now s = (raised e, s)
  refresh_with (returned config) refresh_token client_id drawn now s =
      refreshed config client_id drawn now
        (check_refresh client_id now (find (is_token (token_hash h refresh_token)) s.oauth_tokens)
          s)
        s

  unfoldable pub issue_with :
      Attempt String
      → Attempt OauthConfiguration
      → String
      → String
      → String
      → String
      → ℕ
      → IdentityStore
      → Attempt String × IdentityStore
  issue_with (raised e) config user_uuid client_id redirect_uri code now s = (raised e, s)
  issue_with (returned scope) (raised e) user_uuid client_id redirect_uri code now s = (raised e, s)
  issue_with (returned scope) (returned config) user_uuid client_id redirect_uri code now s =
      if not (user_active user_uuid s)
      then (raised "OAuthRejected", s)
      else if any (is_code (token_hash h code)) s.oauth_codes
      then (raised "IdentityStoreError", s)
      else (
        returned code,
        with_codes
            (s.oauth_codes
              ++ new_code h code user_uuid client_id redirect_uri scope config.code_ttl_seconds now
                ∷ [])
            s,
      )

  unfoldable pub revoke_with :
      Attempt OauthConfiguration
      → String
      → String
      → ℕ
      → IdentityStore
      → Attempt (Unit {0}) × IdentityStore
  revoke_with (raised e) token client_id now s = (raised e, s)
  revoke_with (returned config) token client_id now s = (
    returned tt,
    revoke_where
        (λ t.
          if is_open_token (token_hash h token) t
          then str_eq t.client_id_hash (client_id_hash h client_id)
          else false)
        now s,
  )

  module _ (urlsplit : String → Url) (env : OauthEnvironment) where
    unfoldable pub issue_authorization_code :
        String
        → String
        → String
        → String
        → String
        → ℕ
        → IdentityStore
        → Attempt String × IdentityStore
    unfolding issue_with validate_authorization_request oauth_configuration
    issue_authorization_code user_uuid client_id redirect_uri scope code now s =
        issue_with (validate_authorization_request urlsplit env client_id redirect_uri "code" scope)
          (oauth_configuration urlsplit env) user_uuid client_id redirect_uri code now s

    unfoldable pub exchange_authorization_code :
        String
        → String
        → String
        → String
        → Drawn
        → ℕ
        → IdentityStore
        → Attempt OauthTokenBundle × IdentityStore
    unfolding exchange_with validate_client_credentials
    exchange_authorization_code code client_id client_secret redirect_uri drawn now s =
        exchange_with (validate_client_credentials urlsplit env client_id client_secret) code
          client_id redirect_uri drawn now s

    unfoldable pub refresh_access_token :
        String
        → String
        → String
        → Drawn
        → ℕ
        → IdentityStore
        → Attempt OauthTokenBundle × IdentityStore
    unfolding refresh_with validate_client_credentials
    refresh_access_token refresh_token client_id client_secret drawn now s =
        refresh_with (validate_client_credentials urlsplit env client_id client_secret)
          refresh_token client_id drawn now s

    unfoldable pub revoke_token :
        String → String → String → ℕ → IdentityStore → Attempt (Unit {0}) × IdentityStore
    unfolding revoke_with validate_client_credentials
    revoke_token token client_id client_secret now s =
        revoke_with (validate_client_credentials urlsplit env client_id client_secret) token
          client_id now s

  abbrev pub principal : ℕ → OauthToken → Option User → Attempt OauthPrincipal
  principal now t none = raised "OAuthRejected"
  principal now t (some u) =
      if not (str_eq t.token_type "ACCESS") || not (is_open t.revoked_at)
      then raised "OAuthRejected"
      else if leb t.expires_at now || not (str_eq u.status "ACTIVE")
      then raised "OAuthRejected"
      else returned
          (record { user_uuid = t.user_uuid; public_user_id = u.public_user_id; scope = t.scope })

  abbrev pub resolve_row : ℕ → Option OauthToken → IdentityStore → Attempt OauthPrincipal
  resolve_row now none s = raised "OAuthRejected"
  resolve_row now (some t) s = principal now t (find (is_user t.user_uuid) s.users)

  unfoldable pub resolve_access_token : String → ℕ → IdentityStore → Attempt OauthPrincipal
  resolve_access_token access_token now s =
      resolve_row now (find (is_token (token_hash h access_token)) s.oauth_tokens) s
