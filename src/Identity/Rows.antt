-- ===== src/Identity/Rows.antt =====
-- The statements of app/user_identity.py that write the tables of codes and tokens.
use sara_omega.Prelude.{
  ℕ, ◌+◌, String, Bool, false, ◌||◌, List, [], ◌∷◌, ◌++◌, Option, none, some, any, find,
  update_where, str_eq, if◌then◌else◌,
}
use sara_omega.Prelude.Attempt.{Attempt, returned, raised}
use sara_omega.Identity.{
  User, OauthCode, OauthToken, IdentityStore, Hashes, token_hash, client_id_hash, redirect_uri_hash,
  is_user, is_token,
}
use sara_omega.Prelude.Spent.{is_open}
use sara_omega.Identity.Clients.{OauthConfiguration}

pub record OauthTokenBundle : Type 0 where
  pub access_token : String
  pub refresh_token : String
  pub token_type : String
  pub expires_in : ℕ
  pub scope : String

pub record OauthPrincipal : Type 0 where
  pub user_uuid : String
  pub public_user_id : String
  pub scope : String

-- The two texts that `token_urlsafe` draws for a pair of tokens.
pub record Drawn : Type 0 where
  pub access_token : String
  pub refresh_token : String

abbrev pub with_codes : List OauthCode → IdentityStore → IdentityStore
with_codes rows s = record {
  users = s.users;
  enrollment_invites = s.enrollment_invites;
  oauth_codes = rows;
  oauth_tokens = s.oauth_tokens;
  auth_failures = s.auth_failures;
}

abbrev pub with_tokens : List OauthToken → IdentityStore → IdentityStore
with_tokens rows s = record {
  users = s.users;
  enrollment_invites = s.enrollment_invites;
  oauth_codes = s.oauth_codes;
  oauth_tokens = rows;
  auth_failures = s.auth_failures;
}

-- `user is not None and user["status"] == "ACTIVE"`
abbrev pub is_active : Option User → Bool
is_active none = false
is_active (some u) = str_eq u.status "ACTIVE"

abbrev pub user_active : String → IdentityStore → Bool
user_active uuid s = is_active (find (is_user uuid) s.users)

abbrev pub new_code : Hashes → String → String → String → String → String → ℕ → ℕ → OauthCode
new_code h code user_uuid client_id redirect_uri scope ttl now = record {
  code_hash = token_hash h code;
  user_uuid = user_uuid;
  client_id_hash = client_id_hash h client_id;
  redirect_uri_hash = redirect_uri_hash h redirect_uri;
  scope = scope;
  expires_at = now + ttl;
  consumed_at = none;
  created_at = now;
}

-- A pair of tokens with one parent
abbrev pub new_token :
    Hashes → String → String → String → String → String → String → ℕ → ℕ → OauthToken
new_token h token token_type user_uuid client_id scope parent ttl now = record {
  token_hash = token_hash h token;
  token_type = token_type;
  user_uuid = user_uuid;
  client_id_hash = client_id_hash h client_id;
  scope = scope;
  expires_at = now + ttl;
  revoked_at = none;
  parent_hash = some parent;
  created_at = now;
}

abbrev pub new_pair :
    Hashes → OauthConfiguration → String → String → String → String → Drawn → ℕ → List OauthToken
new_pair h config user_uuid client_id scope parent drawn now =
    new_token h drawn.access_token "ACCESS" user_uuid client_id scope parent
      config.access_ttl_seconds now
    ∷ new_token h drawn.refresh_token "REFRESH" user_uuid client_id scope parent
        config.refresh_ttl_seconds now
    ∷ []

abbrev pub new_bundle : OauthConfiguration → String → Drawn → OauthTokenBundle
new_bundle config scope drawn = record {
  access_token = drawn.access_token;
  refresh_token = drawn.refresh_token;
  token_type = "Bearer";
  expires_in = config.access_ttl_seconds;
  scope = scope;
}

-- `_insert_token_pair`, in a transaction that began at `before`: a row of that hash fails it.
unfoldable pub insert_token_pair :
    Hashes
    → OauthConfiguration
    → String
    → String
    → String
    → String
    → Drawn
    → ℕ
    → IdentityStore
    → IdentityStore
    → Attempt OauthTokenBundle × IdentityStore
insert_token_pair h config user_uuid client_id scope parent drawn now before s =
    if any (is_token (token_hash h drawn.access_token)) s.oauth_tokens
      || any (is_token (token_hash h drawn.refresh_token)) s.oauth_tokens
      || str_eq (token_hash h drawn.access_token) (token_hash h drawn.refresh_token)
    then (raised "IdentityStoreError", before)
    else (
      returned (new_bundle config scope drawn),
      with_tokens (s.oauth_tokens ++ new_pair h config user_uuid client_id scope parent drawn now)
          s,
    )

abbrev pub is_open_code : String → OauthCode → Bool
is_open_code hash c = if str_eq c.code_hash hash then is_open c.consumed_at else false

abbrev pub consume : ℕ → OauthCode → OauthCode
consume now c = record {
  code_hash = c.code_hash;
  user_uuid = c.user_uuid;
  client_id_hash = c.client_id_hash;
  redirect_uri_hash = c.redirect_uri_hash;
  scope = c.scope;
  expires_at = c.expires_at;
  consumed_at = some now;
  created_at = c.created_at;
}

-- The `UPDATE` of `oauth_codes`
abbrev pub consume_code : String → ℕ → IdentityStore → IdentityStore
consume_code hash now s =
    with_codes (update_where (is_open_code hash) (consume now) s.oauth_codes) s

abbrev pub is_open_token : String → OauthToken → Bool
is_open_token hash t = if str_eq t.token_hash hash then is_open t.revoked_at else false

abbrev pub revoke : ℕ → OauthToken → OauthToken
revoke now t = record {
  token_hash = t.token_hash;
  token_type = t.token_type;
  user_uuid = t.user_uuid;
  client_id_hash = t.client_id_hash;
  scope = t.scope;
  expires_at = t.expires_at;
  revoked_at = some now;
  parent_hash = t.parent_hash;
  created_at = t.created_at;
}

-- The `UPDATE` of `oauth_tokens`
abbrev pub revoke_where : (OauthToken → Bool) → ℕ → IdentityStore → IdentityStore
revoke_where p now s = with_tokens (update_where p (revoke now) s.oauth_tokens) s
