-- ===== src/Identity/Requests.antt =====
-- The credentials of an OAuth client of app/user_identity.py, and what an authorization request may
-- ask for.
use sara_omega.Prelude.{
  String, not, ◌||◌, List, Option, none, some, all, member, is_empty, str_eq, if◌then◌else◌,
}
use sara_omega.Prelude.Text.{strip, split_text, join, sorted_set}
use sara_omega.Prelude.Attempt.{Attempt, returned, raised, ◌>>=◌}
use sara_omega.Identity.Clients.{
  Url, OauthClientEntry, OauthConfiguration, OauthEnvironment, find_client, oauth_configuration,
}

module _ (urlsplit : String → Url) where
  abbrev pub for_client : OauthConfiguration → OauthClientEntry → OauthConfiguration
  for_client config e = record {
    client_id = e.client_id;
    client_secret = e.client_secret;
    redirect_uris = e.redirect_uris;
    scopes = e.scopes;
    code_ttl_seconds = config.code_ttl_seconds;
    access_ttl_seconds = config.access_ttl_seconds;
    refresh_ttl_seconds = config.refresh_ttl_seconds;
    clients = config.clients;
  }

  abbrev pub with_secret :
      OauthConfiguration → String → Option OauthClientEntry → Attempt OauthConfiguration
  with_secret config secret none = raised "OAuthRejected"
  with_secret config secret (some e) =
      if str_eq secret e.client_secret
      then returned (for_client config e)
      else raised "OAuthRejected"

  -- `_validate_client_credentials`
  unfoldable pub validate_client_credentials :
      OauthEnvironment → String → String → Attempt OauthConfiguration
  unfolding oauth_configuration find_client
  validate_client_credentials env client_id client_secret = do
    config ← oauth_configuration urlsplit env
    with_secret config client_secret (find_client client_id config.clients)

  abbrev pub requested_scopes : String → List String → List String
  requested_scopes scope known =
      if str_eq (strip scope) "" then known else sorted_set (split_text scope)

  -- What a client may ask for.
  unfoldable pub validate_for : String → String → String → Option OauthClientEntry → Attempt String
  unfolding strip sorted_set split_text join
  validate_for redirect_uri response_type scope none = raised "OAuthRejected"
  validate_for redirect_uri response_type scope (some e) =
      let requested = requested_scopes scope e.scopes in
      if not (member redirect_uri e.redirect_uris)
      then raised "OAuthRejected"
      else if not (str_eq response_type "code")
      then raised "OAuthRejected"
      else if is_empty requested || not (all (λ s. member s e.scopes) requested)
      then raised "OAuthRejected"
      else returned (join " " requested)

  unfoldable pub validate_authorization_request :
      OauthEnvironment → String → String → String → String → Attempt String
  unfolding oauth_configuration find_client validate_for
  validate_authorization_request env client_id redirect_uri response_type scope = do
    config ← oauth_configuration urlsplit env
    validate_for redirect_uri response_type scope (find_client client_id config.clients)
