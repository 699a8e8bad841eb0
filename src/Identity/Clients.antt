-- ===== src/Identity/Clients.antt =====
-- The OAuth clients of app/user_identity.py: their configuration, their credentials, and what an
-- authorization request may ask for. The environment is a record; a set of texts is the sorted list
-- of them; `urlsplit` is an argument.
use sara_omega.Prelude.{
  ℕ, String, Bool, not, ◌&&◌, ◌||◌, List, [], ◌∷◌, ◌++◌, Option, none, some, map, any, select,
  length, is_empty, ltb, ◌==◌, str_eq, if◌then◌else◌,
}
use sara_omega.Prelude.Int.{ℤ, pos, negsuc}
use sara_omega.Prelude.Text.{
  rstrip_slashes, strip, split_text, split_commas, join, len, any_char, sorted_set,
}
use sara_omega.Prelude.Attempt.{Attempt, returned, raised, ◌>>=◌}

-- What `urlsplit` returns.
pub record Url : Type 0 where
  pub scheme : String
  pub netloc : String
  pub username : String
  pub password : String
  pub query : String
  pub fragment : String

pub record OauthClientEntry : Type 0 where
  pub client_id : String
  pub client_secret : String
  pub redirect_uris : List String
  pub scopes : List String

pub record OauthConfiguration : Type 0 where
  pub client_id : String
  pub client_secret : String
  pub redirect_uris : List String
  pub scopes : List String
  pub code_ttl_seconds : ℕ
  pub access_ttl_seconds : ℕ
  pub refresh_ttl_seconds : ℕ
  pub clients : List OauthClientEntry

-- A JSON value: a list by the texts of its items, a text, or another.
pub data JsonTexts : Type 0 where
  texts : List String → JsonTexts
  text : String → JsonTexts
  other : JsonTexts

-- An item of `SARA_OAUTH_CLIENTS`: no object, or an object by what is read of it.
pub data ClientJson : Type 0 where
  no_object : ClientJson
  object : String → String → JsonTexts → JsonTexts → ClientJson

-- `SARA_OAUTH_CLIENTS`: not set, no list, or a list.
pub data ClientsJson : Type 0 where
  unset : ClientsJson
  no_list : ClientsJson
  items : List ClientJson → ClientsJson

-- The variables of the environment. A time to live is what `int` makes of its variable, or of the
-- default.
pub record OauthEnvironment : Type 0 where
  pub clients : ClientsJson
  pub client_id : String
  pub client_secret : String
  pub redirect_uris : String
  pub scope : String
  pub code_ttl : Option ℤ
  pub access_ttl : Option ℤ
  pub refresh_ttl : Option ℤ

abbrev pub positive : ℕ → Attempt ℕ
positive n = if n == 0 then raised "OAuthConfigurationError" else returned n

-- `_positive_int_env`
unfoldable pub positive_int_env : Option ℤ → Attempt ℕ
positive_int_env none = raised "OAuthConfigurationError"
positive_int_env (some (pos n)) = positive n
positive_int_env (some (negsuc n)) = raised "OAuthConfigurationError"

-- `find_client`: the last entry of that id.
unfoldable pub find_client : String → List OauthClientEntry → Option OauthClientEntry
find_client id [] = none
find_client id (e ∷ es) = elim (find_client id es) [
  | some later ↦ some later
  | none ↦ if str_eq e.client_id id then some e else none
]

module _ (urlsplit : String → Url) where
  unfoldable pub validated_base_url : String → Attempt String
  unfolding strip rstrip_slashes
  validated_base_url base_url =
      let normalized = rstrip_slashes (strip base_url) in
      let parsed = urlsplit normalized in
      if not (str_eq parsed.scheme "https")
        || str_eq parsed.netloc ""
        || not (str_eq parsed.username "")
        || not (str_eq parsed.password "")
      then raised "EnrollmentRejected"
      else if not (str_eq parsed.query "") || not (str_eq parsed.fragment "")
      then raised "EnrollmentRejected"
      else returned normalized

  -- `_validated_redirect_uri`
  unfoldable pub validated_redirect_uri : String → Attempt String
  unfolding strip any_char
  validated_redirect_uri value =
      let redirect = strip value in
      let parsed = urlsplit redirect in
      if not (str_eq parsed.scheme "https")
        || str_eq parsed.netloc ""
        || not (str_eq parsed.username "")
        || not (str_eq parsed.password "")
        || any_char (λ c. c == b'*') redirect
        || not (str_eq parsed.fragment "")
      then raised "OAuthConfigurationError"
      else returned redirect

  unfoldable pub validated_redirects : List String → Attempt (List String)
  unfolding validated_redirect_uri
  validated_redirects [] = returned []
  validated_redirects (u ∷ us) = do
    first ← validated_redirect_uri u
    later ← validated_redirects us
    returned (first ∷ later)

  abbrev pub is_repeated : List String → Bool
  is_repeated xs = not (length (sorted_set xs) == length xs)

  unfoldable pub check_redirects : List String → Attempt (List String)
  unfolding sorted_set
  check_redirects redirects =
      if is_empty redirects || is_repeated redirects
      then raised "OAuthConfigurationError"
      else returned redirects

  unfoldable pub check_scopes : List String → Attempt (List String)
  unfolding len
  check_scopes scopes =
      if is_empty scopes || ltb 16 (length scopes) || any (λ s. ltb 128 (len s)) scopes
      then raised "OAuthConfigurationError"
      else returned scopes

  abbrev pub is_given : String → Bool
  is_given item = not (str_eq (strip item) "")

  unfoldable pub check_identity : String → String → String → Attempt (Unit {0})
  unfolding strip len
  check_identity client_id client_secret redirect_raw =
      if str_eq client_id "" || str_eq client_secret "" || str_eq (strip redirect_raw) ""
      then raised "OAuthConfigurationError"
      else if ltb 256 (len client_id) || ltb (len client_secret) 20 || ltb 512 (len client_secret)
      then raised "OAuthConfigurationError"
      else returned tt

  -- `_build_client_entry`
  unfoldable pub build_client_entry : String → String → String → String → Attempt OauthClientEntry
  unfolding strip check_identity validated_redirects check_redirects check_scopes split_commas
      split_text sorted_set
  build_client_entry client_id client_secret redirect_raw scope_raw = do
    checked ← check_identity (strip client_id) (strip client_secret) redirect_raw
    redirects ← validated_redirects (select is_given (split_commas redirect_raw))
    distinct ← check_redirects redirects
    scopes ← check_scopes (sorted_set (split_text scope_raw))
    returned (record {
      client_id = strip client_id;
      client_secret = strip client_secret;
      redirect_uris = redirects;
      scopes = scopes;
    })

  -- `",".join(...)` of a list, or the text.
  unfoldable pub joined_text : String → JsonTexts → Attempt String
  unfolding join
  joined_text separator (texts ts) = returned (join separator ts)
  joined_text separator (text t) = returned t
  joined_text separator other = raised "OAuthConfigurationError"

  unfoldable pub parse_client : ClientJson → Attempt OauthClientEntry
  unfolding joined_text build_client_entry
  parse_client no_object = raised "OAuthConfigurationError"
  parse_client (object id secret redirects scope) = do
    redirect_raw ← joined_text "," redirects
    scope_raw ← joined_text " " scope
    build_client_entry id secret redirect_raw scope_raw

  unfoldable pub parse_clients : List ClientJson → Attempt (List OauthClientEntry)
  unfolding parse_client
  parse_clients [] = returned []
  parse_clients (c ∷ cs) = do
    first ← parse_client c
    later ← parse_clients cs
    returned (first ∷ later)

  -- `_parse_oauth_clients_env`, where the variable is set.
  unfoldable pub parse_oauth_clients_env : ClientsJson → Attempt (List OauthClientEntry)
  unfolding parse_clients
  parse_oauth_clients_env unset = returned []
  parse_oauth_clients_env no_list = raised "OAuthConfigurationError"
  parse_oauth_clients_env (items cs) =
      if is_empty cs || ltb 64 (length cs)
      then raised "OAuthConfigurationError"
      else parse_clients cs

  abbrev pub one_client : Attempt OauthClientEntry → Attempt (List OauthClientEntry)
  one_client (returned entry) = returned (entry ∷ [])
  one_client (raised e) = raised e

  -- The client of the older variables, where one of them is set.
  unfoldable pub legacy_client : OauthEnvironment → Attempt (List OauthClientEntry)
  unfolding strip build_client_entry
  legacy_client env =
      let id = strip env.client_id in
      let secret = strip env.client_secret in
      let redirects = strip env.redirect_uris in
      if str_eq id "" && str_eq secret "" && str_eq redirects ""
      then returned []
      else one_client (build_client_entry id secret redirects (strip env.scope))

  -- What `oauth_configuration` makes of the entries.
  unfoldable pub configured : List OauthClientEntry → ℕ → ℕ → ℕ → Attempt OauthConfiguration
  unfolding sorted_set
  configured [] code access refresh = raised "OAuthConfigurationError"
  configured (primary ∷ others) code access refresh =
      if is_repeated (map (λ (e : OauthClientEntry). e.client_id) (primary ∷ others))
      then raised "OAuthConfigurationError"
      else returned (record {
        client_id = primary.client_id;
        client_secret = primary.client_secret;
        redirect_uris = primary.redirect_uris;
        scopes = primary.scopes;
        code_ttl_seconds = code;
        access_ttl_seconds = access;
        refresh_ttl_seconds = refresh;
        clients = primary ∷ others;
      })

  unfoldable pub oauth_configuration : OauthEnvironment → Attempt OauthConfiguration
  unfolding parse_oauth_clients_env legacy_client positive_int_env configured
  oauth_configuration env = do
    several ← parse_oauth_clients_env env.clients
    legacy ← legacy_client env
    code ← positive_int_env env.code_ttl
    access ← positive_int_env env.access_ttl
    refresh ← positive_int_env env.refresh_ttl
    configured (several ++ legacy) code access refresh
