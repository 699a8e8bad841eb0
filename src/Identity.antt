-- ===== src/Identity.antt =====
-- `UserIdentityStore` of app/user_identity.py: its tables and their rows. A time is a whole number
-- of one clock, which stands still within a call; the texts of times are kept as the times. What the
-- standard library hashes is the record `Hashes`; a random value is an argument.
pub mod Clients
pub mod Password
pub mod Enroll
pub mod Requests
pub mod Rows
pub mod Tokens
pub mod Lockout
pub mod Kept
pub mod Calls
pub mod Grants
pub mod Spending
pub mod Replay
use sara_omega.Prelude.{ℕ, String, Bool, List, Option, str_eq}
use sara_omega.Prelude.Dict.{Dict}

pub record User : Type 0 where
  pub user_uuid : String
  pub public_user_id : String
  pub password_hash : String
  pub status : String
  pub created_at : ℕ
  pub updated_at : ℕ

pub record AccountRecord : Type 0 where
  pub user_uuid : String
  pub public_user_id : String
  pub status : String
  pub created_at : ℕ
  pub updated_at : ℕ

-- A row of `enrollment_invites`
pub record Invite : Type 0 where
  pub token_hash : String
  pub enrollment_id_hash : String
  pub expires_at : ℕ
  pub consumed_at : Option ℕ
  pub user_uuid : Option String
  pub created_at : ℕ

-- A row of `oauth_codes`
pub record OauthCode : Type 0 where
  pub code_hash : String
  pub user_uuid : String
  pub client_id_hash : String
  pub redirect_uri_hash : String
  pub scope : String
  pub expires_at : ℕ
  pub consumed_at : Option ℕ
  pub created_at : ℕ

-- A row of `oauth_tokens`
pub record OauthToken : Type 0 where
  pub token_hash : String
  pub token_type : String
  pub user_uuid : String
  pub client_id_hash : String
  pub scope : String
  pub expires_at : ℕ
  pub revoked_at : Option ℕ
  pub parent_hash : Option String
  pub created_at : ℕ

-- A row of `auth_failures`, without its key
pub record AuthFailures : Type 0 where
  pub failure_count : ℕ
  pub window_started_at : ℕ
  pub locked_until : Option ℕ
  pub updated_at : ℕ

pub record IdentityStore : Type 0 where
  pub users : List User
  pub enrollment_invites : List Invite
  pub oauth_codes : List OauthCode
  pub oauth_tokens : List OauthToken
  pub auth_failures : Dict AuthFailures

-- HMAC over a namespace and a value, HMAC over an enrollment id, and scrypt over a password.
pub record Hashes : Type 0 where
  pub secret_hash : String → String → String
  pub enrollment_hash : String → String
  pub password_hash : String → String
  pub verify_password_hash : String → String → Bool

abbrev pub token_hash : Hashes → String → String
token_hash h token = h.secret_hash "token" token

abbrev pub client_id_hash : Hashes → String → String
client_id_hash h client_id = h.secret_hash "oauth-client-id" client_id

abbrev pub redirect_uri_hash : Hashes → String → String
redirect_uri_hash h redirect_uri = h.secret_hash "oauth-redirect-uri" redirect_uri

abbrev pub auth_subject_hash : Hashes → String → String
auth_subject_hash h public_user_id = h.secret_hash "auth-subject" public_user_id

abbrev pub row_to_account : User → AccountRecord
row_to_account u = record {
  user_uuid = u.user_uuid;
  public_user_id = u.public_user_id;
  status = u.status;
  created_at = u.created_at;
  updated_at = u.updated_at;
}

abbrev pub is_user : String → User → Bool
is_user uuid u = str_eq u.user_uuid uuid

abbrev pub has_public_id : String → User → Bool
has_public_id id u = str_eq u.public_user_id id

abbrev pub is_invite : String → Invite → Bool
is_invite hash i = str_eq i.token_hash hash

abbrev pub is_code : String → OauthCode → Bool
is_code hash c = str_eq c.code_hash hash

abbrev pub is_token : String → OauthToken → Bool
is_token hash t = str_eq t.token_hash hash
