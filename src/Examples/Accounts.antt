-- ===== src/Examples/Accounts.antt =====
-- An account that is enrolled, and its tokens.
use sara_omega.Prelude.{
  ℕ, ◌≤◌, String, ◌≡◌, ◌≢◌, refl, ap, List, [], ◌∷◌, none, some, str_eq, arith,
}
use sara_omega.Prelude.Int.{pos}
use sara_omega.Prelude.Attempt.{returned, raised}
use sara_omega.Identity.{User, AccountRecord, Invite, OauthCode, IdentityStore, Hashes}
use sara_omega.Identity.Clients.{Url, OauthEnvironment, unset}
use sara_omega.Identity.Enroll.{enroll}
use sara_omega.Identity.Tokens.{exchange_authorization_code, refresh_access_token}
use sara_omega.Identity.Rows.{Drawn, OauthTokenBundle}
use sara_omega.Identity.Lockout.{LockoutValues, authenticate_for_oauth}
use sara_omega.Identity.Lockout.Locked.{login_all, IsWrong, wrong-locked}
use sara_omega.Identity.Calls.{Call, perform_all, exchange, refresh}
use sara_omega.Identity.Grants.{IsGranted}
use sara_omega.Identity.Grants.Calls.{perform_all-IsGranted}
use sara_omega.Identity.Replay.{exchange-no_replay, refresh-no_replay, enroll-no_replay}

abbrev hashes : Hashes
hashes = record {
  secret_hash = λ namespace value. value;
  enrollment_hash = λ id. id;
  password_hash = λ password. password;
  verify_password_hash = λ password encoded. str_eq password encoded;
}

abbrev urlsplit : String → Url
urlsplit u = record {
  scheme = "https";
  netloc = "client.example";
  username = "";
  password = "";
  query = "";
  fragment = "";
}

abbrev environment : OauthEnvironment
environment = record {
  clients = unset;
  client_id = "client";
  client_secret = "a-secret-of-the-client";
  redirect_uris = "https://client.example/cb";
  scope = "sara.memory sara.solve";
  code_ttl = some (pos 300);
  access_ttl = some (pos 3600);
  refresh_ttl = some (pos 2592000);
}

abbrev user : User
user = record {
  user_uuid = "u1";
  public_user_id = "SARA-U-1";
  password_hash = "Correct-horse-1";
  status = "ACTIVE";
  created_at = 10;
  updated_at = 10;
}

abbrev invitation : Invite
invitation = record {
  token_hash = "t1";
  enrollment_id_hash = "SARA-NEW-USER";
  expires_at = 1000;
  consumed_at = none;
  user_uuid = none;
  created_at = 10;
}

abbrev authorization : OauthCode
authorization = record {
  code_hash = "code1";
  user_uuid = "u1";
  client_id_hash = "client";
  redirect_uri_hash = "https://client.example/cb";
  scope = "sara.solve";
  expires_at = 400;
  consumed_at = none;
  created_at = 100;
}

abbrev store : IdentityStore
store = record {
  users = user ∷ [];
  enrollment_invites = invitation ∷ [];
  oauth_codes = authorization ∷ [];
  oauth_tokens = [];
  auth_failures = [];
}

abbrev drawn : Drawn
drawn = record { access_token = "access1"; refresh_token = "refresh1" }

abbrev redrawn : Drawn
redrawn = record { access_token = "access2"; refresh_token = "refresh2" }

abbrev bundle : OauthTokenBundle
bundle = record {
  access_token = "access1";
  refresh_token = "refresh1";
  token_type = "Bearer";
  expires_in = 3600;
  scope = "sara.solve";
}

abbrev account : AccountRecord
account = record {
  user_uuid = "u2";
  public_user_id = "SARA-U-2";
  status = "ACTIVE";
  created_at = 20;
  updated_at = 20;
}

abbrev identifiers : List (String × String)
identifiers = ("u1", "SARA-U-9") ∷ ("u2", "SARA-U-2") ∷ []

exchanged_once :
    (exchange_authorization_code hashes urlsplit environment "code1" "client"
      "a-secret-of-the-client" "https://client.example/cb" drawn 200 store).0
    ≡ returned bundle
unfolding exchange_authorization_code
exchanged_once = refl

enrolled_once :
    (enroll hashes "t1" "SARA-NEW-USER" "Long-enough-1" "Long-enough-1" identifiers 20 store).0
    ≡ returned account
unfolding enroll
enrolled_once = refl

between : List Call
between = exchange environment "code1" "client" "wrong" "https://client.example/cb" redrawn 210 ∷ []

exchange-no_replay_example :
    (exchange_authorization_code hashes urlsplit environment "code1" "client"
      "a-secret-of-the-client" "https://client.example/cb" redrawn 220
      (perform_all hashes urlsplit between
        (exchange_authorization_code hashes urlsplit environment "code1" "client"
          "a-secret-of-the-client" "https://client.example/cb" drawn 200 store).1)).0
    ≢ returned bundle
exchange-no_replay_example =
    exchange-no_replay hashes urlsplit environment environment "code1" "client" "client"
      "a-secret-of-the-client" "a-secret-of-the-client" "https://client.example/cb"
      "https://client.example/cb" drawn redrawn 200 220 between store bundle bundle exchanged_once

abbrev exchanged_store : IdentityStore
exchanged_store =
    (exchange_authorization_code hashes urlsplit environment "code1" "client"
      "a-secret-of-the-client" "https://client.example/cb" drawn 200 store).1

abbrev rebundle : OauthTokenBundle
rebundle = record {
  access_token = "access2";
  refresh_token = "refresh2";
  token_type = "Bearer";
  expires_in = 3600;
  scope = "sara.solve";
}

refreshed_once :
    (refresh_access_token hashes urlsplit environment "refresh1" "client" "a-secret-of-the-client"
      redrawn 300 exchanged_store).0
    ≡ returned rebundle
unfolding refresh_access_token exchange_authorization_code
refreshed_once = refl

refresh-no_replay_example :
    (refresh_access_token hashes urlsplit environment "refresh1" "client" "a-secret-of-the-client"
      drawn 400
      (perform_all hashes urlsplit between
        (refresh_access_token hashes urlsplit environment "refresh1" "client"
          "a-secret-of-the-client" redrawn 300 exchanged_store).1)).0
    ≢ returned bundle
refresh-no_replay_example =
    refresh-no_replay hashes urlsplit environment environment "refresh1" "client" "client"
      "a-secret-of-the-client" "a-secret-of-the-client" redrawn drawn 300 400 between
      exchanged_store rebundle bundle refreshed_once

enroll-no_replay_example :
    (enroll hashes "t1" "SARA-NEW-USER" "Long-enough-2" "Long-enough-2" identifiers 30 (
      perform_all hashes urlsplit between
        (enroll hashes "t1" "SARA-NEW-USER" "Long-enough-1" "Long-enough-1" identifiers 20
          store).1)).0
    ≢ returned account
enroll-no_replay_example =
    enroll-no_replay hashes urlsplit "t1" "SARA-NEW-USER" "SARA-NEW-USER" "Long-enough-1"
      "Long-enough-2" "Long-enough-1" "Long-enough-2" identifiers identifiers 20 30 between store
      account account enrolled_once

abbrev exchange_and_refresh : List Call
exchange_and_refresh =
    exchange environment "code1" "client" "a-secret-of-the-client" "https://client.example/cb" drawn
      200
    ∷ refresh environment "refresh1" "client" "a-secret-of-the-client" redrawn 300
    ∷ []

perform_all-IsGranted_example : IsGranted (perform_all hashes urlsplit exchange_and_refresh store)
perform_all-IsGranted_example = perform_all-IsGranted hashes urlsplit exchange_and_refresh store tt

abbrev lockout : LockoutValues
lockout = record { maximum = 2; window_seconds = 900; lock_seconds = 900 }

abbrev public_id : String
public_id = "SARA-U-1"

abbrev enrollment_id : String
enrollment_id = "SARA-NEW-USER"

named : public_id ≢ ""
named h = ground (arith, ap (λ s. str_eq s "") h)

not_enrollment : public_id ≢ enrollment_id
not_enrollment h = ground (arith, ap (λ s. str_eq s "SARA-NEW-USER") h)

guess-IsWrong :
    (now : ℕ)
    → now ≤ 1000
    → IsWrong hashes lockout enrollment_id public_id 100 (user ∷ []) ("guess", now)
guess-IsWrong now h = record { given = refl; unverified = refl; in_window = h }

wrong-locked_example :
    authenticate_for_oauth hashes lockout enrollment_id public_id "Correct-horse-1" 200 (
      login_all hashes lockout enrollment_id public_id (("guess", 100) ∷ ("guess", 150) ∷ []) store)
    ≡ (
      raised "OAuthRejected",
      login_all hashes lockout enrollment_id public_id (("guess", 100) ∷ ("guess", 150) ∷ []) store,
    )
wrong-locked_example =
    wrong-locked hashes lockout enrollment_id public_id ("guess", 100) (("guess", 150) ∷ []) store
      "Correct-horse-1" 200 named not_enrollment refl refl
      (guess-IsWrong 100 (omega arith), (guess-IsWrong 150 (omega arith), tt)) (omega arith)
