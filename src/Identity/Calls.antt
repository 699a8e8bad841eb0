-- ===== src/Identity/Calls.antt =====
-- The calls of `UserIdentityStore` of app/user_identity.py that write, one after the other, each with
-- the time, the environment and the random values of its own.
use sara_omega.Prelude.{ℕ, String, List, [], ◌∷◌}
use sara_omega.Identity.{IdentityStore, Hashes}
use sara_omega.Identity.Clients.{Url, OauthEnvironment}
use sara_omega.Identity.Enroll.{create_invitation, enroll}
use sara_omega.Identity.Tokens.{
  issue_authorization_code, exchange_authorization_code, refresh_access_token, revoke_token,
}
use sara_omega.Identity.Rows.{Drawn}
use sara_omega.Identity.Lockout.{LockoutValues, authenticate_for_oauth}

pub data Call : Type 0 where
  invite : (base_url enrollment_id token : String) (ttl now : ℕ) → Call
  enroll_with :
      (token enrollment_id password confirm : String) (drawn : List (String × String)) (now : ℕ)
      → Call
  issue :
      (env : OauthEnvironment) (user_uuid client_id redirect_uri scope code : String) (now : ℕ)
      → Call
  exchange :
      (env : OauthEnvironment) (code client_id client_secret redirect_uri : String) (drawn : Drawn)
      (now : ℕ)
      → Call
  refresh :
      (env : OauthEnvironment) (token client_id client_secret : String) (drawn : Drawn) (now : ℕ)
      → Call
  revoke : (env : OauthEnvironment) (token client_id client_secret : String) (now : ℕ) → Call
  login : (v : LockoutValues) (enrollment_id public_user_id password : String) (now : ℕ) → Call

module _ (h : Hashes) (urlsplit : String → Url) where
  unfoldable pub perform : Call → IdentityStore → IdentityStore
  unfolding create_invitation enroll issue_authorization_code exchange_authorization_code
      refresh_access_token revoke_token authenticate_for_oauth
  perform (invite base id token ttl now) s =
      (create_invitation h urlsplit base id token ttl now s).1
  perform (enroll_with token id password confirm drawn now) s =
      (enroll h token id password confirm drawn now s).1
  perform (issue env uuid client redirect scope code now) s =
      (issue_authorization_code h urlsplit env uuid client redirect scope code now s).1
  perform (exchange env code client secret redirect drawn now) s =
      (exchange_authorization_code h urlsplit env code client secret redirect drawn now s).1
  perform (refresh env token client secret drawn now) s =
      (refresh_access_token h urlsplit env token client secret drawn now s).1
  perform (revoke env token client secret now) s =
      (revoke_token h urlsplit env token client secret now s).1
  perform (login v id user password now) s = (authenticate_for_oauth h v id user password now s).1

  unfoldable pub perform_all : List Call → IdentityStore → IdentityStore
  unfolding perform
  perform_all [] s = s
  perform_all (c ∷ cs) s = perform_all cs (perform c s)
