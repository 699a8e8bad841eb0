-- ===== src/Identity/Replay.antt =====
-- An invitation, an authorization code and a refresh token of app/user_identity.py serve once.
use sara_omega.Prelude.{ℕ, String, ◌≡◌, ◌≢◌, Bool, true, false, List, [], ◌∷◌, arith}
use sara_omega.Prelude.Attempt.{returned}
use sara_omega.Identity.{AccountRecord, IdentityStore, Hashes, token_hash}
use sara_omega.Identity.Clients.{Url, OauthEnvironment}
use sara_omega.Identity.Enroll.{create_invitation, enroll}
use sara_omega.Identity.Tokens.{
  issue_authorization_code, exchange_authorization_code, refresh_access_token, revoke_token,
}
use sara_omega.Identity.Rows.{Drawn, OauthTokenBundle}
use sara_omega.Identity.Kept.{
  KeepsSpent, spent_invite, spent_code, spent_token, create-kept, enrolled-kept, checked-kept,
  issue_with-kept, exchange_with-kept, refresh_with-kept, revoke_with-kept, login-kept, stay_kept,
  kept_trans,
}
use sara_omega.Identity.Calls.{
  Call, invite, enroll_with, issue, exchange, refresh, login, perform, perform_all,
}
use sara_omega.Identity.Spending.{exchange_with_inv, refresh_with_inv, enroll_inv}

module _ (h : Hashes) (urlsplit : String → Url) where
  perform-kept : (c : Call) (s : IdentityStore) → KeepsSpent s (perform h urlsplit c s)
  unfolding perform create_invitation enroll issue_authorization_code exchange_authorization_code
      refresh_access_token revoke_token
  perform-kept (invite base id token ttl now) s = create-kept h _ id token ttl now s
  perform-kept (enroll_with token id password confirm drawn now) s =
      checked-kept h _ _ s (enrolled-kept h _ _ now s)
  perform-kept (issue env uuid client redirect scope code now) s =
      issue_with-kept h _ _ uuid client redirect code now s
  perform-kept (exchange env code client secret redirect drawn now) s =
      exchange_with-kept h _ code client redirect drawn now s
  perform-kept (refresh env token client secret drawn now) s =
      refresh_with-kept h _ token client drawn now s
  perform-kept (Call.revoke env token client secret now) s = revoke_with-kept h _ token client now s
  perform-kept (login v id user password now) s = login-kept h v id user password now s

  perform_all-kept :
      (cs : List Call) (s : IdentityStore) → KeepsSpent s (perform_all h urlsplit cs s)
  unfolding perform_all
  perform_all-kept [] s = stay_kept s
  perform_all-kept (c ∷ cs) s =
      kept_trans s _ _ (perform-kept c s) (perform_all-kept cs (perform h urlsplit c s))

  -- What is spent in one state and open in a later one.
  respent :
      (cs : List Call) (s : IdentityStore) (spent : IdentityStore → Bool)
      → ((t u : IdentityStore) → KeepsSpent t u → spent t ≡ true → spent u ≡ true)
      → spent s ≡ true
      → spent (perform_all h urlsplit cs s) ≢ false
  respent cs s spent keeps q open_again =
      ground (arith, keeps s (perform_all h urlsplit cs s) (perform_all-kept cs s) q)

  -- A code that was exchanged for tokens is never exchanged again, by whichever client and under
  -- whichever configuration, whatever is called in between.
  pub exchange-no_replay :
      (env env' : OauthEnvironment) (code client client' secret secret' redirect redirect' : String)
      (drawn drawn' : Drawn) (now now' : ℕ) (cs : List Call) (s : IdentityStore)
      (b b' : OauthTokenBundle)
      → (exchange_authorization_code h urlsplit env code client secret redirect drawn now s).0
        ≡ returned b
      → (exchange_authorization_code h urlsplit env' code client' secret' redirect' drawn' now' (
          perform_all h urlsplit cs
            (exchange_authorization_code h urlsplit env code client secret redirect drawn now
              s).1)).0
        ≢ returned b'
  unfolding exchange_authorization_code
  exchange-no_replay env env' code client client' secret secret' redirect redirect' drawn drawn' now
        now' cs s b b' p q =
      let first = exchange_with_inv h _ code client redirect drawn now s b p in
      let second = exchange_with_inv h _ code client' redirect' drawn' now' _ b' q in
      respent cs _ (spent_code (token_hash h code)) (λ t u k. k.code_rows (token_hash h code))
        first.1 second.0

  -- A refresh token that was exchanged for new tokens is never exchanged again, whatever is called
  -- in between.
  pub refresh-no_replay :
      (env env' : OauthEnvironment) (token client client' secret secret' : String)
      (drawn drawn' : Drawn) (now now' : ℕ) (cs : List Call) (s : IdentityStore)
      (b b' : OauthTokenBundle)
      → (refresh_access_token h urlsplit env token client secret drawn now s).0 ≡ returned b
      → (refresh_access_token h urlsplit env' token client' secret' drawn' now' (
          perform_all h urlsplit cs
            (refresh_access_token h urlsplit env token client secret drawn now s).1)).0
        ≢ returned b'
  unfolding refresh_access_token
  refresh-no_replay env env' token client client' secret secret' drawn drawn' now now' cs s b b' p
        q =
      let first = refresh_with_inv h _ token client drawn now s b p in
      let second = refresh_with_inv h _ token client' drawn' now' _ b' q in
      respent cs _ (spent_token (token_hash h token)) (λ t u k. k.token_rows (token_hash h token))
        first.1 second.0

  -- An invitation that an account was enrolled with enrolls no other one, whatever is called in
  -- between.
  pub enroll-no_replay :
      (token id id' password password' confirm confirm' : String)
      (drawn drawn' : List (String × String)) (now now' : ℕ) (cs : List Call) (s : IdentityStore)
      (r r' : AccountRecord)
      → (enroll h token id password confirm drawn now s).0 ≡ returned r
      → (enroll h token id' password' confirm' drawn' now'
          (perform_all h urlsplit cs (enroll h token id password confirm drawn now s).1)).0
        ≢ returned r'
  enroll-no_replay token id id' password password' confirm confirm' drawn drawn' now now' cs s r r'
        p q =
      let first = enroll_inv h token id password confirm drawn now s r p in
      let second = enroll_inv h token id' password' confirm' drawn' now' _ r' q in
      respent cs _ (spent_invite (token_hash h token)) (λ t u k. k.invites (token_hash h token))
        first.1 second.0
