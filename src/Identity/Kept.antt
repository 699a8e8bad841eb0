-- ===== src/Identity/Kept.antt =====
-- What is spent in the tables of app/user_identity.py stays spent, whatever is called.
use sara_omega.Prelude.{
  ℕ, String, ◌≡◌, refl, Bool, true, false, not, List, ◌++◌, Option, none, some, any, member,
  if◌then◌else◌,
}
use sara_omega.Prelude.Spent.{is_spent, is_spent-append, is_spent-update}
use sara_omega.Prelude.Attempt.{Attempt, returned, raised}
use sara_omega.Identity.{
  User, AccountRecord, Invite, OauthCode, OauthToken, IdentityStore, Hashes, is_invite, token_hash,
}
use sara_omega.Identity.Clients.{OauthConfiguration}
use sara_omega.Identity.Enroll.{invite_at, enrolled, enroll_checked, consume_invite, is_open_invite}
use sara_omega.Identity.Tokens.{
  issue_with, exchange_with, refresh_with, revoke_with, exchanged, refreshed,
}
use sara_omega.Identity.Rows.{
  Drawn, insert_token_pair, consume, consume_code, revoke, revoke_where, with_codes, with_tokens,
  is_open_code, is_open_token,
}
use sara_omega.Identity.Lockout.{
  LockoutValues, authenticate_for_oauth, settle_login, record_auth_failure, clear_auth_failures,
}

abbrev pub spent_invite : String → IdentityStore → Bool
spent_invite k s =
    is_spent (λ (i : Invite). i.token_hash) (λ i. i.consumed_at) k s.enrollment_invites

abbrev pub spent_code : String → IdentityStore → Bool
spent_code k s = is_spent (λ (c : OauthCode). c.code_hash) (λ c. c.consumed_at) k s.oauth_codes

abbrev pub spent_token : String → IdentityStore → Bool
spent_token k s = is_spent (λ (t : OauthToken). t.token_hash) (λ t. t.revoked_at) k s.oauth_tokens

-- What is spent in `s` is spent in `s'`.
pub record KeepsSpent (s s' : IdentityStore) : Type 0 where
  pub invites : (k : String) → spent_invite k s ≡ true → spent_invite k s' ≡ true
  pub code_rows : (k : String) → spent_code k s ≡ true → spent_code k s' ≡ true
  pub token_rows : (k : String) → spent_token k s ≡ true → spent_token k s' ≡ true

pub stay_kept : (s : IdentityStore) → KeepsSpent s s
stay_kept s = record { invites = λ k h. h; code_rows = λ k h. h; token_rows = λ k h. h }

pub kept_trans : (s t u : IdentityStore) → KeepsSpent s t → KeepsSpent t u → KeepsSpent s u
kept_trans s t u p q = record {
  invites = λ k h. q.invites k (p.invites k h);
  code_rows = λ k h. q.code_rows k (p.code_rows k h);
  token_rows = λ k h. q.token_rows k (p.token_rows k h);
}

kept_if {ℓ} :
    {X : Type ℓ} (s : IdentityStore) (b : Bool) (x y : X × IdentityStore)
    → KeepsSpent s x.1
    → KeepsSpent s y.1
    → KeepsSpent s (if b then x else y).1
kept_if s true x y p q = p
kept_if s false x y p q = q

module _ (h : Hashes) where
  pub create-kept :
      (base : Attempt String) (id token : String) (ttl now : ℕ) (s : IdentityStore)
      → KeepsSpent s (invite_at h base id token ttl now s).1
  unfolding invite_at
  create-kept (raised e) id token ttl now s = stay_kept s
  create-kept (returned base) id token ttl now s =
      kept_if s (any (is_invite (token_hash h token)) s.enrollment_invites) _ _ (stay_kept s)
        (record {
          invites = λ k q. is_spent-append _ _ k s.enrollment_invites _ q;
          code_rows = λ k q. q;
          token_rows = λ k q. q;
        })

  pub enrolled-kept :
      (hash : String) (o : Option User) (now : ℕ) (s : IdentityStore)
      → KeepsSpent s (enrolled hash o now s).1
  unfolding enrolled
  enrolled-kept hash none now s = stay_kept s
  enrolled-kept hash (some u) now s =
      kept_if s (any (is_open_invite hash) s.enrollment_invites) _ _
        (record {
          invites = λ k q.
              is_spent-update _ _ (consume_invite u.user_uuid now) (λ x. refl) (λ x. refl)
                (is_open_invite hash) k s.enrollment_invites q;
          code_rows = λ k q. q;
          token_rows = λ k q. q;
        })
        (stay_kept s)

  pub checked-kept :
      (a : Attempt (Unit {0})) (x : Attempt AccountRecord × IdentityStore) (s : IdentityStore)
      → KeepsSpent s x.1
      → KeepsSpent s (enroll_checked a x s).1
  checked-kept (returned u) x s p = p
  checked-kept (raised e) x s p = stay_kept s

  tokens-kept :
      (s : IdentityStore) (rows : List OauthToken)
      → KeepsSpent s (with_tokens (s.oauth_tokens ++ rows) s)
  tokens-kept s rows = record {
    invites = λ k q. q;
    code_rows = λ k q. q;
    token_rows = λ k q. is_spent-append _ _ k s.oauth_tokens rows q;
  }

  consumed-kept :
      (hash : String) (now : ℕ) (s : IdentityStore) → KeepsSpent s (consume_code hash now s)
  consumed-kept hash now s = record {
    invites = λ k q. q;
    code_rows = λ k q.
        is_spent-update _ _ (consume now) (λ x. refl) (λ x. refl) (is_open_code hash) k
          s.oauth_codes q;
    token_rows = λ k q. q;
  }

  revoked-kept :
      (p : OauthToken → Bool) (now : ℕ) (s : IdentityStore) → KeepsSpent s (revoke_where p now s)
  revoked-kept p now s = record {
    invites = λ k q. q;
    code_rows = λ k q. q;
    token_rows =
        λ k q. is_spent-update _ _ (revoke now) (λ x. refl) (λ x. refl) p k s.oauth_tokens q;
  }

  pair-kept :
      (config : OauthConfiguration) (uuid client scope parent : String) (drawn : Drawn) (now : ℕ)
      (s t : IdentityStore)
      → KeepsSpent s t
      → KeepsSpent s (insert_token_pair h config uuid client scope parent drawn now s t).1
  unfolding insert_token_pair
  pair-kept config uuid client scope parent drawn now s t p =
      kept_if s _ _ _ (stay_kept s) (kept_trans s t _ p (tokens-kept t _))

  exchanged-kept :
      (config : OauthConfiguration) (client : String) (drawn : Drawn) (now : ℕ)
      (a : Attempt OauthCode) (s : IdentityStore)
      → KeepsSpent s (exchanged h config client drawn now a s).1
  unfolding exchanged
  exchanged-kept config client drawn now (raised e) s = stay_kept s
  exchanged-kept config client drawn now (returned c) s =
      pair-kept config c.user_uuid client c.scope c.code_hash drawn now s _
        (consumed-kept c.code_hash now s)

  refreshed-kept :
      (config : OauthConfiguration) (client : String) (drawn : Drawn) (now : ℕ)
      (a : Attempt OauthToken) (s : IdentityStore)
      → KeepsSpent s (refreshed h config client drawn now a s).1
  unfolding refreshed
  refreshed-kept config client drawn now (raised e) s = stay_kept s
  refreshed-kept config client drawn now (returned t) s =
      pair-kept config t.user_uuid client t.scope t.token_hash drawn now s _
        (revoked-kept (is_open_token t.token_hash) now s)

  pub exchange_with-kept :
      (config : Attempt OauthConfiguration) (code client redirect : String) (drawn : Drawn)
      (now : ℕ) (s : IdentityStore)
      → KeepsSpent s (exchange_with h config code client redirect drawn now s).1
  unfolding exchange_with
  exchange_with-kept (raised e) code client redirect drawn now s = stay_kept s
  exchange_with-kept (returned config) code client redirect drawn now s =
      kept_if s (not (member redirect config.redirect_uris)) _ _ (stay_kept s)
        (exchanged-kept config client drawn now _ s)

  pub refresh_with-kept :
      (config : Attempt OauthConfiguration) (token client : String) (drawn : Drawn) (now : ℕ)
      (s : IdentityStore)
      → KeepsSpent s (refresh_with h config token client drawn now s).1
  unfolding refresh_with
  refresh_with-kept (raised e) token client drawn now s = stay_kept s
  refresh_with-kept (returned config) token client drawn now s =
      refreshed-kept config client drawn now _ s

  codes-kept :
      (s : IdentityStore) (rows : List OauthCode)
      → KeepsSpent s (with_codes (s.oauth_codes ++ rows) s)
  codes-kept s rows = record {
    invites = λ k q. q;
    code_rows = λ k q. is_spent-append _ _ k s.oauth_codes rows q;
    token_rows = λ k q. q;
  }

  pub issue_with-kept :
      (scope : Attempt String) (config : Attempt OauthConfiguration)
      (uuid client redirect code : String) (now : ℕ) (s : IdentityStore)
      → KeepsSpent s (issue_with h scope config uuid client redirect code now s).1
  unfolding issue_with
  issue_with-kept (raised e) config uuid client redirect code now s = stay_kept s
  issue_with-kept (returned scope) (raised e) uuid client redirect code now s = stay_kept s
  issue_with-kept (returned scope) (returned config) uuid client redirect code now s =
      search (kept_if, stay_kept, codes-kept) depth 6

  pub revoke_with-kept :
      (config : Attempt OauthConfiguration) (token client : String) (now : ℕ) (s : IdentityStore)
      → KeepsSpent s (revoke_with h config token client now s).1
  unfolding revoke_with
  revoke_with-kept (raised e) token client now s = stay_kept s
  revoke_with-kept (returned config) token client now s = revoked-kept _ now s

  settled-kept :
      (v : LockoutValues) (subject : String) (now : ℕ) (o : Option User) (s : IdentityStore)
      → KeepsSpent s (settle_login h v subject now o s).1
  unfolding settle_login record_auth_failure clear_auth_failures
  settled-kept v subject now none s = record {
    invites = λ k q. q;
    code_rows = λ k q. q;
    token_rows = λ k q. q;
  }
  settled-kept v subject now (some u) s = record {
    invites = λ k q. q;
    code_rows = λ k q. q;
    token_rows = λ k q. q;
  }

  pub login-kept :
      (v : LockoutValues) (enrollment_id id password : String) (now : ℕ) (s : IdentityStore)
      → KeepsSpent s (authenticate_for_oauth h v enrollment_id id password now s).1
  unfolding authenticate_for_oauth
  login-kept v enrollment_id id password now s = search (kept_if, stay_kept, settled-kept) depth 6
