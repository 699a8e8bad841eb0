-- ===== src/Identity/Spending.antt =====
-- What a call of app/user_identity.py that spends an invitation, a code or a refresh token has found
-- and left.
use mathlib.Core.Path.{subst}
use sara_omega.Prelude.{
  ℕ, String, ◌≡◌, refl, ap, sym, ◌∙◌, Bool, true, false, not, List, ◌++◌, Option, none, some, find,
  update_where, member, if◌then◌else◌, arith,
}
use sara_omega.Prelude.Spent.{
  is_open, is_spent, is_spent-append, found-open, find-has_key, update-is_spent,
}
use sara_omega.Prelude.Attempt.{Attempt, returned, raised, raised-returned, bind_inv}
use sara_omega.Identity.{
  User, AccountRecord, Invite, OauthCode, OauthToken, IdentityStore, Hashes, is_invite, is_code,
  is_token, token_hash,
}
use sara_omega.Identity.Clients.{OauthConfiguration}
use sara_omega.Identity.Enroll.{
  enroll, enrolled, enroll_checked, check_invite, consume_invite, is_open_invite,
}
use sara_omega.Identity.Password.{validate_password}
use sara_omega.Identity.Tokens.{
  exchange_with, refresh_with, exchanged, refreshed, check_code, check_refresh,
}
use sara_omega.Identity.Rows.{
  Drawn, OauthTokenBundle, insert_token_pair, consume, consume_code, revoke_where, with_tokens,
  new_pair, revoke, is_open_token, is_open_code,
}
use sara_omega.Identity.Kept.{spent_invite, spent_code, spent_token}

module _ (h : Hashes) where
  -- A call that returned has passed its first test.
  passed {ℓ} :
      {X : Type ℓ} (b : Bool) (e : String) (s : IdentityStore) (x : Attempt X × IdentityStore)
      (r : X)
      → (if b then (raised e, s) else x).0 ≡ returned r
      → ((if b then (raised e, s) else x) ≡ x) × (x.0 ≡ returned r)
  passed true e s x r q = absurd (raised-returned e r q)
  passed false e s x r q = (refl, q)

  check_code_inv :
      (client redirect : String) (now : ℕ) (o : Option OauthCode) (s : IdentityStore)
      (c : OauthCode)
      → check_code h client redirect now o s ≡ returned c
      → (o ≡ some c) × (is_open c.consumed_at ≡ true)
  unfolding check_code
  check_code_inv client redirect now none s c q = cc
  check_code_inv client redirect now (some d) s c q =
      let same : d ≡ c = ground arith in (ap some same, ground arith)

  pair-keeps :
      (config : OauthConfiguration) (uuid client scope parent : String) (drawn : Drawn) (now : ℕ)
      (s t : IdentityStore) (b : OauthTokenBundle)
      → (insert_token_pair h config uuid client scope parent drawn now s t).0 ≡ returned b
      → (insert_token_pair h config uuid client scope parent drawn now s t).1
        ≡ with_tokens (t.oauth_tokens ++ new_pair h config uuid client scope parent drawn now) t
  unfolding insert_token_pair
  pair-keeps config uuid client scope parent drawn now s t b q = ground arith

  -- What an exchange that returns tokens has found and left.
  exchanged_inv :
      (config : OauthConfiguration) (client : String) (drawn : Drawn) (now : ℕ)
      (a : Attempt OauthCode) (s : IdentityStore) (b : OauthTokenBundle)
      → (exchanged h config client drawn now a s).0 ≡ returned b
      → (c : OauthCode) × (a ≡ returned c)
        × ((exchanged h config client drawn now a s).1.oauth_codes
            ≡ (consume_code c.code_hash now s).oauth_codes)
  unfolding exchanged
  exchanged_inv config client drawn now (raised e) s b q = cc
  exchanged_inv config client drawn now (returned c) s b q = (
    c,
    refl,
    ap (λ (u : IdentityStore). u.oauth_codes)
        (pair-keeps config c.user_uuid client c.scope c.code_hash drawn now s
          (consume_code c.code_hash now s) b q),
  )

  pub exchange_with_inv :
      (config : Attempt OauthConfiguration) (code client redirect : String) (drawn : Drawn)
      (now : ℕ) (s : IdentityStore) (b : OauthTokenBundle)
      → (exchange_with h config code client redirect drawn now s).0 ≡ returned b
      → (spent_code (token_hash h code) s ≡ false)
        × (spent_code
              (token_hash h code)
              (exchange_with h config code client redirect drawn now s).1
            ≡ true)
  unfolding exchange_with
  exchange_with_inv (raised e) code client redirect drawn now s b q = cc
  exchange_with_inv (returned config) code client redirect drawn now s b q =
      let k = token_hash h code in
      let a = check_code h client redirect now (find (is_code k) s.oauth_codes) s in
      let (same, done) =
        passed (not (member redirect config.redirect_uris)) "OAuthRejected" s
          (exchanged h config client drawn now a s) b q in
      let (c, found, after) = exchanged_inv config client drawn now a s b done in
      let t = check_code_inv client redirect now (find (is_code k) s.oauth_codes) s c found in
      let id : c.code_hash ≡ k =
        find-has_key (λ (x : OauthCode). x.code_hash) (λ x. x.consumed_at) k s.oauth_codes c t.0 in
      let spent =
        update-is_spent (λ (x : OauthCode). x.code_hash) (λ x. x.consumed_at) (consume now)
          (λ x. refl) (λ x. refl) k s.oauth_codes c t.0 in
      (
        found-open (λ (x : OauthCode). x.code_hash) (λ x. x.consumed_at) k s.oauth_codes c t.0 t.1,
        ap (λ (y : Attempt OauthTokenBundle × IdentityStore). spent_code k y.1) same
            ∙ ap (is_spent (λ (x : OauthCode). x.code_hash) (λ x. x.consumed_at) k) after
            ∙ subst
                (λ k'.
                  is_spent (λ (x : OauthCode). x.code_hash) (λ x. x.consumed_at) k
                    (update_where (is_open_code k') (consume now) s.oauth_codes)
                  ≡ true)
                (sym id) spent,
      )

  check_refresh_inv :
      (client : String) (now : ℕ) (o : Option OauthToken) (s : IdentityStore) (t : OauthToken)
      → check_refresh h client now o s ≡ returned t
      → (o ≡ some t) × (is_open t.revoked_at ≡ true)
  unfolding check_refresh
  check_refresh_inv client now none s t q = cc
  check_refresh_inv client now (some d) s t q =
      let same : d ≡ t = ground arith in (ap some same, ground arith)

  -- What a refresh that returns tokens has found and left.
  refreshed_inv :
      (config : OauthConfiguration) (client : String) (drawn : Drawn) (now : ℕ)
      (a : Attempt OauthToken) (s : IdentityStore) (b : OauthTokenBundle)
      → (refreshed h config client drawn now a s).0 ≡ returned b
      → (t : OauthToken) × (a ≡ returned t)
        × ((refreshed h config client drawn now a s).1.oauth_tokens
            ≡ (revoke_where (is_open_token t.token_hash) now s).oauth_tokens
              ++ new_pair h config t.user_uuid client t.scope t.token_hash drawn now)
  unfolding refreshed
  refreshed_inv config client drawn now (raised e) s b q = cc
  refreshed_inv config client drawn now (returned t) s b q = (
    t,
    refl,
    ap (λ (u : IdentityStore). u.oauth_tokens)
        (pair-keeps config t.user_uuid client t.scope t.token_hash drawn now s
          (revoke_where (is_open_token t.token_hash) now s) b q),
  )

  pub refresh_with_inv :
      (config : Attempt OauthConfiguration) (token client : String) (drawn : Drawn) (now : ℕ)
      (s : IdentityStore) (b : OauthTokenBundle)
      → (refresh_with h config token client drawn now s).0 ≡ returned b
      → (spent_token (token_hash h token) s ≡ false)
        × (spent_token (token_hash h token) (refresh_with h config token client drawn now s).1
            ≡ true)
  unfolding refresh_with
  refresh_with_inv (raised e) token client drawn now s b q = cc
  refresh_with_inv (returned config) token client drawn now s b q =
      let k = token_hash h token in
      let o = find (is_token k) s.oauth_tokens in
      let (t, found, after) =
        refreshed_inv config client drawn now (check_refresh h client now o s) s b q in
      let f = check_refresh_inv client now o s t found in
      let id : t.token_hash ≡ k =
        find-has_key (λ (x : OauthToken). x.token_hash) (λ x. x.revoked_at) k s.oauth_tokens t
          f.0 in
      let spent =
        update-is_spent (λ (x : OauthToken). x.token_hash) (λ x. x.revoked_at) (revoke now)
          (λ x. refl) (λ x. refl) k s.oauth_tokens t f.0 in
      let kept =
        is_spent-append (λ (x : OauthToken). x.token_hash) (λ x. x.revoked_at) k
          (update_where (is_open_token k) (revoke now) s.oauth_tokens)
          (new_pair h config t.user_uuid client t.scope t.token_hash drawn now) spent in
      (
        found-open (λ (x : OauthToken). x.token_hash) (λ x. x.revoked_at) k s.oauth_tokens t f.0
            f.1,
        ap (is_spent (λ (x : OauthToken). x.token_hash) (λ x. x.revoked_at) k) after
            ∙ subst
                (λ k'.
                  is_spent (λ (x : OauthToken). x.token_hash) (λ x. x.revoked_at) k
                    (update_where (is_open_token k') (revoke now) s.oauth_tokens
                      ++ new_pair h config t.user_uuid client t.scope t.token_hash drawn now)
                  ≡ true)
                (sym id) kept,
      )

  check_invite_inv :
      (enrollment_id : String) (now : ℕ) (o : Option Invite) (u : Unit {0})
      → check_invite h enrollment_id now o ≡ returned u
      → (i : Invite) × (o ≡ some i) × (is_open i.consumed_at ≡ true)
  unfolding check_invite
  check_invite_inv enrollment_id now none u q = cc
  check_invite_inv enrollment_id now (some i) u q = (i, refl, ground arith)

  -- What an enrollment that returns an account has left.
  enrolled_inv :
      (hash : String) (o : Option User) (now : ℕ) (s : IdentityStore) (r : AccountRecord)
      → (enrolled hash o now s).0 ≡ returned r
      → (u : User) × ((enrolled hash o now s).1.enrollment_invites
          ≡ update_where
              (is_open_invite hash)
              (consume_invite u.user_uuid now)
              s.enrollment_invites)
  unfolding enrolled
  enrolled_inv hash none now s r q = cc
  enrolled_inv hash (some u) now s r q = (u, ground arith)

  checked_inv :
      (a : Attempt (Unit {0})) (x : Attempt AccountRecord × IdentityStore) (s : IdentityStore)
      (r : AccountRecord)
      → (enroll_checked a x s).0 ≡ returned r
      → (a ≡ returned tt) × (x.0 ≡ returned r) × (enroll_checked a x s ≡ x)
  checked_inv (returned u) x s r q = (refl, q, refl)
  checked_inv (raised e) x s r q = absurd (raised-returned e r q)

  pub enroll_inv :
      (token id password confirm : String) (drawn : List (String × String)) (now : ℕ)
      (s : IdentityStore) (r : AccountRecord)
      → (enroll h token id password confirm drawn now s).0 ≡ returned r
      → (spent_invite (token_hash h token) s ≡ false)
        × (spent_invite (token_hash h token) (enroll h token id password confirm drawn now s).1
            ≡ true)
  unfolding enroll
  enroll_inv token id password confirm drawn now s r q =
      let k = token_hash h token in
      let o = find (is_invite k) s.enrollment_invites in
      let (c, x, same) = checked_inv _ _ s r q in
      let (_, _, valid) =
        bind_inv (validate_password password confirm) (λ _. check_invite h id now o) tt c in
      let (i, found, open_row) = check_invite_inv id now o tt valid in
      let (u, after) = enrolled_inv k _ now s r x in
      (
        found-open (λ (x : Invite). x.token_hash) (λ x. x.consumed_at) k s.enrollment_invites i
            found open_row,
        ap (λ (y : Attempt AccountRecord × IdentityStore). spent_invite k y.1) same
            ∙ ap (is_spent (λ (x : Invite). x.token_hash) (λ x. x.consumed_at) k) after
            ∙ update-is_spent (λ (x : Invite). x.token_hash) (λ x. x.consumed_at)
                (consume_invite u.user_uuid now) (λ x. refl) (λ x. refl) k s.enrollment_invites i
                found,
      )
