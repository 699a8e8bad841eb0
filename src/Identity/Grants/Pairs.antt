-- ===== src/Identity/Grants/Pairs.antt =====
-- The tokens that `exchange_authorization_code` and `refresh_access_token` of app/user_identity.py
-- write descend from a code.
use sara_omega.Prelude.{
  ℕ, String, ◌≡◌, refl, ap, true, not, ◌||◌, ◌++◌, Option, none, some, any, find, member,
  any-update_where_found, Among-update_where, find-Among, Every-Among, str_eq, eq_iff, arith,
}
use sara_omega.Prelude.Spent.{is_open}
use sara_omega.Prelude.Attempt.{Attempt, returned, raised}
use sara_omega.Identity.{
  OauthCode, OauthToken, IdentityStore, Hashes, is_code, is_token, token_hash, client_id_hash,
}
use sara_omega.Identity.Clients.{OauthConfiguration}
use sara_omega.Identity.Tokens.{
  exchange_with, refresh_with, exchanged, refreshed, check_code, check_refresh,
}
use sara_omega.Identity.Rows.{
  Drawn, insert_token_pair, consume, consume_code, revoke, revoke_where, with_tokens, new_token,
  new_pair, new_bundle, is_open_code, is_open_token,
}
use sara_omega.Identity.Grants.{
  is_parent_code, is_parent_token, Descends, from_code, from_token, after_revoke, revoked-Descends,
  IsGranted, consumed-IsGranted, revoked-IsGranted, added-IsGranted, IsGranted-if,
}

module _ (h : Hashes) where
  pair-IsGranted :
      (config : OauthConfiguration) (uuid client scope parent : String) (drawn : Drawn) (now : ℕ)
      (s t : IdentityStore)
      → IsGranted s
      → IsGranted t
      → ((token token_type : String) (ttl : ℕ)
          → Descends t.oauth_codes t.oauth_tokens
              (new_token h token token_type uuid client scope parent ttl now))
      → IsGranted (insert_token_pair h config uuid client scope parent drawn now s t).1
  unfolding insert_token_pair
  pair-IsGranted config uuid client scope parent drawn now s t gs gt p =
      IsGranted-if
        (any (is_token (token_hash h drawn.access_token)) t.oauth_tokens
          || any (is_token (token_hash h drawn.refresh_token)) t.oauth_tokens
          || str_eq (token_hash h drawn.access_token) (token_hash h drawn.refresh_token))
        (raised "IdentityStoreError", s)
        (
          returned (new_bundle config scope drawn),
          with_tokens (t.oauth_tokens ++ new_pair h config uuid client scope parent drawn now) t,
        )
        gs
        (added-IsGranted t (new_pair h config uuid client scope parent drawn now) gt (
          p drawn.access_token "ACCESS" config.access_ttl_seconds,
          (p drawn.refresh_token "REFRESH" config.refresh_ttl_seconds, tt),
        ))

  check_code_row :
      (client redirect : String) (now : ℕ) (o : Option OauthCode) (s : IdentityStore)
      (c : OauthCode)
      → check_code h client redirect now o s ≡ returned c
      → (o ≡ some c) × (is_open c.consumed_at ≡ true) × (c.client_id_hash ≡ client_id_hash h client)
  unfolding check_code
  check_code_row client redirect now none s c q = cc
  check_code_row client redirect now (some d) s c q =
      let same : d ≡ c = ground arith in
      (
        ap some same,
        ground arith,
        ground (arith, eq_iff d.client_id_hash (client_id_hash h client)),
      )

  exchanged-IsGranted :
      (config : OauthConfiguration) (client : String) (drawn : Drawn) (now : ℕ) (k : String)
      (a : Attempt OauthCode) (s : IdentityStore)
      → ((c : OauthCode)
          → a ≡ returned c
          → (find (is_code k) s.oauth_codes ≡ some c)
            × (is_open c.consumed_at ≡ true)
            × (c.client_id_hash ≡ client_id_hash h client))
      → IsGranted s
      → IsGranted (exchanged h config client drawn now a s).1
  unfolding exchanged
  exchanged-IsGranted config client drawn now k (raised e) s row g = g
  exchanged-IsGranted config client drawn now k (returned c) s row g =
      let (found, open_row, same_client) = row c refl in
      pair-IsGranted config c.user_uuid client c.scope c.code_hash drawn now s
        (consume_code c.code_hash now s) g (consumed-IsGranted c.code_hash now s g)
        λ token token_type ttl.
          let t = new_token h token token_type c.user_uuid client c.scope c.code_hash ttl now in
          let parent : is_parent_code t (consume now c) ≡ true = ground (
            arith,
            eq_iff c.code_hash c.code_hash,
            eq_iff c.user_uuid c.user_uuid,
            eq_iff (client_id_hash h client) c.client_id_hash,
            eq_iff c.scope c.scope,
          ) in
          let from_code_row =
            any-update_where_found (is_parent_code t) (is_open_code c.code_hash) (is_code k)
              (consume now) s.oauth_codes c found (ground (arith, eq_iff c.code_hash c.code_hash))
              parent in
          from_code t from_code_row

  pub exchange_with-IsGranted :
      (config : Attempt OauthConfiguration) (code client redirect : String) (drawn : Drawn)
      (now : ℕ) (s : IdentityStore)
      → IsGranted s
      → IsGranted (exchange_with h config code client redirect drawn now s).1
  unfolding exchange_with
  exchange_with-IsGranted (raised e) code client redirect drawn now s g = g
  exchange_with-IsGranted (returned config) code client redirect drawn now s g =
      let o = find (is_code (token_hash h code)) s.oauth_codes in
      let a = check_code h client redirect now o s in
      IsGranted-if (not (member redirect config.redirect_uris)) (raised "OAuthRejected", s)
        (exchanged h config client drawn now a s) g
        (exchanged-IsGranted config client drawn now (token_hash h code) a s
          (λ c. check_code_row client redirect now o s c) g)

  check_refresh_row :
      (client : String) (now : ℕ) (o : Option OauthToken) (s : IdentityStore) (t : OauthToken)
      → check_refresh h client now o s ≡ returned t
      → (o ≡ some t)
        × (is_open t.revoked_at ≡ true)
        × (t.client_id_hash ≡ client_id_hash h client)
        × (t.token_type ≡ "REFRESH")
  unfolding check_refresh
  check_refresh_row client now none s t q = cc
  check_refresh_row client now (some d) s t q =
      let same : d ≡ t = ground arith in
      (
        ap some same,
        ground arith,
        ground (arith, eq_iff d.client_id_hash (client_id_hash h client)),
        ground (arith, eq_iff d.token_type "REFRESH"),
      )

  refreshed-IsGranted :
      (config : OauthConfiguration) (client : String) (drawn : Drawn) (now : ℕ) (k : String)
      (a : Attempt OauthToken) (s : IdentityStore)
      → ((t : OauthToken)
          → a ≡ returned t
          → (find (is_token k) s.oauth_tokens ≡ some t)
            × (is_open t.revoked_at ≡ true)
            × (t.client_id_hash ≡ client_id_hash h client)
            × (t.token_type ≡ "REFRESH"))
      → IsGranted s
      → IsGranted (refreshed h config client drawn now a s).1
  unfolding refreshed
  refreshed-IsGranted config client drawn now k (raised e) s row g = g
  refreshed-IsGranted config client drawn now k (returned p) s row g =
      let (found, open_row, same_client, is_refresh) = row p refl in
      pair-IsGranted config p.user_uuid client p.scope p.token_hash drawn now s
        (revoke_where (is_open_token p.token_hash) now s) g
        (revoked-IsGranted (is_open_token p.token_hash) now s g)
        λ token token_type ttl.
          let t = new_token h token token_type p.user_uuid client p.scope p.token_hash ttl now in
          let parent : is_parent_token t (revoke now p) ≡ true = ground (
            arith,
            eq_iff p.token_hash p.token_hash,
            eq_iff p.token_type "REFRESH",
            eq_iff p.user_uuid p.user_uuid,
            eq_iff (client_id_hash h client) p.client_id_hash,
            eq_iff p.scope p.scope,
          ) in
          let among = find-Among (is_token k) p s.oauth_tokens found in
          let used = is_open_token p.token_hash in
          let is_used : used p ≡ true = ground (arith, eq_iff p.token_hash p.token_hash) in
          let same : after_revoke used now p ≡ revoke now p = rw is_used refl in
          from_token t (after_revoke used now p)
            (Among-update_where used (revoke now) p s.oauth_tokens among) (rw same parent)
            (revoked-Descends used now s p
              (Every-Among (Descends s.oauth_codes s.oauth_tokens) p s.oauth_tokens g among))

  pub refresh_with-IsGranted :
      (config : Attempt OauthConfiguration) (token client : String) (drawn : Drawn) (now : ℕ)
      (s : IdentityStore)
      → IsGranted s
      → IsGranted (refresh_with h config token client drawn now s).1
  unfolding refresh_with
  refresh_with-IsGranted (raised e) token client drawn now s g = g
  refresh_with-IsGranted (returned config) token client drawn now s g =
      let o = find (is_token (token_hash h token)) s.oauth_tokens in
      refreshed-IsGranted config client drawn now (token_hash h token)
        (check_refresh h client now o s) s (λ t. check_refresh_row client now o s t) g
