-- ===== src/Identity/Grants.antt =====
-- Where the tokens of app/user_identity.py come from.
pub mod Pairs
pub mod Calls
use sara_omega.Prelude.{
  ℕ, ◌+◌, String, ◌≡◌, refl, ap, Bool, true, false, not, ◌&&◌, ◌||◌, List, [], ◌∷◌, ◌++◌, Option,
  none, some, any, find, update_where, member, Every, Every-append, Every-map_mono,
  Every-update_where, any-append, any-update_where, Among, Among-append, Among-update_where,
  Every-update_where_map, Bool-cases, inl, inr, any-update_where_found, str_eq, eq_iff, leb,
  if◌then◌else◌, arith,
}
use sara_omega.Prelude.Spent.{is_open}
use sara_omega.Prelude.Attempt.{Attempt, returned, raised}
use sara_omega.Identity.{
  User, AccountRecord, Invite, OauthCode, OauthToken, IdentityStore, Hashes, is_code, is_token,
  token_hash, client_id_hash, auth_subject_hash,
}
use sara_omega.Identity.Clients.{Url, OauthConfiguration, OauthEnvironment}
use sara_omega.Identity.Enroll.{create_invitation, enroll, enrolled, enroll_checked}
use sara_omega.Identity.Tokens.{
  issue_authorization_code, exchange_authorization_code, refresh_access_token, revoke_token,
  issue_with, exchange_with, refresh_with, revoke_with, exchanged, refreshed, check_code,
  check_refresh,
}
use sara_omega.Identity.Rows.{
  Drawn, OauthTokenBundle, insert_token_pair, consume, consume_code, revoke, revoke_where,
  with_codes, with_tokens, new_token, new_pair, new_bundle, is_open_code, is_open_token,
  user_active,
}
use sara_omega.Identity.Lockout.{
  LockoutValues, authenticate_for_oauth, settle_login, record_auth_failure, clear_auth_failures,
}
use sara_omega.Identity.Calls.{
  Call, invite, enroll_with, issue, exchange, refresh, login, perform, perform_all,
}

abbrev pub is_text : Option String → String → Bool
is_text none t = false
is_text (some s) t = str_eq s t

-- A used code of the token's user, client and scope, whose hash the token names as its parent.
abbrev pub is_parent_code : OauthToken → OauthCode → Bool
is_parent_code t c =
    is_text t.parent_hash c.code_hash
    && not (is_open c.consumed_at)
    && str_eq t.user_uuid c.user_uuid
    && str_eq t.client_id_hash c.client_id_hash
    && str_eq t.scope c.scope

-- A revoked refresh token of the same user, client and scope.
abbrev pub is_parent_token : OauthToken → OauthToken → Bool
is_parent_token t p =
    is_text t.parent_hash p.token_hash
    && not (is_open p.revoked_at)
    && str_eq p.token_type "REFRESH"
    && str_eq t.user_uuid p.user_uuid
    && str_eq t.client_id_hash p.client_id_hash
    && str_eq t.scope p.scope

-- A token that descends from an authorization code of a store: its parent is a used code, or a
-- revoked refresh token of the store that descends from a code itself.
pub data Descends (codes : List OauthCode) (tokens : List OauthToken) : OauthToken → Type 0 where
  from_code : (t : OauthToken) → any (is_parent_code t) codes ≡ true → Descends codes tokens t
  from_token :
      (t p : OauthToken)
      → Among p tokens
      → is_parent_token t p ≡ true
      → Descends codes tokens p
      → Descends codes tokens t

-- Every token descends from a code.
abbrev pub IsGranted : IdentityStore → Type 0
IsGranted s = Every (Descends s.oauth_codes s.oauth_tokens) s.oauth_tokens

-- What keeps the codes that are parents, and changes the tokens alike, keeps the descent.
Descends-change :
    (s u : IdentityStore) (f : OauthToken → OauthToken)
    → ((t : OauthToken)
        → any (is_parent_code t) s.oauth_codes ≡ true
        → any (is_parent_code (f t)) u.oauth_codes ≡ true)
    → ((p : OauthToken) → Among p s.oauth_tokens → Among (f p) u.oauth_tokens)
    → ((t p : OauthToken) → is_parent_token t p ≡ true → is_parent_token (f t) (f p) ≡ true)
    → {t : OauthToken} → Descends s.oauth_codes s.oauth_tokens t
    → Descends u.oauth_codes u.oauth_tokens (f t)
Descends-change s u f codes tokens link (from_code t h) = from_code (f t) (codes t h)
Descends-change s u f codes tokens link (from_token t p m h d) =
    from_token (f t) (f p) (tokens p m) (link t p h) (Descends-change s u f codes tokens link d)

pub codes_mono :
    (s : IdentityStore) (rows : List OauthCode)
    → ((t : OauthToken)
        → any (is_parent_code t) s.oauth_codes ≡ true
        → any (is_parent_code t) rows ≡ true)
    → IsGranted s
    → IsGranted (with_codes rows s)
codes_mono s rows keep g =
    Every-map_mono (Descends s.oauth_codes s.oauth_tokens) (Descends rows s.oauth_tokens)
      s.oauth_tokens
      (λ t d. Descends-change s (with_codes rows s) (λ x. x) keep (λ p m. m) (λ x p h. h) d) g

pub consumed-IsGranted :
    (hash : String) (now : ℕ) (s : IdentityStore)
    → IsGranted s
    → IsGranted (consume_code hash now s)
consumed-IsGranted hash now s = codes_mono s _ (λ t h.
    any-update_where (is_parent_code t) (is_open_code hash) (consume now) s.oauth_codes
      (λ c q. ground arith) h)

-- A token after the revocation.
abbrev pub after_revoke : (OauthToken → Bool) → ℕ → OauthToken → OauthToken
after_revoke p now t = if p t then revoke now t else t

parent_code-after :
    (p : OauthToken → Bool) (now : ℕ) (t : OauthToken) (codes : List OauthCode)
    → any (is_parent_code t) codes ≡ true
    → any (is_parent_code (after_revoke p now t)) codes ≡ true
parent_code-after p now t codes h = elim (Bool-cases (p t)) [ inl e ↦ rw e h | inr e ↦ rw e h ]

parent_token-after :
    (p : OauthToken → Bool) (now : ℕ) (t o : OauthToken)
    → is_parent_token t o ≡ true
    → is_parent_token (after_revoke p now t) (after_revoke p now o) ≡ true
parent_token-after p now t o h = elim (Bool-cases (p t)) [
  | inl e ↦ elim (Bool-cases (p o)) [ inl q ↦ rw (e, q) (ground arith) | inr q ↦ rw (e, q) h ]
  | inr e ↦ elim (Bool-cases (p o)) [ inl q ↦ rw (e, q) (ground arith) | inr q ↦ rw (e, q) h ]
]

pub revoked-Descends :
    (p : OauthToken → Bool) (now : ℕ) (s : IdentityStore) (t : OauthToken)
    → Descends s.oauth_codes s.oauth_tokens t
    → Descends s.oauth_codes (update_where p (revoke now) s.oauth_tokens) (after_revoke p now t)
revoked-Descends p now s t d =
    Descends-change s (revoke_where p now s) (after_revoke p now)
      (λ x h. parent_code-after p now x s.oauth_codes h)
      (λ o m. Among-update_where p (revoke now) o s.oauth_tokens m) (parent_token-after p now) d

pub revoked-IsGranted :
    (p : OauthToken → Bool) (now : ℕ) (s : IdentityStore)
    → IsGranted s
    → IsGranted (revoke_where p now s)
revoked-IsGranted p now s g =
    Every-update_where_map (Descends s.oauth_codes s.oauth_tokens)
      (Descends s.oauth_codes (update_where p (revoke now) s.oauth_tokens)) p (revoke now)
      s.oauth_tokens (revoked-Descends p now s) g

pub added-IsGranted :
    (s : IdentityStore) (rows : List OauthToken)
    → IsGranted s
    → Every (Descends s.oauth_codes s.oauth_tokens) rows
    → IsGranted (with_tokens (s.oauth_tokens ++ rows) s)
added-IsGranted s rows g new =
    let u = with_tokens (s.oauth_tokens ++ rows) s in
    Every-map_mono (Descends s.oauth_codes s.oauth_tokens) (Descends u.oauth_codes u.oauth_tokens)
      (s.oauth_tokens ++ rows)
      (λ t d.
        Descends-change s u (λ x. x) (λ x h. h) (λ p m. Among-append p s.oauth_tokens rows m)
          (λ x p h. h) d)
      (Every-append (Descends s.oauth_codes s.oauth_tokens) s.oauth_tokens rows g new)

pub IsGranted-if {ℓ} :
    {X : Type ℓ} (b : Bool) (x y : X × IdentityStore)
    → IsGranted x.1
    → IsGranted y.1
    → IsGranted (if b then x else y).1
IsGranted-if true x y p q = p
IsGranted-if false x y p q = q
