-- ===== src/ModelSovereignty.antt =====
-- `ModelSovereigntyStore` and `ModelSovereigntyService` of app/model_sovereignty.py: which model a
-- runtime may load, and who may add to the models that it may. A table is a dictionary over its
-- primary key; SHA-256 over the canonical JSON of an approval is the argument `payload_hash`, the
-- environment a function of a variable's name.
pub mod Verdicts
pub mod Approvals
use sara_omega.Prelude.{
  ℕ, String, Bool, true, false, not, ◌&&◌, ◌||◌, List, [], ◌∷◌, ◌++◌, map, Option, none, some, any,
  member, select, str_eq, if◌then◌else◌, ◌==◌, leb,
}
use Prim.Native.Char.{code}
use Prim.Native.String.{◌++◌ as str_append}
use sara_omega.Prelude.Dict.{Dict, lookup, insert, has_key}
use sara_omega.Prelude.Text.{strip, lower, is_hex, is_space}
use sara_omega.Prelude.Attempt.{Attempt, returned, raised, ◌>>=◌}

pub data Operation : Type 0 where
  train fine_tune merge_adapter write_checkpoint : Operation
  change_model_uri register_model promote_model swap_endpoint : Operation
  runtime_load : Operation

abbrev pub is_mutation : Operation → Bool
is_mutation train = true
is_mutation fine_tune = true
is_mutation merge_adapter = true
is_mutation write_checkpoint = true
is_mutation _ = false

abbrev pub is_deployment : Operation → Bool
is_deployment change_model_uri = true
is_deployment register_model = true
is_deployment promote_model = true
is_deployment swap_endpoint = true
is_deployment _ = false

pub record ModelLifecycleRequest : Type 0 where
  pub operation : Operation
  pub actor : String
  pub target_model_uri : String
  pub model_digest : Option String

-- `text.removeprefix(prefix)`, where the text begins so.
unfoldable pub after_prefix : String → String → Option String
after_prefix String.[] s = some s
after_prefix (String.◌∷◌ c p) String.[] = none
after_prefix (String.◌∷◌ c p) (String.◌∷◌ d s) =
    let rest = after_prefix p s in if code c == code d then rest else none

-- `DIGEST_RE.fullmatch(text)`
unfoldable pub is_digest : String → Bool
unfolding after_prefix is_hex
is_digest s = elim (after_prefix "sha256:" s) [ none ↦ false | some h ↦ is_hex 64 h ]

unfoldable pub validate_digest : Option String → Attempt (Option String)
unfolding is_digest lower
validate_digest none = returned none
validate_digest (some s) =
    if str_eq s ""
    then returned none
    else if is_digest (lower s)
    then returned (some (lower s))
    else raised "ValueError"

pub record ModelDigestApproval : Type 0 where
  pub model_digest : String
  pub approval_id : String
  pub approved_by : String
  pub scope : String
  pub evidence_id : Option String

-- A row of `model_authorized_digests`, less its key.
pub record DigestRow : Type 0 where
  pub approval : ModelDigestApproval
  pub payload_hash : String
  pub created_at : String

-- The results that an idempotency row holds.
pub data Result : Type 0 where
  reserved model_digest_conflict : Result
  accepted : (model_digest approval_id payload_hash : String) → Result

pub record IdempotencyRow : Type 0 where
  pub operation : String
  pub payload_hash : String
  pub result : Result
  pub created_at : String

pub record Store : Type 0 where
  pub authorized : Dict DigestRow
  pub idempotency : Dict IdempotencyRow

abbrev pub with_result : Result → IdempotencyRow → IdempotencyRow
with_result result row = record {
  operation = row.operation;
  payload_hash = row.payload_hash;
  result = result;
  created_at = row.created_at;
}

abbrev pub reserved_row : String → String → String → IdempotencyRow
reserved_row operation hash now = record {
  operation = operation;
  payload_hash = hash;
  result = reserved;
  created_at = now;
}

abbrev pub with_idempotency : Dict IdempotencyRow → Store → Store
with_idempotency rows s = record { authorized = s.authorized; idempotency = rows }

-- `_reserve`, of the row that the key has: the prior result, or none where a row was inserted.
unfoldable pub reserve_row :
    String
    → String
    → String
    → String
    → Store
    → Option IdempotencyRow
    → Attempt (Option Result × Store)
reserve_row key operation hash now s (some row) =
    if not (str_eq row.operation operation) || not (str_eq row.payload_hash hash)
    then raised "ValueError"
    else returned (some row.result, s)
reserve_row key operation hash now s none =
    returned (none, with_idempotency (insert key (reserved_row operation hash now) s.idempotency) s)

unfoldable pub reserve : String → String → String → String → Store → Attempt (Option Result × Store)
unfolding reserve_row
reserve key operation hash now s = reserve_row key operation hash now s (lookup key s.idempotency)

-- `_complete`
unfoldable pub complete : String → Result → Store → Store
complete key result s = elim (lookup key s.idempotency) [
  | none ↦ s
  | some row ↦ with_idempotency (insert key (with_result result row) s.idempotency) s
]

-- `INSERT OR IGNORE`
abbrev pub insert_digest : ModelDigestApproval → String → String → Store → Store
insert_digest a hash now s = if has_key a.model_digest s.authorized then s else record {
  authorized =
      insert a.model_digest (record { approval = a; payload_hash = hash; created_at = now })
        s.authorized;
  idempotency = s.idempotency;
}

abbrev pub conflicts : String → Option DigestRow → Bool
conflicts hash none = false
conflicts hash (some row) = not (str_eq row.payload_hash hash)

module _ (payload_hash : ModelDigestApproval → String) where
  abbrev pub accepted_result : ModelDigestApproval → Result
  accepted_result a = accepted a.model_digest a.approval_id (payload_hash a)

  -- `save_approval`, after its reservation.
  unfoldable pub after_reserve :
      ModelDigestApproval
      → String
      → String
      → Attempt (Option Result × Store)
      → Store
      → Attempt Result × Store
  unfolding complete
  after_reserve a key now (raised e) s = (raised e, s)
  after_reserve a key now (returned (some prior, t)) s = (returned prior, t)
  after_reserve a key now (returned (none, t)) s =
      if conflicts (payload_hash a) (lookup a.model_digest t.authorized)
      then (raised "ValueError", complete key model_digest_conflict t)
      else (
        returned (accepted_result a),
        complete key (accepted_result a) (insert_digest a (payload_hash a) now t),
      )

  unfoldable pub save_approval :
      ModelDigestApproval → String → String → Store → Attempt Result × Store
  unfolding reserve after_reserve
  save_approval a key now s =
      after_reserve a key now (reserve key "model_digest_approval" (payload_hash a) now s) s

-- `re.split(r"[,;\s]+", text)`, with the value that has been begun; empty values stay out, since
-- no digest is empty.
unfoldable pub split_values : String → String → List String
unfolding is_space
split_values begun String.[] = begun ∷ []
split_values begun (String.◌∷◌ c s) =
    let cut = begun ∷ split_values "" s in
    let longer = split_values (str_append begun (String.◌∷◌ c "")) s in
    if code c == b',' || code c == b';' || is_space (code c) then cut else longer

abbrev pub Environment : Type 0
Environment = String → String

-- `_env_authorized_digests`
unfoldable pub env_authorized_digests : Environment → List String
unfolding split_values is_digest lower strip
env_authorized_digests env =
    select is_digest (map lower (split_values "" (strip (env "SARA_AUTHORIZED_MODEL_DIGESTS"))))

abbrev pub forbidden_names : List String
forbidden_names =
    "OWNER_TOKEN" ∷ "GPT_ACTION_TOKEN" ∷ "TEST_TOKEN" ∷ "SARA_RAILWAY_CONTROL_AUTH_TOKEN"
    ∷ "SARA_SOURCE_CONTROL_AUTH_TOKEN" ∷ "SARA_DEVICE_CONTROL_AUTH_TOKEN"
    ∷ "SARA_ATS_INTELLIGENCE_AUTH_TOKEN" ∷ []

-- `_auth_token`: empty where the token is another authority's too.
unfoldable pub auth_token : Environment → String
unfolding strip
auth_token env =
    let token = strip (env "SARA_MODEL_SOVEREIGNTY_AUTH_TOKEN") in
    if str_eq token "" || member token (map (λ name. strip (env name)) forbidden_names)
    then ""
    else token

-- `(authorization or "").removeprefix("Bearer ").strip()`
unfoldable pub supplied_token : Option String → String
unfolding after_prefix strip
supplied_token none = ""
supplied_token (some s) = elim (after_prefix "Bearer " s) [ none ↦ strip s | some t ↦ strip t ]

-- `authorize_mutation` raises an HTTP error of this status.
unfoldable pub authorize_mutation : Environment → Option String → Attempt {0} Unit
unfolding auth_token supplied_token
authorize_mutation env authorization =
    let token = auth_token env in
    let supplied = supplied_token authorization in
    if str_eq token ""
    then raised "503"
    else if str_eq supplied "" || not (str_eq supplied token)
    then raised "403"
    else returned tt

-- `authorized_digests`, for one digest.
unfoldable pub is_authorized : Environment → Store → Option String → Bool
unfolding env_authorized_digests
is_authorized env s none = false
is_authorized env s (some d) =
    not (str_eq d "") && (member d (env_authorized_digests env) || has_key d s.authorized)

pub data Verdict : Type 0 where
  deny allow : Verdict

pub record Evaluation : Type 0 where
  pub authorized_digest : Bool
  pub verdict : Verdict
  pub reason : String
  pub production_load_allowed : Bool
  pub rollback_required : Bool

abbrev pub denied : Bool → String → Evaluation
denied known reason = record {
  authorized_digest = known;
  verdict = deny;
  reason = reason;
  production_load_allowed = false;
  rollback_required = true;
}

unfoldable pub evaluate : Environment → Store → ModelLifecycleRequest → Evaluation
unfolding is_authorized
evaluate env s r =
    let known = is_authorized env s r.model_digest in
    if is_mutation r.operation
    then denied known "BLOCKED_PENDING_MODEL_CHANGE_AUTHORIZATION"
    else if is_deployment r.operation
    then (if not known
        then denied known "BLOCKED_UNTRUSTED_MODEL_DIGEST"
        else denied known "BLOCKED_PENDING_DEPLOYMENT_AUTHORIZATION")
    else if not known
    then denied known "BLOCKED_UNSIGNED_MODEL_ARTIFACT"
    else record {
      authorized_digest = known;
      verdict = allow;
      reason = "AUTHORIZED_MODEL_DIGEST";
      production_load_allowed = true;
      rollback_required = false;
    }
