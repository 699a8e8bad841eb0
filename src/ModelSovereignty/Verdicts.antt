-- ===== src/ModelSovereignty/Verdicts.antt =====
-- What `evaluate` and `authorize_mutation` of app/model_sovereignty.py let through.
use sara_omega.Prelude.{
  String, ◌≡◌, refl, ◌↔◌, ◌≢◌, Bool, true, false, not, ◌||◌, map, Option, member, str_eq, eq_iff,
  arith, if◌then◌else◌,
}
use sara_omega.Prelude.Text.{strip}
use sara_omega.Prelude.Attempt.{Attempt, returned, raised}
use sara_omega.ModelSovereignty.{
  Operation, runtime_load, is_mutation, is_deployment, ModelLifecycleRequest, Store, Environment,
  is_authorized, allow, evaluate, auth_token, supplied_token, authorize_mutation, forbidden_names,
}

runtime_load_iff :
    (o : Operation) → ((is_mutation o || is_deployment o) ≡ false) ↔ (o ≡ runtime_load)
runtime_load_iff o = (λ h. ground arith, λ h. rw h refl)

-- A request is allowed exactly when it loads a model at run time whose digest is authorised; its
-- result allows the load, and asks for no rollback, exactly when it is allowed.
pub evaluate-allow_iff :
    (env : Environment) (s : Store) (r : ModelLifecycleRequest)
    → (let e = evaluate env s r in
        ((e.verdict ≡ allow)
          ↔ ((r.operation ≡ runtime_load) × (is_authorized env s r.model_digest ≡ true)))
        × ((e.production_load_allowed ≡ true) ↔ (e.verdict ≡ allow))
        × ((e.rollback_required ≡ false) ↔ (e.verdict ≡ allow)))
unfolding evaluate
evaluate-allow_iff env s r = (
  (
    λ h. ground (arith, runtime_load_iff r.operation),
    λ h. ground (arith, runtime_load_iff r.operation),
  ),
  (λ h. ground arith, λ h. ground arith),
  (λ h. ground arith, λ h. ground arith),
)

-- `authorize_mutation` from a token, and whether another authority has it too.
abbrev token_check : String → String → Bool → Attempt {0} Unit
token_check token supplied shared =
    let t = if str_eq token "" || shared then "" else token in
    if str_eq t ""
    then raised "503"
    else if str_eq supplied "" || not (str_eq supplied t)
    then raised "403"
    else returned tt

token_iff :
    (token supplied : String) (shared : Bool)
    → (token_check token supplied shared ≡ returned tt)
      ↔ ((token ≢ "") × (shared ≡ false) × (supplied ≡ token))
token_iff token supplied shared = (
  λ h. ground (arith, eq_iff token "", eq_iff supplied "", eq_iff supplied token),
  λ h. ground (arith, eq_iff token "", eq_iff supplied "", eq_iff supplied token),
)

-- A mutation is authorised exactly when the caller supplies the module's own token, which is set,
-- and is no other authority's.
pub authorize_mutation_iff :
    (env : Environment) (authorization : Option String)
    → (authorize_mutation env authorization ≡ returned tt) ↔ (
        (strip (env "SARA_MODEL_SOVEREIGNTY_AUTH_TOKEN") ≢ "")
        × (member
              (strip (env "SARA_MODEL_SOVEREIGNTY_AUTH_TOKEN"))
              (map (λ name. strip (env name)) forbidden_names)
            ≡ false)
        × (supplied_token authorization ≡ strip (env "SARA_MODEL_SOVEREIGNTY_AUTH_TOKEN")))
unfolding authorize_mutation auth_token
authorize_mutation_iff env authorization =
    let token = strip (env "SARA_MODEL_SOVEREIGNTY_AUTH_TOKEN") in
    let shared = member token (map (λ name. strip (env name)) forbidden_names) in
    token_iff token (supplied_token authorization) shared
