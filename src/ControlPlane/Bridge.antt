-- ===== src/ControlPlane/Bridge.antt =====
-- The data and the checks of `RailwayControlBridge` of app/control_plane.py. What the HTTP client
-- and Railway answer is data: a missing or mistyped JSON field is `none`.
use sara_omega.Prelude.{
  ℕ, String, Bool, false, not, ◌||◌, List, Option, none, some, map, str_eq, if◌then◌else◌, ◌==◌,
}
use sara_omega.Prelude.Text.{strip, lower, is_hex, occurs, codes, to_lower, join_words}
use sara_omega.Prelude.Attempt.{Attempt, returned, raised, ◌>>=◌}
use sara_omega.ControlPlane.{
  Status, completed, submission_unverified, Report, MutationRecord, Ledger,
}

-- A deployment as Railway reports it.
pub record Node : Type 0 where
  pub id : Option String
  pub project_id : Option String
  pub service_id : Option String
  pub environment_id : Option String

-- What the query comes back with: a transport error, or a status and, of its JSON, whether it has
-- errors and the first deployment.
pub data ReadReply : Type 0 where
  read_failed : ReadReply
  read_response : (status : ℕ) (errors : Bool) → Option Node → ReadReply

-- What the mutation comes back with: the name of a transport error, or a status and, of its JSON,
-- the messages of its errors and the deployment's id.
pub data DeployReply : Type 0 where
  deploy_failed : (reason : String) → DeployReply
  deploy_response : (status : ℕ) (messages : List String) → Option String → DeployReply

pub record Target : Type 0 where
  pub project_id : String
  pub service_id : String
  pub environment_id : String

-- The two requests of the bridge, over the state of what is behind them.
pub record Client (W : Type 0) : Type 0 where
  pub query : Target → W → ReadReply × W
  pub mutate : Target → String → W → DeployReply × W

pub record Bridge : Type 0 where
  pub inbound_token : String
  pub target : Target

pub record Call : Type 0 where
  pub auth_token : String
  pub commit_sha : String
  pub expected_current_deployment_id : String
  pub idempotency_key : String
  pub reserved_at : String
  pub marked_at : String

-- `request_payload`, less the repository, which is a constant.
pub record Request : Type 0 where
  pub target : Target
  pub commit_sha : String
  pub expected_current_deployment_id : String

-- The table, what is behind the client, and the keys of the mutations that were sent, the last one
-- first: a history that the code does not keep.
pub record Plane (W : Type 0) : Type 0 where
  pub ledger : Ledger
  pub world : W
  pub sent : List String

unfoldable pub authenticate : String → String → Attempt {0} Unit
authenticate expected supplied =
    if str_eq expected "" || str_eq supplied "" || not (str_eq expected supplied)
    then raised "AuthenticationRejected"
    else returned tt

unfoldable pub validate_commit_sha : String → Attempt String
unfolding strip lower is_hex
validate_commit_sha commit_sha =
    let normalized = lower (strip commit_sha) in
    if is_hex 40 normalized then returned normalized else raised "BindingRejected"

abbrev pub is_text : Option String → String → Bool
is_text none s = false
is_text (some t) s = str_eq t s

unfoldable pub bound_id : Target → Node → Attempt String
bound_id target n =
    if not (is_text n.project_id target.project_id)
      || not (is_text n.service_id target.service_id)
      || not (is_text n.environment_id target.environment_id)
    then raised "BindingRejected"
    else elim n.id [
      | none ↦ raised "BindingRejected"
      | some i ↦ if str_eq i "" then raised "BindingRejected" else returned i
    ]

-- `_current_deployment`, from the reply: the id of the node, which is all that its caller reads.
unfoldable pub current_deployment : Target → ReadReply → Attempt String
unfolding bound_id
current_deployment target read_failed = raised "BindingRejected"
current_deployment target (read_response status errors none) = raised "BindingRejected"
current_deployment target (read_response status errors (some n)) =
    if not (status == 200) || errors then raised "BindingRejected" else bound_id target n

abbrev pub stored_result : Status → Option Report → Attempt (Option Report)
stored_result completed (some x) = returned (some x)
stored_result submission_unverified x = raised "SubmissionUnverified"
stored_result _ _ = raised "IdempotencyConflict"

unfoldable pub existing_idempotency_result :
    Option MutationRecord → String → Attempt (Option Report)
existing_idempotency_result none request_hash = returned none
existing_idempotency_result (some r) request_hash =
    if not (str_eq r.request_hash request_hash)
    then raised "IdempotencyConflict"
    else stored_result r.status r.result

abbrev pub required_deployment : String → Attempt String
required_deployment expected =
    if str_eq expected "" then raised "CompareAndSwapRejected" else returned expected

-- The checks before the ledger is read.
unfoldable pub checked : Bridge → Call → Attempt Request
unfolding authenticate validate_commit_sha strip
checked b c = do
  _ ← authenticate b.inbound_token c.auth_token
  sha ← validate_commit_sha c.commit_sha
  expected ← required_deployment (strip c.expected_current_deployment_id)
  returned
      (record { target = b.target; commit_sha = sha; expected_current_deployment_id = expected })

-- `"commit not found" in " ".join(messages).lower()`
unfoldable pub says_not_found : List String → Bool
unfolding occurs to_lower join_words
says_not_found messages =
    occurs (codes "commit not found") (map to_lower (join_words (map codes messages)))
