-- ===== src/Examples/Data.antt =====
-- An incident that an operator opens under the production policy, and insurance that covers it.
use sara_omega.Prelude.{ℕ, String, true, false, none, some, List, [], ◌∷◌}
use sara_omega.Prelude.Int.{pos}
use sara_omega.Prelude.Float.{fixed}
use sara_omega.Kernel.Model.{
  ActorIdentity, ActionRequest, GovernancePolicy, Coverage, InsurancePolicy,
  InsuranceRequirementSet,
}
use sara_omega.Kernel.Evaluate.{Crypto}
use sara_omega.Enforcement.{AuthorizeCall, AuditDetails, Boundary, Moment}
use sara_omega.Enforcement.Policy.{default_production_policy}
use sara_omega.Audit.{Line, malformed, Json}

abbrev pub policy : GovernancePolicy fixed
policy = default_production_policy fixed

abbrev pub operator : ActorIdentity
operator = record {
  actor_id = "operator-7";
  actor_type = "api";
  tenant_id = "sara";
  authenticated = true;
  roles = [];
  capabilities = "incident:create" ∷ [];
}

abbrev pub incident : ActionRequest fixed
incident = record {
  request_id = "req-1";
  actor = operator;
  action = "incident.create";
  resource = "pump-3";
  tool = "incident-commander";
  jurisdiction = "US-TX";
  requested_capability = "incident:create";
  transition = record {
    resource = "pump-3";
    from_state = "NONE";
    to_state = "OPEN";
    reversible = true;
    production = true;
  };
  input_provenance_ok = true;
  policy_tags = [];
  affected_records = pos 0;
  financial_value_usd = 0;
  contains_sensitive_data = false;
  high_impact_domain = false;
  anomaly_score = 0;
  external_network_access = false;
  autonomous = false;
  human_approval_id = none;
  metadata = [];
}

-- The same without a known actor, and with every risk.
abbrev pub anonymous : ActionRequest fixed
anonymous = record incident { actor = record operator { authenticated = false } }

abbrev pub reckless : ActionRequest fixed
reckless = record incident {
  transition = record {
    resource = "pump-3";
    from_state = "NONE";
    to_state = "OPEN";
    reversible = false;
    production = true;
  };
  contains_sensitive_data = true;
  high_impact_domain = true;
  external_network_access = true;
  autonomous = true;
}

abbrev pub cyber : Coverage fixed
cyber = record {
  name = "cyber";
  limit_usd = 50000000;
  deductible_usd = 0;
  endorsements = "AI agents" ∷ [];
  exclusions = [];
}

abbrev pub insurance : InsurancePolicy fixed
insurance = record {
  policy_id = "ins-1";
  carrier = "Carrier";
  named_insured = "SARA";
  effective_date = 100;
  expiration_date = 200;
  coverages = cyber ∷ [];
  jurisdictions = "US-TX" ∷ [];
  verified_by = some "broker";
  verification_reference = some "ref-1";
}

abbrev pub requirements : InsuranceRequirementSet fixed
requirements = record {
  requirement_id = "reqs-1";
  expected_named_insured = "SARA";
  requirements =
      record {
        coverage_name = "cyber";
        minimum_limit_usd = 10000000;
        forbidden_exclusion_keywords = "war" ∷ [];
        required_endorsement_keywords = [];
      }
      ∷ [];
  allowed_jurisdictions = "US-TX" ∷ [];
  carrier_verification_required = true;
}

-- A digest of the decision alone, and a tag of the key alone: enough to run the code.
abbrev pub crypto : Crypto fixed
crypto = record {
  digest_request = λ r. r.request_id;
  digest_payload = λ u. u.decision;
  hmac = λ key hash. key;
}

abbrev pub call : AuthorizeCall fixed
call = record {
  profile = record {
    action = "incident.create";
    tool = "incident-commander";
    capability = "incident:create";
    from_state = "NONE";
    to_state = "OPEN";
    reversible = true;
    production = true;
    external_network_access = false;
    high_impact_domain = false;
  };
  actor_id = "operator-7";
  actor_type = "api";
  capabilities = "incident:create" ∷ [];
  input_provenance_ok = true;
  resource = "pump-3";
  jurisdiction = "US-TX";
  human_approval_id = none;
  affected_records = pos 0;
  financial_value_usd = 0;
  contains_sensitive_data = false;
  anomaly_score = 0;
  autonomous = false;
  policy_tags = [];
  metadata = [];
  insurance_policy = none;
  insurance_requirements = none;
}

abbrev pub blank_call : AuthorizeCall fixed
blank_call = record call { actor_id = " " }

abbrev pub boundary : Boundary fixed
boundary = record {
  required = true;
  tenant_id = "sara";
  policy = policy;
  kernel = some "0123456789abcdef";
  configuration_error = none;
}

abbrev pub moment : Moment
moment = record { request_id = "req-1"; issued_at = "2026-09-19T00:00:00Z"; today = 150 }

abbrev pub sha256 : List ℕ → String
sha256 text = "digest"

-- A JSON in which every event is `{}`, that is read back as one event.
abbrev pub json_of : Line (AuditDetails fixed) → Json (AuditDetails fixed)
json_of read = record {
  body_text = λ b. b'{' ∷ [];
  event_text = λ e. b'{' ∷ b'}' ∷ [];
  parse = λ l. read;
}

abbrev pub json : Json (AuditDetails fixed)
json = json_of malformed

abbrev pub empty_file : List ℕ
empty_file = []

abbrev pub one_line : List ℕ
one_line = b'{' ∷ b'}' ∷ 10 ∷ []
