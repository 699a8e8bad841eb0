-- ===== src/Kernel/Model.antt =====
-- The data of sara_unified/governance/unified_kernel.py: requests, policies, gates, insurance and
-- evidence. A float is a number of the interface `Float`, a date its ordinal. A message is a value
-- that holds what its format string is given.
use sara_omega.Prelude.{ℕ, String, Bool, true, false, List, Option}
use sara_omega.Prelude.Dict.{Dict}
use sara_omega.Prelude.Int.{ℤ}
use sara_omega.Prelude.Float.{Float}

pub data Decision : Type 0 where
  allow restrict escalate quarantine deny : Decision

pub data GateStatus : Type 0 where
  pass fail review not_required : GateStatus

abbrev pub decision_value : Decision → String
decision_value allow = "ALLOW"
decision_value restrict = "RESTRICT"
decision_value escalate = "ESCALATE"
decision_value quarantine = "QUARANTINE"
decision_value deny = "DENY"

abbrev pub status_value : GateStatus → String
status_value pass = "PASS"
status_value fail = "FAIL"
status_value review = "REVIEW"
status_value not_required = "NOT_REQUIRED"

abbrev pub is_fail : GateStatus → Bool
is_fail fail = true
is_fail _ = false

abbrev pub is_review : GateStatus → Bool
is_review review = true
is_review _ = false

pub record ActorIdentity : Type 0 where
  pub actor_id : String
  pub actor_type : String
  pub tenant_id : String
  pub authenticated : Bool
  pub roles : List String
  pub capabilities : List String

pub record StateTransition : Type 0 where
  pub resource : String
  pub from_state : String
  pub to_state : String
  pub reversible : Bool
  pub production : Bool

pub record ActionRequest (F : Float) : Type 0 where
  pub request_id : String
  pub actor : ActorIdentity
  pub action : String
  pub resource : String
  pub tool : String
  pub jurisdiction : String
  pub requested_capability : String
  pub transition : StateTransition
  pub input_provenance_ok : Bool
  pub policy_tags : List String
  pub affected_records : ℤ
  pub financial_value_usd : F.Num
  pub contains_sensitive_data : Bool
  pub high_impact_domain : Bool
  pub anomaly_score : F.Num
  pub external_network_access : Bool
  pub autonomous : Bool
  pub human_approval_id : Option String
  pub metadata : Dict String

pub record GovernancePolicy (F : Float) : Type 0 where
  pub policy_id : String
  pub version : String
  pub allowed_actions : List String
  pub allowed_tools : List String
  pub allowed_state_transitions : List (String × String)
  pub prohibited_tags : List String
  pub require_human_for_irreversible : Bool
  pub require_human_for_high_impact : Bool
  pub require_human_for_financial_over_usd : F.Num
  pub require_insurance_for_autonomous : Bool
  pub require_insurance_for_high_impact : Bool
  pub max_records_without_human : ℤ
  pub max_risk_score : F.Num
  pub quarantine_risk_score : F.Num

pub record Coverage (F : Float) : Type 0 where
  pub name : String
  pub limit_usd : F.Num
  pub deductible_usd : F.Num
  pub endorsements : List String
  pub exclusions : List String

pub record InsurancePolicy (F : Float) : Type 0 where
  pub policy_id : String
  pub carrier : String
  pub named_insured : String
  pub effective_date : ℕ
  pub expiration_date : ℕ
  pub coverages : List (Coverage F)
  pub jurisdictions : List String
  pub verified_by : Option String
  pub verification_reference : Option String

pub record CoverageRequirement (F : Float) : Type 0 where
  pub coverage_name : String
  pub minimum_limit_usd : F.Num
  pub forbidden_exclusion_keywords : List String
  pub required_endorsement_keywords : List String

pub record InsuranceRequirementSet (F : Float) : Type 0 where
  pub requirement_id : String
  pub expected_named_insured : String
  pub requirements : List (CoverageRequirement F)
  pub allowed_jurisdictions : List String
  pub carrier_verification_required : Bool

pub data InsuranceReason (F : Float) : Type 0 where
  no_requirement no_evidence not_active insured_mismatch : InsuranceReason F
  jurisdiction_uncovered carrier_unverified satisfied : InsuranceReason F
  coverage_missing : String → InsuranceReason F
  limit_below : String → F.Num → F.Num → InsuranceReason F
  bad_exclusions missing_endorsements : String → List String → InsuranceReason F

-- The keys that only a failed check adds are optional.
pub record CoverageDetails (F : Float) : Type 0 where
  pub limit_usd : F.Num
  pub required_limit_usd : F.Num
  pub deductible_usd : F.Num
  pub endorsements : List String
  pub exclusions : List String
  pub matched_forbidden_exclusions : Option (List String)
  pub missing_required_endorsements : Option (List String)

pub record InsuranceValidation (F : Float) : Type 0 where
  pub status : GateStatus
  pub reasons : List (InsuranceReason F)
  pub matched_coverages : Dict (CoverageDetails F)
  pub policy_active : Bool
  pub named_insured_match : Bool
  pub jurisdiction_match : Bool
  pub carrier_verified : Bool

pub data PolicyReason : Type 0 where
  action_not_allowed tool_not_allowed : PolicyReason
  prohibited_tags : List String → PolicyReason

pub data Reason (F : Float) : Type 0 where
  plain : String → Reason F
  policy_violation : List PolicyReason → Reason F
  risk_quarantine risk_above : F.Num → F.Num → Reason F
  risk_within : F.Num → Reason F
  insurance : List (InsuranceReason F) → Reason F

pub data GateEvidence (F : Float) : Type 0 where
  no_evidence : GateEvidence F
  actor_evidence : String → String → GateEvidence F
  capability_evidence approval_evidence : String → GateEvidence F
  tag_evidence : List String → GateEvidence F
  transition_evidence : String → String → String → GateEvidence F
  factor_evidence : Dict F.Num → GateEvidence F
  insurance_evidence : Bool → Bool → Bool → Bool → Dict (CoverageDetails F) → GateEvidence F

pub record GateResult (F : Float) : Type 0 where
  pub name : String
  pub status : GateStatus
  pub reason : Reason F
  pub evidence : GateEvidence F

-- `GateResult.passed`
unfoldable pub passed : {F : Float} → GateResult F → Bool
passed g = elim g.status [ pass ↦ true | not_required ↦ true | _ ↦ false ]

pub record ExecutionEvidence (F : Float) : Type 0 where
  pub evidence_version : String
  pub issued_at : String
  pub request_id : String
  pub decision : Decision
  pub policy_id : String
  pub policy_version : String
  pub gate_results : List (GateResult F)
  pub risk_score : F.Num
  pub risk_factors : Dict F.Num
  pub request_digest : String
  pub previous_evidence_hash : Option String
  pub evidence_hash : String
  pub signature : String
