-- ===== src/Kernel/Gates.antt =====
-- The gates of `SARAUnifiedGovernanceKernel.evaluate`, one function for each, and
-- `_aggregate_decision`, of sara_unified/governance/unified_kernel.py.
use sara_omega.Prelude.{
  ℕ, String, Bool, false, not, ◌&&◌, ◌||◌, List, [], ◌∷◌, ◌++◌, Option, none, some, if◌then◌else◌,
  any, select, member, is_empty, str_eq,
}
use sara_omega.Prelude.Dict.{Dict, lookup, insert}
use sara_omega.Prelude.Int.{ltb_ℤ}
use sara_omega.Prelude.Text.{sorted_set}
use sara_omega.Prelude.Float.{Float}
use sara_omega.Kernel.Model.{
  Decision, allow, escalate, quarantine, deny, GateStatus, pass, fail, review, not_required,
  is_fail, is_review, ActionRequest, GovernancePolicy, InsurancePolicy, InsuranceRequirementSet,
  InsuranceValidation, PolicyReason, action_not_allowed, tool_not_allowed, prohibited_tags, plain,
  policy_violation, risk_quarantine, risk_above, risk_within, insurance, GateEvidence, no_evidence,
  actor_evidence, capability_evidence, approval_evidence, tag_evidence, transition_evidence,
  factor_evidence, insurance_evidence, GateResult,
}
use sara_omega.Kernel.Insurance.{validate, is_given}
use sara_omega.Kernel.Risk.{risk_score, risk_factors}

-- `(a, b) in pairs`
abbrev pub pair_member : String → String → List (String × String) → Bool
pair_member a b = any (λ p. str_eq a p.0 && str_eq b p.1)

abbrev pub reason_when : Bool → PolicyReason → List PolicyReason
reason_when b x = if b then x ∷ [] else []

abbrev pub hard_gate_names : List String
hard_gate_names =
    "identity" ∷ "authority" ∷ "policy" ∷ "state_transition" ∷ "provenance" ∷ "insurance_coverage"
    ∷ []

module _ {F : Float} where
  unfoldable pub identity_ok : ActionRequest F → Bool
  identity_ok r =
      r.actor.authenticated && not (str_eq r.actor.actor_id "") && not (str_eq r.actor.tenant_id "")

  unfoldable pub identity_gate : ActionRequest F → GateResult F
  unfolding identity_ok
  identity_gate r =
      if identity_ok r
      then record {
        name = "identity";
        status = pass;
        reason = plain "Actor identity is authenticated.";
        evidence = actor_evidence r.actor.actor_id r.actor.actor_type;
      }
      else record {
        name = "identity";
        status = fail;
        reason = plain "Actor identity is not authenticated.";
        evidence = no_evidence;
      }

  unfoldable pub authority_gate : ActionRequest F → GateResult F
  authority_gate r =
      let held = member r.requested_capability r.actor.capabilities in
      record {
        name = "authority";
        status = if held then pass else fail;
        reason =
            if held
            then plain "Actor possesses the requested capability."
            else plain "Actor lacks the requested capability.";
        evidence = capability_evidence r.requested_capability;
      }

  -- `set(policy.prohibited_tags).intersection(request.policy_tags)`, sorted
  unfoldable pub prohibited : ActionRequest F → GovernancePolicy F → List String
  unfolding sorted_set
  prohibited r p = sorted_set (select (λ t. member t r.policy_tags) p.prohibited_tags)

  unfoldable pub policy_reasons : ActionRequest F → GovernancePolicy F → List PolicyReason
  unfolding prohibited
  policy_reasons r p =
      reason_when (not (member r.action p.allowed_actions)) action_not_allowed
      ++ reason_when (not (member r.tool p.allowed_tools)) tool_not_allowed
      ++ reason_when (not (is_empty (prohibited r p))) (prohibited_tags (prohibited r p))

  unfoldable pub policy_gate : ActionRequest F → GovernancePolicy F → GateResult F
  unfolding policy_reasons
  policy_gate r p =
      let reasons = policy_reasons r p in
      record {
        name = "policy";
        status = if is_empty reasons then pass else fail;
        reason =
            if is_empty reasons
            then plain "Action satisfies configured policy."
            else policy_violation reasons;
        evidence = tag_evidence r.policy_tags;
      }

  unfoldable pub transition_gate : ActionRequest F → GovernancePolicy F → GateResult F
  transition_gate r p =
      let t = r.transition in
      let known = pair_member t.from_state t.to_state p.allowed_state_transitions in
      record {
        name = "state_transition";
        status = if known then pass else fail;
        reason =
            if known
            then plain "Requested state transition is allowed."
            else plain "Requested state transition is not allowed.";
        evidence = transition_evidence t.from_state t.to_state t.resource;
      }

  unfoldable pub provenance_gate : ActionRequest F → GateResult F
  provenance_gate r = record {
    name = "provenance";
    status = if r.input_provenance_ok then pass else fail;
    reason =
        if r.input_provenance_ok
        then plain "Input provenance is established."
        else plain "Input provenance is missing or invalid.";
    evidence = no_evidence;
  }

  unfoldable pub risk_status : GovernancePolicy F → F.Num → GateStatus
  risk_status p score =
      if F.le p.quarantine_risk_score score
      then fail
      else if F.lt p.max_risk_score score
      then review
      else pass

  unfoldable pub risk_gate : ActionRequest F → GovernancePolicy F → GateResult F
  unfolding risk_status
  risk_gate r p =
      let score = risk_score F r in
      record {
        name = "counterfactual_risk";
        status = risk_status p score;
        reason = elim (risk_status p score) [
          | fail ↦ risk_quarantine score p.quarantine_risk_score
          | review ↦ risk_above score p.max_risk_score
          | _ ↦ risk_within score
        ];
        evidence = factor_evidence (risk_factors F r);
      }

  unfoldable pub human_required : ActionRequest F → GovernancePolicy F → Bool
  unfolding risk_status
  human_required r p =
      (p.require_human_for_irreversible && not r.transition.reversible)
      || (p.require_human_for_high_impact && r.high_impact_domain)
      || F.le p.require_human_for_financial_over_usd r.financial_value_usd
      || ltb_ℤ p.max_records_without_human r.affected_records
      || is_review (risk_status p (risk_score F r))

  abbrev pub approval_text : Option String → GateEvidence F
  approval_text none = no_evidence
  approval_text (some s) = if str_eq s "" then no_evidence else approval_evidence s

  unfoldable pub human_gate : ActionRequest F → GovernancePolicy F → GateResult F
  unfolding human_required
  human_gate r p =
      let given = is_given r.human_approval_id in
      if human_required r p
      then record {
        name = "human_approval";
        status = if given then pass else review;
        reason =
            if given
            then plain "Required human approval is present."
            else plain "Human approval is required before execution.";
        evidence = approval_text r.human_approval_id;
      }
      else record {
        name = "human_approval";
        status = not_required;
        reason = plain "Human approval is not required for this action.";
        evidence = no_evidence;
      }

  unfoldable pub insurance_by_policy : ActionRequest F → GovernancePolicy F → Bool
  insurance_by_policy r p =
      (p.require_insurance_for_autonomous && r.autonomous)
      || (p.require_insurance_for_high_impact && r.high_impact_domain)

  abbrev pub validated_gate : InsuranceValidation F → GateResult F
  validated_gate v = record {
    name = "insurance_coverage";
    status = v.status;
    reason = insurance v.reasons;
    evidence =
        insurance_evidence v.policy_active v.named_insured_match v.jurisdiction_match
          v.carrier_verified v.matched_coverages;
  }

  -- `today` is the date at which the validator reads the clock.
  unfoldable pub insurance_gate :
      ActionRequest F
      → GovernancePolicy F
      → Option (InsurancePolicy F)
      → Option (InsuranceRequirementSet F)
      → ℕ
      → GateResult F
  unfolding insurance_by_policy
  insurance_gate r p policy (some reqs) today =
      validated_gate (validate policy (some reqs) r.jurisdiction today)
  insurance_gate r p policy none today =
      if insurance_by_policy r p
      then record {
        name = "insurance_coverage";
        status = review;
        reason =
            plain
              "Insurance is required by governance policy, but no requirement set was supplied. Legal/contractual requirements must be configured.";
        evidence = no_evidence;
      }
      else record {
        name = "insurance_coverage";
        status = not_required;
        reason = plain "No configured insurance requirement applies to this action.";
        evidence = no_evidence;
      }

  unfoldable pub gates_of :
      ActionRequest F
      → GovernancePolicy F
      → Option (InsurancePolicy F)
      → Option (InsuranceRequirementSet F)
      → ℕ
      → List (GateResult F)
  gates_of r p policy reqs today =
      identity_gate r
      ∷ authority_gate r
      ∷ policy_gate r p
      ∷ transition_gate r p
      ∷ provenance_gate r
      ∷ risk_gate r p
      ∷ human_gate r p
      ∷ insurance_gate r p policy reqs today
      ∷ []

  -- `{gate.name: gate for gate in gates}`
  unfoldable pub by_name : List (GateResult F) → Dict (GateResult F) → Dict (GateResult F)
  by_name [] d = d
  by_name (g ∷ gs) d = by_name gs (insert g.name g d)

  abbrev pub failed_in : Dict (GateResult F) → String → Bool
  failed_in d name = elim (lookup name d) [ none ↦ false | some g ↦ is_fail g.status ]

  unfoldable pub aggregate_decision : List (GateResult F) → F.Num → GovernancePolicy F → Decision
  unfolding by_name
  aggregate_decision gates score p =
      if any (failed_in (by_name gates [])) hard_gate_names
      then deny
      else if F.le p.quarantine_risk_score score
      then quarantine
      else if any (λ g. is_review g.status) gates
      then escalate
      else allow
