-- ===== src/Kernel/Decision.antt =====
-- What the decision of `evaluate` in sara_unified/governance/unified_kernel.py says of a request.
use sara_omega.Prelude.{ℕ, ◌≡◌, refl, Bool, false, ◌||◌, Option, arith, if◌then◌else◌}
use sara_omega.Prelude.Float.{Float}
use sara_omega.Kernel.Model.{
  allow, escalate, quarantine, deny, is_fail, is_review, ActionRequest, GovernancePolicy,
  InsurancePolicy, InsuranceRequirementSet,
}
use sara_omega.Kernel.Risk.{risk_score}
use sara_omega.Kernel.Gates.{
  identity_gate, authority_gate, policy_gate, transition_gate, provenance_gate, risk_gate,
  human_gate, insurance_gate, by_name,
}
use sara_omega.Kernel.Evaluate.{decide}

or-false : (b : Bool) → (b || false) ≡ b
or-false b = ground arith

module _ {F : Float} (r : ActionRequest F) (p : GovernancePolicy F)
    (policy : Option (InsurancePolicy F)) (reqs : Option (InsuranceRequirementSet F))
    (today : ℕ) where
  name-identity_gate : (identity_gate r).name ≡ "identity"
  unfolding identity_gate
  name-identity_gate = ground arith

  name-authority_gate : (authority_gate r).name ≡ "authority"
  unfolding authority_gate
  name-authority_gate = refl

  name-policy_gate : (policy_gate r p).name ≡ "policy"
  unfolding policy_gate
  name-policy_gate = refl

  name-transition_gate : (transition_gate r p).name ≡ "state_transition"
  unfolding transition_gate
  name-transition_gate = refl

  name-provenance_gate : (provenance_gate r).name ≡ "provenance"
  unfolding provenance_gate
  name-provenance_gate = refl

  name-risk_gate : (risk_gate r p).name ≡ "counterfactual_risk"
  unfolding risk_gate
  name-risk_gate = refl

  name-human_gate : (human_gate r p).name ≡ "human_approval"
  unfolding human_gate
  name-human_gate = ground arith

  name-insurance_gate : (insurance_gate r p policy reqs today).name ≡ "insurance_coverage"
  unfolding insurance_gate
  name-insurance_gate = ground arith

  only_fails :
      (is_review (identity_gate r).status ≡ false)
      × (is_review (authority_gate r).status ≡ false)
      × (is_review (policy_gate r p).status ≡ false)
      × (is_review (transition_gate r p).status ≡ false)
      × (is_review (provenance_gate r).status ≡ false)
  unfolding identity_gate authority_gate policy_gate transition_gate provenance_gate
  only_fails = (ground arith, ground arith, ground arith, ground arith, ground arith)

  abbrev pub hard_failure : Bool
  hard_failure =
      is_fail (identity_gate r).status
      || (is_fail (authority_gate r).status
          || (is_fail (policy_gate r p).status
              || (is_fail (transition_gate r p).status
                  || (is_fail (provenance_gate r).status
                      || is_fail (insurance_gate r p policy reqs today).status))))

  abbrev pub needs_review : Bool
  needs_review =
      is_review (risk_gate r p).status
      || (is_review (human_gate r p).status
          || is_review (insurance_gate r p policy reqs today).status)

  -- The dictionary of gates by name finds each gate, so the decision is a test of the statuses.
  pub decide_lem : decide r p policy reqs today ≡ (
      if hard_failure
      then deny
      else if F.le p.quarantine_risk_score (risk_score F r)
      then quarantine
      else if needs_review
      then escalate
      else allow)
  unfolding decide by_name
  decide_lem =
      rw
        (
          name-identity_gate, name-authority_gate, name-policy_gate, name-transition_gate,
          name-provenance_gate, name-risk_gate, name-human_gate, name-insurance_gate,
        )
        (rw (only_fails.0, only_fails.1, only_fails.2, only_fails.3, only_fails.4) (simp or-false))
