-- ===== src/Kernel/Authorized.antt =====
-- The conditions of an allowed action, read off the request and the policy, against the decision
-- of sara_unified/governance/unified_kernel.py.
use sara_omega.Prelude.{
  ℕ, ◌≡◌, refl, ◌≢◌, ◌↔◌, ◌⊎◌, Bool, true, false, ◌||◌, Option, none, some, List, [], ◌∷◌, arith,
  if◌then◌else◌, any, member, Every, any-eq_false, eq_iff, Bool-cases, inl, inr, String,
}
use sara_omega.Prelude.Float.{Float}
use sara_omega.Kernel.Model.{
  allow, escalate, quarantine, deny, pass, fail, is_fail, is_review, ActionRequest,
  GovernancePolicy, InsurancePolicy, InsuranceRequirementSet,
}
use sara_omega.Kernel.Insurance.{validate, validate_supplied, is_given}
use sara_omega.Kernel.Risk.{risk_score}
use sara_omega.Kernel.Gates.{
  identity_ok, identity_gate, authority_gate, policy_gate, transition_gate, provenance_gate,
  pair_member, risk_gate, human_gate, human_required, insurance_by_policy, insurance_gate,
}
use sara_omega.Kernel.Evaluate.{decide}
use sara_omega.Kernel.Statuses.{
  identity_gate-IsFail, authority_gate-IsFail, policy_gate-IsFail, transition_gate-IsFail,
  provenance_gate-IsFail, risk_gate-IsReview, human_gate-IsReview,
}
use sara_omega.Kernel.Decision.{hard_failure, needs_review, decide_lem}

-- What insurance asks for: a valid policy where a requirement set is supplied, and otherwise that
-- the governance policy asks for none.
abbrev pub Insured :
    {F : Float}
    → ActionRequest F
    → GovernancePolicy F
    → Option (InsurancePolicy F)
    → Option (InsuranceRequirementSet F)
    → ℕ
    → Type 0
Insured r p policy none today = insurance_by_policy r p ≡ false
Insured r p policy (some q) today = (validate policy (some q) r.jurisdiction today).status ≡ pass

pub record IsIdentified {F : Float} (r : ActionRequest F) : Type 0 where
  pub authenticated : r.actor.authenticated ≡ true
  pub actor_named : r.actor.actor_id ≢ ""
  pub tenant_named : r.actor.tenant_id ≢ ""

pub record IsPermitted {F : Float} (r : ActionRequest F) (p : GovernancePolicy F) : Type 0 where
  pub capable : member r.requested_capability r.actor.capabilities ≡ true
  pub action_allowed : member r.action p.allowed_actions ≡ true
  pub tool_allowed : member r.tool p.allowed_tools ≡ true
  pub untagged : Every (λ t. member t r.policy_tags ≡ false) p.prohibited_tags
  pub transition_allowed :
      pair_member r.transition.from_state r.transition.to_state p.allowed_state_transitions ≡ true
  pub provenance : r.input_provenance_ok ≡ true

pub record IsWithinRisk {F : Float} (r : ActionRequest F) (p : GovernancePolicy F) : Type 0 where
  pub below_quarantine : F.le p.quarantine_risk_score (risk_score F r) ≡ false
  pub within_risk : F.lt p.max_risk_score (risk_score F r) ≡ false
  pub approved : human_required r p ≡ true → is_given r.human_approval_id ≡ true

any-Every : (q : String → Bool) (xs : List String) → Every (λ x. q x ≡ false) xs → any q xs ≡ false
any-Every q [] h = refl
any-Every q (x ∷ xs) h = ground (arith, any-Every q xs h.1)

ladder-allow_iff :
    (h q n : Bool)
    → ((if h then deny else if q then quarantine else if n then escalate else allow) ≡ allow)
      ↔ ((h ≡ false) × (q ≡ false) × (n ≡ false))
ladder-allow_iff h q n = (λ e. ground arith, λ e. ground arith)

ladder-deny_iff :
    (h q n : Bool)
    → ((if h then deny else if q then quarantine else if n then escalate else allow) ≡ deny)
      ↔ (h ≡ true)
ladder-deny_iff h q n = (λ e. ground arith, λ e. ground arith)

-- The insurance that is supplied does not fail the requirement set.
abbrev pub NotRefused :
    {F : Float}
    → ActionRequest F
    → Option (InsurancePolicy F)
    → Option (InsuranceRequirementSet F)
    → ℕ
    → Type 0
NotRefused r policy none today = Unit
NotRefused r policy (some q) today = (validate policy (some q) r.jurisdiction today).status ≡ pass

module _ {F : Float} (r : ActionRequest F) (p : GovernancePolicy F) where
  identity_ok_iff : (identity_ok r ≡ true) ↔ IsIdentified r
  unfolding identity_ok
  identity_ok_iff = (
    λ h. ground (arith, eq_iff r.actor.actor_id "", eq_iff r.actor.tenant_id ""),
    λ h. ground (arith, eq_iff r.actor.actor_id "", eq_iff r.actor.tenant_id ""),
  )

  validate_passes_or_fails :
      (policy : Option (InsurancePolicy F)) (q : InsuranceRequirementSet F) (j : String) (today : ℕ)
      → ((validate policy (some q) j today).status ≡ pass)
        ⊎ ((validate policy (some q) j today).status ≡ fail)
  unfolding validate
  validate_passes_or_fails none q j today = inr refl
  validate_passes_or_fails (some x) q j today = unfold validate_supplied in ground arith

  module _ (policy : Option (InsurancePolicy F)) (today : ℕ) where
    insurance_gate_iff :
        (reqs : Option (InsuranceRequirementSet F))
        → ((is_fail (insurance_gate r p policy reqs today).status
              || is_review (insurance_gate r p policy reqs today).status)
            ≡ false)
          ↔ Insured r p policy reqs today
    unfolding insurance_gate
    insurance_gate_iff none = (λ h. ground arith, λ h. ground arith)
    insurance_gate_iff (some q) = (
      λ h. ground (arith, validate_passes_or_fails policy q r.jurisdiction today),
      λ h. ground arith,
    )

    plain_gates_iff :
        ((is_fail (authority_gate r).status ≡ false)
          × (is_fail (policy_gate r p).status ≡ false)
          × (is_fail (transition_gate r p).status ≡ false)
          × (is_fail (provenance_gate r).status ≡ false))
        ↔ IsPermitted r p
    plain_gates_iff =
        rw
          (
            authority_gate-IsFail, policy_gate-IsFail, transition_gate-IsFail,
            provenance_gate-IsFail,
          )
          (
            λ h. ground (arith, any-eq_false (λ t. member t r.policy_tags) p.prohibited_tags),
            λ h.
                ground
                  (arith, any-Every (λ t. member t r.policy_tags) p.prohibited_tags h.untagged),
          )

    risk_gates_iff :
        ((F.le p.quarantine_risk_score (risk_score F r) ≡ false)
          × (is_review (risk_gate r p).status ≡ false)
          × (is_review (human_gate r p).status ≡ false))
        ↔ IsWithinRisk r p
    risk_gates_iff =
        rw (risk_gate-IsReview, human_gate-IsReview)
          (λ h. ground arith, λ h. ground (arith, h.approved))

    identity_gate_iff : (is_fail (identity_gate r).status ≡ false) ↔ IsIdentified r
    identity_gate_iff =
        rw identity_gate-IsFail
          (λ h. identity_ok_iff.0 (ground arith), λ h. ground (arith, identity_ok_iff.1 h))

    decide-allow_flags :
        (reqs : Option (InsuranceRequirementSet F))
        → (decide r p policy reqs today ≡ allow) ↔ (
            (hard_failure r p policy reqs today ≡ false)
            × (F.le p.quarantine_risk_score (risk_score F r) ≡ false)
            × (needs_review r p policy reqs today ≡ false))
    decide-allow_flags reqs = rw decide_lem (ladder-allow_iff _ _ _)

    -- An action is allowed exactly when its actor is identified, policy permits it, its risk is
    -- within bounds with any approval that it needs, and it is insured as asked.
    pub decide-allow_iff :
        (reqs : Option (InsuranceRequirementSet F))
        → (decide r p policy reqs today ≡ allow)
          ↔ (IsIdentified r × IsPermitted r p × IsWithinRisk r p × Insured r p policy reqs today)
    decide-allow_iff reqs = (
      λ h.
          let f = (decide-allow_flags reqs).0 h in
          (
            identity_gate_iff.0 (ground arith),
            plain_gates_iff.0 (ground arith, ground arith, ground arith, ground arith),
            risk_gates_iff.0 (ground arith, ground arith, ground arith),
            (insurance_gate_iff reqs).0 (ground arith),
          ),
      λ h.
          let i = identity_gate_iff.1 h.0 in
          let g = plain_gates_iff.1 h.1 in
          let k = risk_gates_iff.1 h.2 in
          let n = (insurance_gate_iff reqs).1 h.3 in
          (decide-allow_flags reqs).1 (ground arith, ground arith, ground arith),
    )

    NotRefused-iff :
        (reqs : Option (InsuranceRequirementSet F))
        → (is_fail (insurance_gate r p policy reqs today).status ≡ false)
          ↔ NotRefused r policy reqs today
    unfolding insurance_gate
    NotRefused-iff none = (λ h. tt, λ h. ground arith)
    NotRefused-iff (some q) = (
      λ h. ground (arith, validate_passes_or_fails policy q r.jurisdiction today),
      λ h. ground arith,
    )

    hard_failure_iff :
        (reqs : Option (InsuranceRequirementSet F))
        → (hard_failure r p policy reqs today ≡ false)
          ↔ (IsIdentified r × IsPermitted r p × NotRefused r policy reqs today)
    hard_failure_iff reqs = (
      λ h. (
        identity_gate_iff.0 (ground arith),
        plain_gates_iff.0 (ground arith, ground arith, ground arith, ground arith),
        (NotRefused-iff reqs).0 (ground arith),
      ),
      λ h.
          let i = identity_gate_iff.1 h.0 in
          let g = plain_gates_iff.1 h.1 in let n = (NotRefused-iff reqs).1 h.2 in ground arith,
    )

    -- An action is denied exactly when its actor is not identified, policy does not permit it, or
    -- the insurance evidence fails the requirement set.
    pub decide-deny_iff :
        (reqs : Option (InsuranceRequirementSet F))
        → (decide r p policy reqs today ≡ deny)
          ↔ (¬ (IsIdentified r × IsPermitted r p × NotRefused r policy reqs today))
    decide-deny_iff reqs = (
      λ h k.
          let e = (ladder-deny_iff _ _ _).0 (rw decide_lem at h) in
          let f = (hard_failure_iff reqs).1 k in cc,
      λ h. elim (Bool-cases (hard_failure r p policy reqs today)) [
        | inl e ↦ rw decide_lem ((ladder-deny_iff _ _ _).1 e)
        | inr e ↦ absurd (h ((hard_failure_iff reqs).0 e))
      ],
    )

    -- At or above the quarantine threshold an action that is not denied is quarantined, whatever
    -- approval it carries.
    pub decide-quarantine :
        (reqs : Option (InsuranceRequirementSet F))
        → IsIdentified r
        → IsPermitted r p
        → NotRefused r policy reqs today
        → F.le p.quarantine_risk_score (risk_score F r) ≡ true
        → decide r p policy reqs today ≡ quarantine
    decide-quarantine reqs i g n q =
        let f = (hard_failure_iff reqs).1 (i, g, n) in rw (decide_lem, f, q)

    -- A score above the threshold for normal execution is never allowed, with a human approval
    -- neither.
    pub decide-ne-allow_of_risk :
        (reqs : Option (InsuranceRequirementSet F))
        → F.lt p.max_risk_score (risk_score F r) ≡ true
        → decide r p policy reqs today ≢ allow
    decide-ne-allow_of_risk reqs h e = let w = ((decide-allow_iff reqs).0 e).2 in ground arith
