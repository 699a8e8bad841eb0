-- ===== src/Kernel/Statuses.antt =====
-- When each gate of `SARAUnifiedGovernanceKernel.evaluate` fails or asks for a review, in terms of
-- the request and the policy (sara_unified/governance/unified_kernel.py).
use sara_omega.Prelude.{◌≡◌, not, ◌&&◌, arith, any, member, is_empty, is_empty-select}
use sara_omega.Prelude.Text.{is_empty-sorted_set}
use sara_omega.Prelude.Float.{Float}
use sara_omega.Kernel.Model.{is_fail, is_review, ActionRequest, GovernancePolicy}
use sara_omega.Kernel.Insurance.{is_given}
use sara_omega.Kernel.Risk.{risk_score}
use sara_omega.Kernel.Gates.{
  identity_ok, identity_gate, authority_gate, prohibited, policy_reasons, policy_gate, pair_member,
  transition_gate, provenance_gate, risk_gate, human_required, human_gate,
}

module _ {F : Float} (r : ActionRequest F) (p : GovernancePolicy F) where
  pub identity_gate-IsFail : is_fail (identity_gate r).status ≡ not (identity_ok r)
  unfolding identity_gate
  identity_gate-IsFail = ground arith

  pub authority_gate-IsFail :
      is_fail (authority_gate r).status ≡ not (member r.requested_capability r.actor.capabilities)
  unfolding authority_gate
  authority_gate-IsFail = ground arith

  is_empty-prohibited :
      is_empty (prohibited r p) ≡ not (any (λ t. member t r.policy_tags) p.prohibited_tags)
  unfolding prohibited
  is_empty-prohibited = simp (is_empty-sorted_set, is_empty-select)

  pub policy_gate-IsFail :
      is_fail (policy_gate r p).status
      ≡ not (
          member r.action p.allowed_actions
          && member r.tool p.allowed_tools
          && not (any (λ t. member t r.policy_tags) p.prohibited_tags))
  unfolding policy_gate policy_reasons
  policy_gate-IsFail = ground (arith, is_empty-prohibited)

  pub transition_gate-IsFail :
      is_fail (transition_gate r p).status
      ≡ not (pair_member r.transition.from_state r.transition.to_state p.allowed_state_transitions)
  unfolding transition_gate
  transition_gate-IsFail = ground arith

  pub provenance_gate-IsFail : is_fail (provenance_gate r).status ≡ not r.input_provenance_ok
  unfolding provenance_gate
  provenance_gate-IsFail = ground arith

  pub risk_gate-IsReview : is_review (risk_gate r p).status ≡ (
      not (F.le p.quarantine_risk_score (risk_score F r)) && F.lt p.max_risk_score (risk_score F r))
  unfolding risk_gate
  risk_gate-IsReview = ground arith

  pub human_gate-IsReview :
      is_review (human_gate r p).status ≡ (human_required r p && not (is_given r.human_approval_id))
  unfolding human_gate
  human_gate-IsReview = ground arith
