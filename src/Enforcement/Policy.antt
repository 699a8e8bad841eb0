-- ===== src/Enforcement/Policy.antt =====
-- `DEFAULT_PRODUCTION_POLICY` of sara_unified/governance/enforcement.py.
use sara_omega.Prelude.{true, false, [], ◌∷◌}
use sara_omega.Prelude.Int.{pos}
use sara_omega.Prelude.Float.{Float}
use sara_omega.Kernel.Model.{GovernancePolicy}

abbrev pub default_production_policy : (F : Float) → GovernancePolicy F
default_production_policy F = record {
  policy_id = "sara-production-enforcement";
  version = "2026.09.19";
  allowed_actions =
      "twin.observe" ∷ "incident.create" ∷ "recovery.execute" ∷ "voice.synthesize" ∷ [];
  allowed_tools =
      "digital-twin" ∷ "incident-commander" ∷ "recovery-registry" ∷ "voice-service" ∷ [];
  allowed_state_transitions =
      ("OBSERVED", "CANONICAL")
      ∷ ("NONE", "OPEN")
      ∷ ("DEGRADED", "RECOVERING")
      ∷ ("TEXT_VALIDATED", "AUDIO_SYNTHESIZED")
      ∷ [];
  prohibited_tags = [];
  require_human_for_irreversible = true;
  require_human_for_high_impact = true;
  require_human_for_financial_over_usd = F.lit 100000000;
  require_insurance_for_autonomous = false;
  require_insurance_for_high_impact = false;
  max_records_without_human = pos 1000;
  max_risk_score = F.lit 6000;
  quarantine_risk_score = F.lit 9000;
}
