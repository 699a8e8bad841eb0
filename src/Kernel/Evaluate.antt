-- ===== src/Kernel/Evaluate.antt =====
-- `SARAUnifiedGovernanceKernel.evaluate`, `_unsigned_evidence_payload` and
-- `IndependentEvidenceVerifier.verify` of sara_unified/governance/unified_kernel.py. SHA-256 over
-- the canonical JSON and HMAC are the interface `Crypto`.
use sara_omega.Prelude.{ℕ, String, not, List, map, Option, if◌then◌else◌, str_eq}
use sara_omega.Prelude.Dict.{Dict}
use sara_omega.Prelude.Float.{Float}
use sara_omega.Kernel.Model.{
  Decision, decision_value, status_value, ActionRequest, GovernancePolicy, InsurancePolicy,
  InsuranceRequirementSet, Reason, GateEvidence, GateResult, ExecutionEvidence,
}
use sara_omega.Kernel.Risk.{risk_score, risk_factors}
use sara_omega.Kernel.Gates.{gates_of, aggregate_decision}

pub record GatePayload (F : Float) : Type 0 where
  pub name : String
  pub status : String
  pub reason : Reason F
  pub evidence : GateEvidence F

pub record UnsignedPayload (F : Float) : Type 0 where
  pub evidence_version : String
  pub issued_at : String
  pub request_id : String
  pub decision : String
  pub policy_id : String
  pub policy_version : String
  pub gate_results : List (GatePayload F)
  pub risk_score : F.Num
  pub risk_factors : Dict F.Num
  pub request_digest : String
  pub previous_evidence_hash : Option String

-- `_digest` at the two kinds of value that the kernel hashes, and the HMAC over a hash.
pub record Crypto (F : Float) : Type 0 where
  pub digest_request : ActionRequest F → String
  pub digest_payload : UnsignedPayload F → String
  pub hmac : String → String → String

-- The answers of the verifier: `(True, ...)`, and `(False, ...)` with one of two messages.
pub data Verified : Type 0 where
  valid hash_mismatch signature_mismatch : Verified

module _ {F : Float} where
  abbrev pub gate_payload : GateResult F → GatePayload F
  gate_payload g = record {
    name = g.name;
    status = status_value g.status;
    reason = g.reason;
    evidence = g.evidence;
  }

  -- `_unsigned_evidence_payload` of the fields of an evidence record
  unfoldable pub unsigned_payload : ExecutionEvidence F → UnsignedPayload F
  unsigned_payload e = record {
    evidence_version = e.evidence_version;
    issued_at = e.issued_at;
    request_id = e.request_id;
    decision = decision_value e.decision;
    policy_id = e.policy_id;
    policy_version = e.policy_version;
    gate_results = map gate_payload e.gate_results;
    risk_score = e.risk_score;
    risk_factors = e.risk_factors;
    request_digest = e.request_digest;
    previous_evidence_hash = e.previous_evidence_hash;
  }

  -- The last steps of `evaluate`: the hash of the payload, and its HMAC.
  unfoldable pub sealed : Crypto F → String → ExecutionEvidence F → ExecutionEvidence F
  unfolding unsigned_payload
  sealed c key e =
      let hash = c.digest_payload (unsigned_payload e) in
      record e { evidence_hash = hash; signature = c.hmac key hash }

  unfoldable pub decide :
      ActionRequest F
      → GovernancePolicy F
      → Option (InsurancePolicy F)
      → Option (InsuranceRequirementSet F)
      → ℕ
      → Decision
  unfolding aggregate_decision gates_of
  decide r p policy reqs today =
      aggregate_decision (gates_of r p policy reqs today) (risk_score F r) p

  -- `issued_at` and `today` are the clock's text and date.
  unfoldable pub evaluate :
      Crypto F
      → String
      → String
      → ℕ
      → ActionRequest F
      → GovernancePolicy F
      → Option (InsurancePolicy F)
      → Option (InsuranceRequirementSet F)
      → Option String
      → ExecutionEvidence F
  unfolding decide sealed
  evaluate c key issued_at today r p policy reqs previous = sealed c key (record {
    evidence_version = "1.0";
    issued_at = issued_at;
    request_id = r.request_id;
    decision = decide r p policy reqs today;
    policy_id = p.policy_id;
    policy_version = p.version;
    gate_results = gates_of r p policy reqs today;
    risk_score = risk_score F r;
    risk_factors = risk_factors F r;
    request_digest = c.digest_request r;
    previous_evidence_hash = previous;
    evidence_hash = "";
    signature = "";
  })

  unfoldable pub verify : Crypto F → ExecutionEvidence F → String → Verified
  unfolding unsigned_payload
  verify c e key =
      let hash = c.digest_payload (unsigned_payload e) in
      if not (str_eq hash e.evidence_hash)
      then hash_mismatch
      else if not (str_eq (c.hmac key hash) e.signature)
      then signature_mismatch
      else valid
