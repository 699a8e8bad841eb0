-- ===== src/Kernel/Evidence.antt =====
-- The signed evidence of sara_unified/governance/unified_kernel.py: what `evaluate` issues is
-- verified, and what was altered is not.
use sara_omega.Prelude.{ℕ, String, ◌≡◌, refl, ◌≢◌, ◌↔◌, Option, arith, eq_iff}
use sara_omega.Prelude.Float.{Float}
use sara_omega.Kernel.Model.{
  ActionRequest, GovernancePolicy, InsurancePolicy, InsuranceRequirementSet, ExecutionEvidence,
}
use sara_omega.Kernel.Evaluate.{Crypto, unsigned_payload, evaluate, valid, hash_mismatch, verify}

module _ {F : Float} (c : Crypto F) where
  -- Verification succeeds exactly on the digest of the payload with the HMAC of that digest.
  pub verify-valid_iff :
      (e : ExecutionEvidence F) (key : String)
      → (verify c e key ≡ valid) ↔ (
          (e.evidence_hash ≡ c.digest_payload (unsigned_payload e))
          × (e.signature ≡ c.hmac key e.evidence_hash))
  unfolding verify
  verify-valid_iff e key =
      let hash = c.digest_payload (unsigned_payload e) in
      (
        λ h. ground (arith, eq_iff hash e.evidence_hash, eq_iff (c.hmac key hash) e.signature),
        λ h. ground (arith, eq_iff hash e.evidence_hash, eq_iff (c.hmac key hash) e.signature),
      )

  -- What the kernel issues is verified under its key.
  pub verify-evaluate :
      (key issued_at : String) (today : ℕ) (r : ActionRequest F) (p : GovernancePolicy F)
      (policy : Option (InsurancePolicy F)) (reqs : Option (InsuranceRequirementSet F))
      (previous : Option String)
      → verify c (evaluate c key issued_at today r p policy reqs previous) key ≡ valid
  unfolding evaluate
  verify-evaluate key issued_at today r p policy reqs previous =
      (verify-valid_iff _ key).1 (refl, refl)

  -- Evidence that keeps the hash of verified evidence, but not its payload, is refused under every
  -- key, unless the two payloads collide under the digest.
  pub verify-altered :
      (e altered : ExecutionEvidence F) (key key' : String)
      → (c.digest_payload (unsigned_payload altered) ≡ c.digest_payload (unsigned_payload e)
          → unsigned_payload altered ≡ unsigned_payload e)
      → verify c e key ≡ valid
      → altered.evidence_hash ≡ e.evidence_hash
      → unsigned_payload altered ≢ unsigned_payload e
      → verify c altered key' ≡ hash_mismatch
  unfolding verify
  verify-altered e altered key key' no_collision ok same_hash differs =
      let hash = c.digest_payload (unsigned_payload altered) in
      let issued = (verify-valid_iff e key).0 ok in
      ground (arith, eq_iff hash altered.evidence_hash, no_collision)
