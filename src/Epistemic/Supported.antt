-- ===== src/Epistemic/Supported.antt =====
-- When `review` of app/epistemic.py finds the claims ready, and how it counts them.
use sara_omega.Prelude.{
  ◌+◌, ◌≤◌, String, ◌≡◌, refl, ◌↔◌, ◌≢◌, Bool, true, false, not, ◌||◌, List, [], ◌∷◌, any,
  any-eq_false, length, is_empty, if◌then◌else◌, ◌==◌, arith, Every,
}
use sara_omega.Prelude.Dict.{Dict, has_key}
use sara_omega.Prelude.Text.{strip}
use sara_omega.Epistemic.{
  supported, overstated, contradicted, unverified, blocked, ready_for_verification, Claim, Evidence,
  Audited, by_id_from, linked, is_unverified, claims_all_tests, claims_production, audit_claim,
  is_blocking, is_supported, is_overstated, is_contradicted, is_missing, count, audit_claims,
  review, audited, Correction, no_correction,
}

-- The claim names evidence, all of it is known, passed and verified, and the claim is no broader.
pub record IsSupported (d : Dict Evidence) (c : Claim) : Type 0 where
  pub evidenced : c.evidence_ids ≢ []
  pub known : Every (λ i. has_key i d ≡ true) c.evidence_ids
  pub verified : Every (λ e. is_unverified e ≡ false) (linked d c.evidence_ids)
  pub not_all_tests : claims_all_tests (strip c.text) (linked d c.evidence_ids) ≡ false
  pub not_production : claims_production (strip c.text) (linked d c.evidence_ids) ≡ false

length-linked : (d : Dict Evidence) (is : List String) → length (linked d is) ≤ length is
unfolding linked
length-linked d [] = omega arith
length-linked d (i ∷ is) = ground (arith, length-linked d is)

-- As many are linked as are named exactly when all are known.
linked_iff :
    (d : Dict Evidence) (is : List String)
    → (length (linked d is) ≡ length is) ↔ Every (λ i. has_key i d ≡ true) is
unfolding linked
linked_iff d [] = (λ h. tt, λ h. refl)
linked_iff d (i ∷ is) = (
  λ h. (
    ground (arith, length-linked d is),
    (linked_iff d is).0 (ground (arith, length-linked d is)),
  ),
  λ h. ground (arith, h.0, (linked_iff d is).1 h.1),
)

audit_guards :
    (e l u a p : Bool) (c : Claim) (x y : Correction)
    → ((if e || not l
          then audited c unverified no_correction
          else if u
          then audited c contradicted no_correction
          else if a
          then audited c overstated x
          else if p
          then audited c overstated no_correction
          else audited c supported y).state
        ≡ supported)
      ↔ ((e ≡ false) × (l ≡ true) × (u ≡ false) × (a ≡ false) × (p ≡ false))
audit_guards e l u a p c x y = (λ h. ground arith, λ h. ground arith)

any-Every :
    (xs : List Evidence) → Every (λ e. is_unverified e ≡ false) xs → any is_unverified xs ≡ false
any-Every [] h = refl
any-Every (x ∷ xs) h = ground (arith, any-Every xs h.1)

is_empty_iff :
    (xs : List Evidence) (is : List String)
    → length xs ≡ length is
    → (is_empty xs ≡ false) ↔ (is ≢ [])
is_empty_iff [] [] h = (λ k. cc, λ k. absurd (k refl))
is_empty_iff [] (i ∷ is) h = absurd (omega arith)
is_empty_iff (x ∷ xs) [] h = absurd (omega arith)
is_empty_iff (x ∷ xs) (i ∷ is) h = (λ k e. cc, λ k. refl)

-- A claim is supported exactly when it names evidence, all that it names is known, has passed and
-- is verified, and the claim is no broader than it.
pub audit_claim-supported_iff :
    (d : Dict Evidence) (c : Claim) → ((audit_claim c d).state ≡ supported) ↔ IsSupported d c
unfolding audit_claim
audit_claim-supported_iff d c =
    let es = linked d c.evidence_ids in
    let guards = audit_guards (is_empty es) (length es == length c.evidence_ids) _ _ _ _ _ _ in
    (
      λ h.
          let g = guards.0 h in
          let same : length es ≡ length c.evidence_ids = ground (arith, g.1) in
          record {
            evidenced = (is_empty_iff es c.evidence_ids same).0 g.0;
            known = (linked_iff d c.evidence_ids).0 same;
            verified = any-eq_false is_unverified es g.2;
            not_all_tests = g.3;
            not_production = g.4;
          },
      λ h.
          let same = (linked_iff d c.evidence_ids).1 h.known in
          guards.1 (
            (is_empty_iff es c.evidence_ids same).1 h.evidenced,
            ground (arith, same),
            any-Every es h.verified,
            h.not_all_tests,
            h.not_production,
          ),
    )

not_blocking_iff : (a : Audited) → (is_blocking a ≡ false) ↔ (a.state ≡ supported)
not_blocking_iff a = (λ h. ground arith, λ h. ground arith)

blocking_iff :
    (d : Dict Evidence) (cs : List Claim)
    → (any is_blocking (audit_claims d cs) ≡ false) ↔ Every (IsSupported d) cs
unfolding audit_claims
blocking_iff d [] = (λ h. tt, λ h. refl)
blocking_iff d (c ∷ cs) =
    let one = audit_claim-supported_iff d c in
    let rest = blocking_iff d cs in
    (
      λ h. (one.0 ((not_blocking_iff (audit_claim c d)).0 (ground arith)), rest.0 (ground arith)),
      λ h. ground (arith, (not_blocking_iff (audit_claim c d)).1 (one.1 h.0), rest.1 h.1),
    )

decision_iff :
    (b : Bool)
    → ((if b then blocked else ready_for_verification) ≡ ready_for_verification) ↔ (b ≡ false)
decision_iff b = (λ h. ground arith, λ h. ground arith)

-- The claims are ready for verification exactly when each of them is supported by the evidence.
pub review-IsSupported_iff :
    (claims : List Claim) (evidence : List Evidence)
    → ((review claims evidence).decision ≡ ready_for_verification)
      ↔ Every (IsSupported (by_id_from [] evidence)) claims
unfolding review
review-IsSupported_iff claims evidence =
    let d = by_id_from [] evidence in
    let all_supported = blocking_iff d claims in
    (λ h. all_supported.0 ((decision_iff _).0 h), λ h. (decision_iff _).1 (all_supported.1 h))

count-total :
    (xs : List Audited)
    → count is_supported xs
        + count is_overstated xs
        + count is_contradicted xs
        + count is_missing xs
      ≡ length xs
count-total [] = omega arith
count-total (x ∷ xs) = ground (arith, count-total xs)

length-audit_claims : (d : Dict Evidence) (cs : List Claim) → length (audit_claims d cs) ≡ length cs
unfolding audit_claims
length-audit_claims d [] = refl
length-audit_claims d (c ∷ cs) = ground (arith, length-audit_claims d cs)

-- The counts of the four states add up to the number of claims.
pub review-counts :
    (claims : List Claim) (evidence : List Evidence)
    → (let r = review claims evidence in
        (r.supported_count + r.overstated_count + r.contradicted_count + r.unverified_count
          ≡ r.claim_count)
        × (r.claim_count ≡ length claims))
unfolding review
review-counts claims evidence =
    let audits = audit_claims (by_id_from [] evidence) claims in
    (count-total audits, length-audit_claims (by_id_from [] evidence) claims)
