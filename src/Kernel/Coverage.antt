-- ===== src/Kernel/Coverage.antt =====
-- `InsuranceCoverageValidator.validate` of sara_unified/governance/unified_kernel.py against what
-- a requirement set asks for.
use sara_omega.Prelude.{
  ℕ, ◌≤◌, String, ◌≡◌, refl, ◌↔◌, Bool, true, false, not, ◌&&◌, ◌||◌, List, [], ◌∷◌, ◌++◌, some,
  arith, if◌then◌else◌, any, is_empty, is_empty-select, any-eq_false, Every,
}
use sara_omega.Prelude.Float.{Float}
use sara_omega.Kernel.Model.{
  pass, fail, Coverage, InsurancePolicy, CoverageRequirement, InsuranceRequirementSet,
}
use sara_omega.Kernel.Insurance.{
  contains_keyword, largest, candidates, forbidden_exclusions, lacking_endorsements, failures_of,
  Checked, check_requirement, check_requirements, is_active, jurisdiction_matches,
  carrier_is_verified, insured_matches, validate, validate_supplied,
}

-- One coverage is enough for one requirement.
pub record Suffices {F : Float} (c : Coverage F) (r : CoverageRequirement F) : Type 0 where
  pub limit : F.lt c.limit_usd r.minimum_limit_usd ≡ false
  pub clean : Every (λ k. contains_keyword c.exclusions k ≡ false) r.forbidden_exclusion_keywords
  pub endorsed :
      Every (λ k. contains_keyword c.endorsements k ≡ true) r.required_endorsement_keywords

-- Among the coverages of the required name, the first with the largest limit is enough.
abbrev pub Meets : {F : Float} → List (Coverage F) → CoverageRequirement F → Type 0
Meets [] r = ⊥
Meets (c ∷ cs) r = Suffices (largest c cs) r

any-Every {ℓ} :
    {A : Type ℓ} (q : A → Bool) (xs : List A) → Every (λ x. q x ≡ false) xs → any q xs ≡ false
any-Every q [] h = refl
any-Every q (x ∷ xs) h = ground (arith, any-Every q xs h.1)

Every-not :
    (q : String → Bool) (xs : List String)
    → Every (λ x. not (q x) ≡ false) xs ↔ Every (λ x. q x ≡ true) xs
Every-not q [] = (λ h. h, λ h. h)
Every-not q (x ∷ xs) =
    (λ h. (ground arith, (Every-not q xs).0 h.1), λ h. (ground arith, (Every-not q xs).1 h.1))

is_empty-append {ℓ} :
    {A : Type ℓ} (xs ys : List A) → is_empty (xs ++ ys) ≡ (is_empty xs && is_empty ys)
is_empty-append [] ys = refl
is_empty-append (x ∷ xs) ys = refl

verdict_iff :
    (a i j c v f : Bool)
    → ((if not a || not i || not j || (c && not v) || f then fail else pass) ≡ pass)
      ↔ ((a ≡ true) × (i ≡ true) × (j ≡ true) × (c ≡ true → v ≡ true) × (f ≡ false))
verdict_iff a i j c v f = (λ h. ground arith, λ h. ground (arith, h.3))

module _ {F : Float} where
  module _ (c : Coverage F) (r : CoverageRequirement F) where
    forbidden_iff :
        (is_empty (forbidden_exclusions c r) ≡ true)
        ↔ Every (λ k. contains_keyword c.exclusions k ≡ false) r.forbidden_exclusion_keywords
    unfolding forbidden_exclusions
    forbidden_iff =
        rw is_empty-select
          (λ h. any-eq_false _ _ (ground arith), λ h. ground (arith, any-Every _ _ h))

    lacking_iff :
        (is_empty (lacking_endorsements c r) ≡ true)
        ↔ Every (λ k. contains_keyword c.endorsements k ≡ true) r.required_endorsement_keywords
    unfolding lacking_endorsements
    lacking_iff = rw is_empty-select (
      λ h. (Every-not (contains_keyword c.endorsements) _).0 (any-eq_false _ _ (ground arith)),
      λ h. ground (arith, any-Every _ _ ((Every-not (contains_keyword c.endorsements) _).1 h)),
    )

    is_empty-failures_of : is_empty (failures_of c r) ≡ (
        not (F.lt c.limit_usd r.minimum_limit_usd)
        && is_empty (forbidden_exclusions c r)
        && is_empty (lacking_endorsements c r))
    unfolding failures_of
    is_empty-failures_of = simp is_empty-append (ground arith)

    failures_of_iff : (is_empty (failures_of c r) ≡ true) ↔ Suffices c r
    failures_of_iff = (
      λ h.
          let e = is_empty-failures_of in
          record {
            limit = ground arith;
            clean = forbidden_iff.0 (ground arith);
            endorsed = lacking_iff.0 (ground arith);
          },
      λ h.
          let f = forbidden_iff.1 h.clean in
          let l = lacking_iff.1 h.endorsed in rw is_empty-failures_of (ground arith),
    )

  module _ (policy : InsurancePolicy F) where
    check_requirement_iff :
        (r : CoverageRequirement F) (s : Checked F)
        → ((check_requirement policy r s).coverage_failed ≡ false)
          ↔ ((s.coverage_failed ≡ false) × Meets (candidates policy r) r)
    unfolding check_requirement
    check_requirement_iff r s = go (candidates policy r) refl
      where
        go :
            (cs : List (Coverage F))
            → candidates policy r ≡ cs
            → ((check_requirement policy r s).coverage_failed ≡ false)
              ↔ ((s.coverage_failed ≡ false) × Meets (candidates policy r) r)
        go [] e = rw (e, check_requirement) (λ h. absurd (cc), λ h. absurd h.1)
        go (c ∷ cs) e =
            rw (e, check_requirement)
              (
                λ h. (ground arith, (failures_of_iff (largest c cs) r).0 (ground arith)),
                λ h. ground (arith, (failures_of_iff (largest c cs) r).1 h.1),
              )

    check_requirements_iff :
        (rs : List (CoverageRequirement F)) (s : Checked F)
        → ((check_requirements policy rs s).coverage_failed ≡ false)
          ↔ ((s.coverage_failed ≡ false) × Every (λ r. Meets (candidates policy r) r) rs)
    unfolding check_requirements
    check_requirements_iff [] s = (λ h. (h, tt), λ h. h.0)
    check_requirements_iff (r ∷ rs) s = (
      λ h.
          let later = (check_requirements_iff rs (check_requirement policy r s)).0 h in
          let now = (check_requirement_iff r s).0 later.0 in (now.0, (now.1, later.1)),
      λ h.
          (check_requirements_iff rs (check_requirement policy r s)).1
            ((check_requirement_iff r s).1 (h.0, h.1.0), h.1.1),
    )

    -- Insurance passes exactly when the policy is active, of the right organisation, covers the
    -- jurisdiction, is verified where that is required, and meets every coverage requirement.
    pub validate-pass_iff :
        (q : InsuranceRequirementSet F) (j : String) (today : ℕ)
        → ((validate (some policy) (some q) j today).status ≡ pass) ↔ (
            (policy.effective_date ≤ today)
            × (today ≤ policy.expiration_date)
            × (insured_matches policy q ≡ true)
            × (jurisdiction_matches policy q j ≡ true)
            × (q.carrier_verification_required ≡ true → carrier_is_verified policy ≡ true)
            × Every (λ r. Meets (candidates policy r) r) q.requirements)
    unfolding validate validate_supplied is_active
    validate-pass_iff q j today =
        let done = check_requirements_iff q.requirements _ in
        (
          λ h.
              let v = (verdict_iff _ _ _ _ _ _).0 h in
              (ground arith, ground arith, v.1, v.2, v.3, (done.0 v.4).1),
          λ h. (verdict_iff _ _ _ _ _ _).1 (ground arith, h.2, h.3, h.4, done.1 (refl, h.5)),
        )
