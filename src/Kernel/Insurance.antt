-- ===== src/Kernel/Insurance.antt =====
-- `_normalize`, `_contains_keyword` and `InsuranceCoverageValidator.validate` of
-- sara_unified/governance/unified_kernel.py.
use sara_omega.Prelude.{
  ℕ, String, Bool, true, false, not, ◌&&◌, ◌||◌, List, [], ◌∷◌, ◌++◌, map, Option, none, some, leb,
  ◌==◌, if◌then◌else◌, any, select, is_empty, str_eq,
}
use sara_omega.Prelude.Dict.{Dict, insert}
use sara_omega.Prelude.Text.{codes, to_lower, codes_eq, occurs, split_words, join_words}
use sara_omega.Prelude.Float.{Float}
use sara_omega.Kernel.Model.{
  pass, fail, not_required, Coverage, InsurancePolicy, CoverageRequirement, InsuranceRequirementSet,
  InsuranceReason, CoverageDetails, InsuranceValidation, no_requirement, no_evidence, not_active,
  insured_mismatch, jurisdiction_uncovered, carrier_unverified, satisfied, coverage_missing,
  limit_below, bad_exclusions, missing_endorsements,
}

-- `.replace("_", " ").replace("-", " ")` on one character
blank_separator : ℕ → ℕ
blank_separator c = if c == b'_' || c == b'-' then 32 else c

unfoldable pub normalize : String → List ℕ
unfolding blank_separator to_lower split_words join_words
normalize text = join_words (split_words [] (map blank_separator (map to_lower (codes text))))

-- `_normalize(a) == _normalize(b)`
unfoldable pub same_text : String → String → Bool
unfolding normalize codes_eq
same_text a b = codes_eq (normalize a) (normalize b)

unfoldable pub contains_keyword : List String → String → Bool
unfolding normalize occurs
contains_keyword items keyword = any (λ item. occurs (normalize keyword) (normalize item)) items

-- Whether an optional text is there and not empty.
abbrev pub is_given : Option String → Bool
is_given none = false
is_given (some s) = not (str_eq s "")

-- `x` under a key that is set only if it is not empty
abbrev pub unless_empty : List String → Option (List String)
unless_empty xs = if is_empty xs then none else some xs

-- The state of the loop over the requirements: `coverage_failed`, `reasons`, `matched`.
pub record Checked (F : Float) : Type 0 where
  pub coverage_failed : Bool
  pub reasons : List (InsuranceReason F)
  pub matched : Dict (CoverageDetails F)

module _ {F : Float} where
  -- `max(candidates, key=lambda item: item.limit_usd)`: the first of the largest
  unfoldable pub largest : Coverage F → List (Coverage F) → Coverage F
  largest best [] = best
  largest best (c ∷ cs) = largest (if F.lt best.limit_usd c.limit_usd then c else best) cs

  unfoldable pub candidates : InsurancePolicy F → CoverageRequirement F → List (Coverage F)
  unfolding same_text
  candidates policy r = select (λ c. same_text c.name r.coverage_name) policy.coverages

  -- What one coverage that was found fails of one requirement.
  unfoldable pub forbidden_exclusions : Coverage F → CoverageRequirement F → List String
  unfolding contains_keyword
  forbidden_exclusions c r =
      select (λ keyword. contains_keyword c.exclusions keyword) r.forbidden_exclusion_keywords

  unfoldable pub lacking_endorsements : Coverage F → CoverageRequirement F → List String
  unfolding contains_keyword
  lacking_endorsements c r =
      select (λ keyword. not (contains_keyword c.endorsements keyword))
        r.required_endorsement_keywords

  unfoldable pub details_of : Coverage F → CoverageRequirement F → CoverageDetails F
  unfolding forbidden_exclusions lacking_endorsements
  details_of c r = record {
    limit_usd = c.limit_usd;
    required_limit_usd = r.minimum_limit_usd;
    deductible_usd = c.deductible_usd;
    endorsements = c.endorsements;
    exclusions = c.exclusions;
    matched_forbidden_exclusions = unless_empty (forbidden_exclusions c r);
    missing_required_endorsements = unless_empty (lacking_endorsements c r);
  }

  unfoldable pub failures_of : Coverage F → CoverageRequirement F → List (InsuranceReason F)
  unfolding forbidden_exclusions lacking_endorsements
  failures_of c r =
      (if F.lt c.limit_usd r.minimum_limit_usd
        then limit_below r.coverage_name c.limit_usd r.minimum_limit_usd ∷ []
        else [])
      ++ (let bad = forbidden_exclusions c r in
          if is_empty bad then [] else bad_exclusions r.coverage_name bad ∷ [])
      ++ (let lacking = lacking_endorsements c r in
          if is_empty lacking then [] else missing_endorsements r.coverage_name lacking ∷ [])

  unfoldable pub check_requirement :
      InsurancePolicy F → CoverageRequirement F → Checked F → Checked F
  unfolding candidates largest details_of failures_of
  check_requirement policy r s = elim (candidates policy r) [
    | [] ↦ record s {
      coverage_failed = true;
      reasons = s.reasons ++ coverage_missing r.coverage_name ∷ [];
    }
    | c ∷ cs ↦ record {
      coverage_failed = s.coverage_failed || not (is_empty (failures_of (largest c cs) r));
      reasons = s.reasons ++ failures_of (largest c cs) r;
      matched = insert r.coverage_name (details_of (largest c cs) r) s.matched;
    }
  ]

  unfoldable pub check_requirements :
      InsurancePolicy F → List (CoverageRequirement F) → Checked F → Checked F
  unfolding check_requirement
  check_requirements policy [] s = s
  check_requirements policy (r ∷ rs) s = check_requirements policy rs (check_requirement policy r s)

  unfoldable pub is_active : InsurancePolicy F → ℕ → Bool
  is_active policy today = leb policy.effective_date today && leb today policy.expiration_date

  unfoldable pub jurisdiction_matches :
      InsurancePolicy F → InsuranceRequirementSet F → String → Bool
  unfolding same_text
  jurisdiction_matches policy reqs j =
      (if is_empty reqs.allowed_jurisdictions
        then true
        else any (λ item. same_text j item) reqs.allowed_jurisdictions)
      && (is_empty policy.jurisdictions || any (λ item. same_text j item) policy.jurisdictions)

  unfoldable pub carrier_is_verified : InsurancePolicy F → Bool
  carrier_is_verified policy = is_given policy.verified_by && is_given policy.verification_reference

  unfoldable pub insured_matches : InsurancePolicy F → InsuranceRequirementSet F → Bool
  unfolding same_text
  insured_matches policy reqs = same_text policy.named_insured reqs.expected_named_insured

  abbrev pub reason_if : Bool → InsuranceReason F → List (InsuranceReason F)
  reason_if b r = if b then r ∷ [] else []

  -- The tests in front of the loop, as the reasons that they record.
  unfoldable pub first_reasons :
      InsurancePolicy F → InsuranceRequirementSet F → String → ℕ → List (InsuranceReason F)
  unfolding is_active insured_matches jurisdiction_matches carrier_is_verified
  first_reasons policy reqs j today =
      reason_if (not (is_active policy today)) not_active
      ++ reason_if (not (insured_matches policy reqs)) insured_mismatch
      ++ reason_if (not (jurisdiction_matches policy reqs j)) jurisdiction_uncovered
      ++ reason_if (reqs.carrier_verification_required && not (carrier_is_verified policy))
          carrier_unverified

  unfoldable pub validate_supplied :
      InsurancePolicy F → InsuranceRequirementSet F → String → ℕ → InsuranceValidation F
  unfolding first_reasons check_requirements
  validate_supplied policy reqs j today =
      let done = check_requirements policy reqs.requirements (record {
        coverage_failed = false;
        reasons = first_reasons policy reqs j today;
        matched = [];
      }) in
      let hard_fail =
        not (is_active policy today)
        || not (insured_matches policy reqs)
        || not (jurisdiction_matches policy reqs j)
        || (reqs.carrier_verification_required && not (carrier_is_verified policy))
        || done.coverage_failed in
      record {
        status = if hard_fail then fail else pass;
        reasons = if hard_fail then done.reasons else done.reasons ++ satisfied ∷ [];
        matched_coverages = done.matched;
        policy_active = is_active policy today;
        named_insured_match = insured_matches policy reqs;
        jurisdiction_match = jurisdiction_matches policy reqs j;
        carrier_verified = carrier_is_verified policy;
      }

  -- `today` is the date of `as_of`, and the clock's if that is not given.
  unfoldable pub validate :
      Option (InsurancePolicy F)
      → Option (InsuranceRequirementSet F)
      → String
      → ℕ
      → InsuranceValidation F
  unfolding validate_supplied
  validate policy none j today = record {
    status = not_required;
    reasons = no_requirement ∷ [];
    matched_coverages = [];
    policy_active = true;
    named_insured_match = true;
    jurisdiction_match = true;
    carrier_verified = true;
  }
  validate none (some reqs) j today = record {
    status = fail;
    reasons = no_evidence ∷ [];
    matched_coverages = [];
    policy_active = false;
    named_insured_match = false;
    jurisdiction_match = false;
    carrier_verified = false;
  }
  validate (some policy) (some reqs) j today = validate_supplied policy reqs j today
