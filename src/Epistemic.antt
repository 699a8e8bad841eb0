-- ===== src/Epistemic.antt =====
-- `EpistemicAgent` of app/epistemic.py: whether a release's claims are no broader than their
-- evidence. A field of an evidence record is the text that `str` makes of it, or none.
pub mod Supported
use sara_omega.Prelude.{
  ℕ, suc, ◌+◌, String, Bool, true, false, not, ◌&&◌, ◌||◌, List, [], ◌∷◌, map, Option, none, some,
  any, length, is_empty, str_eq, if◌then◌else◌, ◌==◌,
}
use sara_omega.Prelude.Dict.{Dict, lookup, insert}
use sara_omega.Prelude.Text.{lower, to_lower, strip, codes, occurs, join_words}

pub data State : Type 0 where
  supported overstated contradicted unverified : State

pub data ClaimDecision : Type 0 where
  blocked ready_for_verification : ClaimDecision

pub record Claim : Type 0 where
  pub claim_id : String
  pub text : String
  pub evidence_ids : List String

pub record Evidence : Type 0 where
  pub id : Option String
  pub subject : Option String
  pub status : Option String
  pub evidence_state : Option String
  pub detail : Option String

-- The corrected claim: none, the claim without its outer spaces, or what the details of the
-- evidence say of the repository's tests.
pub data Correction : Type 0 where
  no_correction : Correction
  stripped repository_tests : List ℕ → Correction

pub record Audited : Type 0 where
  pub claim : Claim
  pub state : State
  pub corrected_claim : Correction

abbrev pub text_of : Option String → String
text_of none = ""
text_of (some s) = s

abbrev pub is_text : Option String → String → Bool
is_text none s = false
is_text (some t) s = str_eq t s

-- `{str(item.get("id")): item for item in evidence if item.get("id")}`
unfoldable pub by_id_from : Dict Evidence → List Evidence → Dict Evidence
by_id_from d [] = d
by_id_from d (e ∷ es) =
    by_id_from (if str_eq (text_of e.id) "" then d else insert (text_of e.id) e d) es

-- The evidence of the ids that are known.
unfoldable pub linked : Dict Evidence → List String → List Evidence
linked d [] = []
linked d (i ∷ is) = let rest = linked d is in elim (lookup i d) [ none ↦ rest | some e ↦ e ∷ rest ]

abbrev pub is_unverified : Evidence → Bool
is_unverified e = not (is_text e.status "PASS") || not (is_text e.evidence_state "VERIFIED")

-- `needle in text.lower()`
unfoldable pub mentions : String → String → Bool
unfolding lower occurs
mentions needle text = occurs (codes needle) (codes (lower text))

abbrev pub detail_codes : Evidence → List ℕ
detail_codes e = codes (text_of e.detail)

-- `" ".join(str(item.get("detail", "")) for item in linked)`
unfoldable pub joined_details : List Evidence → List ℕ
unfolding join_words
joined_details es = join_words (map detail_codes es)

-- The claim speaks of all tests, where the evidence speaks of the repository's.
unfoldable pub claims_all_tests : String → List Evidence → Bool
unfolding mentions joined_details to_lower occurs
claims_all_tests text es =
    (mentions "all production tests" text || mentions "all tests passed" text)
    && occurs (codes "repository tests") (map to_lower (joined_details es))

unfoldable pub is_production : Evidence → Bool
unfolding mentions
is_production e = mentions "production" (text_of e.subject)

-- The claim names production acceptance, and no evidence is about production.
unfoldable pub claims_production : String → List Evidence → Bool
unfolding mentions is_production
claims_production text es = mentions "production acceptance" text && not (any is_production es)

abbrev pub audited : Claim → State → Correction → Audited
audited claim state corrected = record { claim = claim; state = state; corrected_claim = corrected }

unfoldable pub audit_claim : Claim → Dict Evidence → Audited
unfolding linked claims_all_tests claims_production strip joined_details
audit_claim claim d =
    let es = linked d claim.evidence_ids in
    let text = strip claim.text in
    if is_empty es || not (length es == length claim.evidence_ids)
    then audited claim unverified no_correction
    else if any is_unverified es
    then audited claim contradicted no_correction
    else if claims_all_tests text es
    then audited claim overstated (repository_tests (joined_details es))
    else if claims_production text es
    then audited claim overstated no_correction
    else audited claim supported (stripped (codes text))

pub record ClaimReview : Type 0 where
  pub decision : ClaimDecision
  pub claims : List Audited
  pub claim_count : ℕ
  pub supported_count : ℕ
  pub overstated_count : ℕ
  pub contradicted_count : ℕ
  pub unverified_count : ℕ

abbrev pub is_supported : State → Bool
is_supported supported = true
is_supported _ = false

abbrev pub is_overstated : State → Bool
is_overstated overstated = true
is_overstated _ = false

abbrev pub is_contradicted : State → Bool
is_contradicted contradicted = true
is_contradicted _ = false

abbrev pub is_missing : State → Bool
is_missing unverified = true
is_missing _ = false

abbrev pub is_blocking : Audited → Bool
is_blocking a = is_overstated a.state || is_contradicted a.state || is_missing a.state

-- `sum(item["state"] == state for item in audited)`
abbrev pub count : (State → Bool) → List Audited → ℕ
count p [] = 0
count p (a ∷ rest) = (if p a.state then 1 else 0) + count p rest

unfoldable pub audit_claims : Dict Evidence → List Claim → List Audited
unfolding audit_claim
audit_claims d [] = []
audit_claims d (c ∷ cs) = audit_claim c d ∷ audit_claims d cs

unfoldable pub review : List Claim → List Evidence → ClaimReview
unfolding audit_claims by_id_from
review claims evidence =
    let audits = audit_claims (by_id_from [] evidence) claims in
    record {
      decision = if any is_blocking audits then blocked else ready_for_verification;
      claims = audits;
      claim_count = length audits;
      supported_count = count is_supported audits;
      overstated_count = count is_overstated audits;
      contradicted_count = count is_contradicted audits;
      unverified_count = count is_missing audits;
    }
