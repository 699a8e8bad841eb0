-- ===== src/Examples/Review.antt =====
-- The two reviews of a release at concrete inputs.
use sara_omega.Prelude.{◌≡◌, ◌↔◌, some, [], ◌∷◌, Every}
use sara_omega.Prelude.Int.{pos}
use sara_omega.RoadGates.{Request, text, review, ready_for_verification}
use sara_omega.RoadGates.Ready.{IsReady, review-IsReady_iff}
use sara_omega.Epistemic.{Claim, Evidence, by_id_from}
use sara_omega.Epistemic.Supported.{IsSupported, review-IsSupported_iff}

abbrev request : Request
request = record {
  candidate_id = "0123456789abcdef0123456789abcdef01234567";
  production = ("persistence_status", text "PROVEN") ∷ [];
  observations = [];
  providers = "Railway" ∷ "GitHub-Actions" ∷ [];
  probe_ms = pos 4500;
}

review-IsReady_iff_example : ((review request).decision ≡ ready_for_verification) ↔ IsReady request
review-IsReady_iff_example = review-IsReady_iff request

abbrev claim : Claim
claim = record { claim_id = "c1"; text = "the suite is green"; evidence_ids = "e1" ∷ [] }

abbrev evidence : Evidence
evidence = record {
  id = some "e1";
  subject = some "repository";
  status = some "PASS";
  evidence_state = some "VERIFIED";
  detail = some "12 repository tests passed";
}

review-IsSupported_iff_example :
    ((sara_omega.Epistemic.review (claim ∷ []) (evidence ∷ [])).decision
      ≡ sara_omega.Epistemic.ready_for_verification)
    ↔ Every (IsSupported (by_id_from [] (evidence ∷ []))) (claim ∷ [])
review-IsSupported_iff_example = review-IsSupported_iff (claim ∷ []) (evidence ∷ [])
