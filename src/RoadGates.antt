-- ===== src/RoadGates.antt =====
-- `RoadGateAgent` of app/road_gates.py: the evidence for the gates of a release. A JSON value that
-- the gates compare is a text or a flag.
pub mod Ready
use sara_omega.Prelude.{
  ℕ, String, Bool, true, false, not, ◌&&◌, ◌||◌, List, [], ◌∷◌, map, Option, none, some, any, all,
  member, str_eq, if◌then◌else◌, ◌==◌, leb,
}
use Prim.Native.String.{len}
use sara_omega.Prelude.Dict.{Dict, lookup, insert}
use sara_omega.Prelude.Int.{ℤ, pos, negsuc}
use sara_omega.Prelude.Text.{lower}

pub data Value : Type 0 where
  text : String → Value
  flag : Bool → Value
  other : Value

-- An observation: `str(item.get("id"))` and `item.get("status")`.
pub record Observation : Type 0 where
  pub id : String
  pub status : Option Value

pub record Request : Type 0 where
  pub candidate_id : String
  pub production : Dict Value
  pub observations : List Observation
  pub providers : List String
  pub probe_ms : ℤ

pub data Gate : Type 0 where
  governance privacy performance recovery multi_cloud : Gate

-- A gate's record; its evidence is verified where it has passed.
pub record GateRecord : Type 0 where
  pub gate : Gate
  pub passed : Bool

pub data ReleaseDecision : Type 0 where
  blocked ready_for_verification : ReleaseDecision

pub record Review : Type 0 where
  pub candidate_id : String
  pub decision : ReleaseDecision
  pub gates : List GateRecord

abbrev pub is_text : Option Value → String → Bool
is_text (some (text t)) s = str_eq t s
is_text _ s = false

-- `value is True`
abbrev pub is_true : Option Value → Bool
is_true (some (flag b)) = b
is_true _ = false

-- `{str(item.get("id")): item for item in items}`: a later item replaces an earlier one.
unfoldable pub by_id_from : Dict (Option Value) → List Observation → Dict (Option Value)
by_id_from d [] = d
by_id_from d (o ∷ os) = by_id_from (insert o.id o.status d) os

unfoldable pub by_id : List Observation → Dict (Option Value)
unfolding by_id_from
by_id os = by_id_from [] os

-- `observations.get(key, {}).get("status") == "PASS"`
unfoldable pub has_passed : Dict (Option Value) → String → Bool
has_passed d key = elim (lookup key d) [ none ↦ false | some s ↦ is_text s "PASS" ]

-- `0 <= probe_ms <= 4500`
abbrev pub within_budget : ℤ → Bool
within_budget (pos n) = leb n 4500
within_budget (negsuc n) = false

abbrev pub required_observations : List String
required_observations =
    "contextdev-authorization" ∷ "madhouse-adversarial-review" ∷ "epistemic-claim-audit" ∷ []

abbrev pub required_flags : List String
required_flags =
    "failsafe_configured" ∷ "root_on_dedicated_mount" ∷ "persistence_observed_across_boots"
    ∷ "chain_valid" ∷ []

unfoldable pub is_valid_sha : Request → Bool
is_valid_sha r =
    is_text (lookup "source_commit_sha" r.production) r.candidate_id && len r.candidate_id == 40

unfoldable pub governance_record : Bool → Request → GateRecord
unfolding has_passed by_id
governance_record valid r = record {
  gate = governance;
  passed =
      valid
      && is_true (lookup "production_accepted" r.production)
      && all (has_passed (by_id r.observations)) required_observations;
}

unfoldable pub privacy_record : Bool → Request → GateRecord
unfolding has_passed by_id
privacy_record valid r = record {
  gate = privacy;
  passed = valid && has_passed (by_id r.observations) "contextdev-authorization";
}

unfoldable pub performance_record : Bool → Request → GateRecord
performance_record valid r = record {
  gate = performance;
  passed = valid && within_budget r.probe_ms;
}

abbrev pub is_flag_set : Dict Value → String → Bool
is_flag_set production key = is_true (lookup key production)

unfoldable pub recovery_record : Bool → Request → GateRecord
recovery_record valid r = record {
  gate = recovery;
  passed =
      valid
      && all (is_flag_set r.production) required_flags
      && is_text (lookup "persistence_status" r.production) "PROVEN";
}

unfoldable pub multi_cloud_record : Bool → Request → GateRecord
unfolding lower
multi_cloud_record valid r = record {
  gate = multi_cloud;
  passed =
      valid
      && member "railway" (map lower r.providers)
      && member "github-actions" (map lower r.providers);
}

abbrev pub has_not_passed : GateRecord → Bool
has_not_passed g = not g.passed

unfoldable pub review : Request → Review
unfolding is_valid_sha governance_record privacy_record performance_record recovery_record
    multi_cloud_record
review r =
    let valid = is_valid_sha r in
    let gates =
      governance_record valid r
      ∷ privacy_record valid r
      ∷ performance_record valid r
      ∷ recovery_record valid r
      ∷ multi_cloud_record valid r
      ∷ [] in
    record {
      candidate_id = r.candidate_id;
      decision = if any has_not_passed gates then blocked else ready_for_verification;
      gates = gates;
    }
