-- ===== src/Examples/Governance.antt =====
-- The kernel, the boundary and the ledger at concrete inputs.
use mathlib.Core.Path.{subst}
use sara_omega.Prelude.{
  String, false, sym, ◌∙◌, ℕ, ◌≡◌, refl, ap, ◌≢◌, ◌↔◌, ◌≤◌, ◌⊎◌, true, none, some, List, [], ◌∷◌,
  arith, Every, eq_iff,
}
use sara_omega.Prelude.Attempt.{returned-inj, returned}
use sara_omega.Prelude.Float.{fixed, fixed-Lawful}
use sara_omega.Kernel.Model.{allow, deny, quarantine, pass, ExecutionEvidence}
use sara_omega.Kernel.Insurance.{
  validate, insured_matches, jurisdiction_matches, carrier_is_verified, candidates,
}
use sara_omega.Kernel.Risk.{
  risk_score, risk_factors, flag_entries, records_entry, financial_entry, anomaly_entry,
}
use sara_omega.Kernel.Evaluate.{
  sealed, decide, evaluate, verify, valid, hash_mismatch, unsigned_payload,
}
use sara_omega.Kernel.Authorized.{
  Insured, NotRefused, IsIdentified, IsPermitted, IsWithinRisk, decide-allow_iff, decide-deny_iff,
}
use sara_omega.Kernel.Evidence.{verify-altered}
use sara_omega.Kernel.Bounds.{risk_score_mono, AtLeastAsRisky}
use sara_omega.Kernel.Coverage.{validate-pass_iff, Meets}
use sara_omega.Kernel.Gates.{
  aggregate_decision, gates_of, identity_gate, authority_gate, policy_gate, transition_gate,
  provenance_gate, risk_gate, human_gate, insurance_gate, identity_ok, by_name,
}
use sara_omega.Prelude.Text.{strip, rstrip, is_space, sorted_set, insert_sorted}
use sara_omega.Audit.{
  new_body, genesis, last_hash, Event, malformed, event, Json, is_break, is_white, is_encodable,
  read_line, records, hash_of, verify_from, append,
}
use sara_omega.Audit.Lines.{IsTerminated, NoBreak}
use sara_omega.Audit.Chain.{IsPlain, event_at, append-verify, append-broken}
use sara_omega.Enforcement.{
  evidence_payload, build_request, authorization, AuditDetails, fail_closed, granted, blocked,
  authorize, with_kernel, after_verify, decide_and_record, settle, status_code,
}
use sara_omega.Enforcement.Granted.{issued, recorded, authorize-granted_iff, authorize-blocked}
use sara_omega.Enforcement.Ledger.{
  ledger_port, IsSound, WritesPlain, authorized_details, authorize-verify,
}
use sara_omega.Examples.Data.{
  blank_call, policy, incident, anonymous, reckless, insurance, requirements, crypto, call,
  boundary, moment, sha256, json, json_of, empty_file, one_line,
}

decide-allow_iff_example : (decide incident policy none none 150 ≡ allow) ↔ (
    IsIdentified incident
    × IsPermitted incident policy
    × IsWithinRisk incident policy
    × Insured incident policy none none 150)
decide-allow_iff_example = decide-allow_iff incident policy none 150 none

decide-deny_iff_example : (decide anonymous policy none none 150 ≡ deny) ↔ (
    ¬ (IsIdentified anonymous × IsPermitted anonymous policy × NotRefused anonymous none none 150))
decide-deny_iff_example = decide-deny_iff anonymous policy none 150 none

reckless_score : fixed.lt policy.max_risk_score (risk_score fixed reckless) ≡ true
unfolding risk_score risk_factors flag_entries records_entry financial_entry anomaly_entry
reckless_score = refl

-- Evidence whose decision was turned from a denial into an approval.
abbrev denied_evidence : ExecutionEvidence fixed
denied_evidence = record {
  evidence_version = "1.0";
  issued_at = "now";
  request_id = "req-1";
  decision = deny;
  policy_id = "p";
  policy_version = "1";
  gate_results = [];
  risk_score = 0;
  risk_factors = [];
  request_digest = "req-1";
  previous_evidence_hash = none;
  evidence_hash = "DENY";
  signature = "key";
}

abbrev altered_evidence : ExecutionEvidence fixed
altered_evidence = record denied_evidence { decision = allow }

denied-verified : verify crypto denied_evidence "key" ≡ valid
unfolding verify unsigned_payload
denied-verified = refl

altered-differs : unsigned_payload altered_evidence ≢ unsigned_payload denied_evidence
unfolding unsigned_payload
altered-differs h =
    let p : "ALLOW" ≡ "DENY" = ap (λ u. u.decision) h in ground (arith, eq_iff "ALLOW" "DENY", p)

altered-no_collision :
    crypto.digest_payload (unsigned_payload altered_evidence)
      ≡ crypto.digest_payload (unsigned_payload denied_evidence)
    → unsigned_payload altered_evidence ≡ unsigned_payload denied_evidence
unfolding unsigned_payload
altered-no_collision h = absurd (ground (arith, eq_iff "ALLOW" "DENY", h))

verify-altered_example : verify crypto altered_evidence "other key" ≡ hash_mismatch
verify-altered_example =
    verify-altered crypto denied_evidence altered_evidence "key" "other key" altered-no_collision
      denied-verified refl altered-differs

incident-reckless : AtLeastAsRisky incident reckless
incident-reckless = record {
  production = λ h. h;
  irreversible = λ h. cc;
  sensitive = λ h. refl;
  high_impact = λ h. refl;
  network = λ h. refl;
  autonomous = λ h. refl;
  records = refl;
  value = refl;
  anomaly = refl;
}

risk_score_mono_example : fixed.le (risk_score fixed incident) (risk_score fixed reckless) ≡ true
risk_score_mono_example = risk_score_mono fixed-Lawful incident reckless incident-reckless

validate-pass_iff_example :
    ((validate (some insurance) (some requirements) "US-TX" 150).status ≡ pass) ↔ (
      (insurance.effective_date ≤ 150)
      × (150 ≤ insurance.expiration_date)
      × (insured_matches insurance requirements ≡ true)
      × (jurisdiction_matches insurance requirements "US-TX" ≡ true)
      × (requirements.carrier_verification_required ≡ true → carrier_is_verified insurance ≡ true)
      × Every (λ r. Meets (candidates insurance r) r) requirements.requirements)
validate-pass_iff_example = validate-pass_iff insurance requirements "US-TX" 150

empty-verified :
    (j : Json (AuditDetails fixed)) → sara_omega.Audit.verify j sha256 empty_file ≡ returned true
unfolding sara_omega.Audit.verify records verify_from
empty-verified j = refl

no_entries : (j : Json (AuditDetails fixed)) → records j empty_file ≡ returned []
unfolding records
no_entries j = refl

port_verified : (ledger_port json sha256 "now").verify empty_file ≡ returned true
unfolding ledger_port
port_verified = empty-verified json

abbrev incident_evidence : ExecutionEvidence fixed
incident_evidence =
    issued (ledger_port json sha256 "now") crypto boundary "0123456789abcdef" moment call

abbrev incident_event : Event (AuditDetails fixed)
incident_event = record {
  body =
      new_body 1 "now" "governance-kernel" "GOVERNANCE_AUTHORIZATION"
        (authorization "incident.create" "pump-3" (evidence_payload incident_evidence)) genesis;
  event_hash = some "digest";
}

-- A JSON that reads the event back.
abbrev incident_json : Json (AuditDetails fixed)
incident_json = json_of (event incident_event)

plain : IsPlain incident_json sha256 incident_event
unfolding is_break is_white
plain = record { one_line = (refl, (refl, tt)); not_blank = refl; read_back = refl }

encodes : is_encodable (b'{' ∷ []) ≡ true
unfolding is_encodable
encodes = refl

append-verify_example :
    (append incident_json sha256 "now" "governance-kernel" "GOVERNANCE_AUTHORIZATION"
        (authorization "incident.create" "pump-3" (evidence_payload incident_evidence))
        empty_file
      ≡ returned (one_line, incident_event))
    × (sara_omega.Audit.verify incident_json sha256 one_line ≡ returned true)
    × IsTerminated one_line
append-verify_example =
    append-verify incident_json sha256 "now" "governance-kernel" "GOVERNANCE_AUTHORIZATION"
      (authorization "incident.create" "pump-3" (evidence_payload incident_evidence)) empty_file []
      tt (empty-verified incident_json) (no_entries incident_json) encodes plain

-- A JSON whose texts have a U+2028 in them.
abbrev broken_json : Json (AuditDetails fixed)
broken_json = record {
  body_text = λ b. b'{' ∷ [];
  event_text = λ e. b'{' ∷ 8232 ∷ b'}' ∷ [];
  parse = λ l. malformed;
}

abbrev broken_text : List ℕ
broken_text = b'{' ∷ 8232 ∷ b'}' ∷ 10 ∷ []

first_part :
    (NoBreak (b'{' ∷ [])) × (is_break 8232 ≡ true) × (read_line broken_json (b'{' ∷ []) ≡ malformed)
unfolding is_break read_line is_white
first_part = ((refl, tt), refl, refl)

append-broken_example :
    (append broken_json sha256 "now" "a" "b" (fail_closed "a" "r" true) empty_file
      ≡ returned
          (broken_text, event_at broken_json sha256 "now" "a" "b" (fail_closed "a" "r" true) []))
    × (sara_omega.Audit.verify broken_json sha256 broken_text ≡ returned false)
append-broken_example =
    append-broken broken_json sha256 "now" "a" "b" (fail_closed "a" "r" true) empty_file []
      (b'{' ∷ []) (b'}' ∷ []) 8232 tt (empty-verified broken_json) (no_entries broken_json) encodes
      refl first_part.0 first_part.1 first_part.2

some-inj : {a b : String} → some a ≡ some b → a ≡ b
some-inj h = cc

incident_is_plain : WritesPlain incident_json sha256 "now" crypto boundary moment call empty_file
incident_is_plain = record {
  refusal = λ e. cc;
  decision = λ key e es known enc.
      let same_key : "0123456789abcdef" ≡ key = some-inj e in
      let nothing : [] ≡ es = returned-inj (sym (no_entries incident_json) ∙ known) in
      subst
        (λ k. IsPlain incident_json sha256 (
          event_at incident_json sha256 "now" "governance-kernel" "GOVERNANCE_AUTHORIZATION"
            (authorized_details incident_json sha256 "now" crypto boundary moment call k) es))
        same_key
        (subst
          (λ l. IsPlain incident_json sha256 (
            event_at incident_json sha256 "now" "governance-kernel" "GOVERNANCE_AUTHORIZATION"
              (authorized_details incident_json sha256 "now" crypto boundary moment call
                "0123456789abcdef")
              l))
          nothing plain);
}

empty-IsSound : IsSound incident_json sha256 "now" empty_file
empty-IsSound = record { verified = empty-verified incident_json; terminated = tt }

authorize-verify_example :
    IsSound incident_json sha256 "now"
      (authorize (ledger_port incident_json sha256 "now") crypto boundary moment call empty_file).1
authorize-verify_example =
    authorize-verify incident_json sha256 "now" crypto boundary moment call empty_file empty-IsSound
      incident_is_plain

incident-allowed : incident_evidence.decision ≡ allow
unfolding evaluate sealed decide aggregate_decision gates_of build_request identity_gate
    authority_gate policy_gate transition_gate provenance_gate risk_gate human_gate insurance_gate
    risk_score risk_factors flag_entries records_entry financial_entry anomaly_entry strip rstrip
    is_space sorted_set insert_sorted identity_ok
incident-allowed = refl

incident-persisted :
    recorded (ledger_port json sha256 "now") crypto incident_evidence call empty_file
    ≡ returned one_line
unfolding ledger_port append records last_hash hash_of
incident-persisted = refl

authorize-granted_iff_example :
    authorize (ledger_port json sha256 "now") crypto boundary moment call empty_file
    ≡ (granted incident_evidence, one_line)
authorize-granted_iff_example =
    (authorize-granted_iff (ledger_port json sha256 "now") crypto boundary moment call empty_file
        one_line incident_evidence).1
      (record {
        key = "0123456789abcdef";
        kernel_present = refl;
        ledger_verified = port_verified;
        evidence_issued = refl;
        allowed = incident-allowed;
        persisted = incident-persisted;
      })

-- The call of nobody.
abbrev blank_evidence : ExecutionEvidence fixed
blank_evidence =
    issued (ledger_port json sha256 "now") crypto boundary "0123456789abcdef" moment blank_call

abbrev forbidden : ℕ
forbidden = 403

blank-denied : blank_evidence.decision ≡ deny
unfolding evaluate sealed decide aggregate_decision gates_of build_request identity_gate
    authority_gate policy_gate transition_gate provenance_gate risk_gate human_gate insurance_gate
    risk_score risk_factors flag_entries records_entry financial_entry anomaly_entry strip rstrip
    is_space sorted_set insert_sorted identity_ok by_name
blank-denied = refl

blank-blocked :
    authorize (ledger_port json sha256 "now") crypto boundary moment blank_call empty_file
    ≡ (blocked blank_evidence forbidden, one_line)
unfolding authorize with_kernel after_verify decide_and_record settle status_code ledger_port append
    records last_hash hash_of sara_omega.Audit.verify verify_from
blank-blocked = rw blank-denied refl

authorize-blocked_example :
    ((ledger_port json sha256 "now").verify empty_file ≡ returned true)
    × (recorded (ledger_port json sha256 "now") crypto blank_evidence blank_call empty_file
        ≡ returned one_line)
    × (blank_evidence.decision ≢ allow)
    × ((forbidden ≡ 423) ↔ (blank_evidence.decision ≡ quarantine))
    × ((forbidden ≡ 403) ⊎ (forbidden ≡ 423))
authorize-blocked_example =
    authorize-blocked (ledger_port json sha256 "now") crypto boundary moment blank_call empty_file
      one_line blank_evidence forbidden blank-blocked
