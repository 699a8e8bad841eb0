-- ===== src/Enforcement.antt =====
-- `ProductionEnforcementBoundary` of sara_unified/governance/enforcement.py. The audit ledger is
-- the interface `AuditPort`; the clock, the fresh identifiers and the ephemeral key are arguments.
pub mod Policy
pub mod Granted
pub mod Ledger
use Prim.Native.String.{len, ◌++◌ as str_append}
use sara_omega.Prelude.{
  ℕ, String, Bool, true, false, not, ◌||◌, List, [], Option, none, some, ltb, str_eq, if◌then◌else◌,
}
use sara_omega.Prelude.Dict.{Dict}
use sara_omega.Prelude.Int.{ℤ, max_zero}
use sara_omega.Prelude.Text.{strip, or_else, sorted_set}
use sara_omega.Prelude.Attempt.{Attempt, returned, raised}
use sara_omega.Prelude.Float.{Float, fmin, fmax}
use sara_omega.Kernel.Model.{
  Decision, allow, restrict, escalate, quarantine, deny, decision_value, ActionRequest,
  GovernancePolicy, InsurancePolicy, InsuranceRequirementSet, ExecutionEvidence,
}
use sara_omega.Kernel.Evaluate.{Crypto, UnsignedPayload, unsigned_payload, evaluate}

pub record EnforcementProfile : Type 0 where
  pub action : String
  pub tool : String
  pub capability : String
  pub from_state : String
  pub to_state : String
  pub reversible : Bool
  pub production : Bool
  pub external_network_access : Bool
  pub high_impact_domain : Bool

-- The keyword arguments of `authorize`.
pub record AuthorizeCall (F : Float) : Type 0 where
  pub profile : EnforcementProfile
  pub actor_id : String
  pub actor_type : String
  pub capabilities : List String
  pub input_provenance_ok : Bool
  pub resource : String
  pub jurisdiction : String
  pub human_approval_id : Option String
  pub affected_records : ℤ
  pub financial_value_usd : F.Num
  pub contains_sensitive_data : Bool
  pub anomaly_score : F.Num
  pub autonomous : Bool
  pub policy_tags : List String
  pub metadata : Dict String
  pub insurance_policy : Option (InsurancePolicy F)
  pub insurance_requirements : Option (InsuranceRequirementSet F)

pub record EvidencePayload (F : Float) : Type 0 where
  pub unsigned : UnsignedPayload F
  pub evidence_hash : String
  pub signature : String

-- What the boundary writes to the ledger.
pub data AuditDetails (F : Float) : Type 0 where
  authorization : String → String → EvidencePayload F → AuditDetails F
  fail_closed : String → String → Bool → AuditDetails F

-- The operations of the ledger that the boundary calls. A call that raises leaves the ledger.
pub record AuditPort (S D : Type 0) : Type 0 where
  pub verify : S → Attempt Bool
  pub append : S → String → String → D → Attempt S

-- `GovernanceUnavailable` and `GovernanceBlocked` are the two exceptions.
pub data Outcome (F : Float) : Type 0 where
  granted : ExecutionEvidence F → Outcome F
  unavailable : String → Outcome F
  blocked : ExecutionEvidence F → ℕ → Outcome F

unfoldable pub status_code : Decision → ℕ
status_code quarantine = 423
status_code _ = 403

-- `SARAUnifiedGovernanceKernel(key)`: the key, if it has at least 16 bytes.
unfoldable pub make_kernel : String → Attempt String
make_kernel key = if str_eq key "" || ltb (len key) 16 then raised "ValueError" else returned key

pub record Boundary (F : Float) : Type 0 where
  pub required : Bool
  pub tenant_id : String
  pub policy : GovernancePolicy F
  pub kernel : Option String
  pub configuration_error : Option String

-- The kernel and the configuration error that `__init__` sets.
unfoldable pub configure : Option String → Bool → String → Option String × Option String
unfolding make_kernel
configure signing_key required ephemeral =
    let unset : Option String × Option String =
      if required then (none, some "missing_signing_key") else (some ephemeral, none) in
    elim signing_key [
      | none ↦ unset
      | some key ↦
          if str_eq key ""
          then unset
          else elim (make_kernel key) [ returned k ↦ (some k, none) | raised e ↦ (none, some e) ]
    ]

-- What the clock and `uuid4` give to one call.
pub record Moment : Type 0 where
  pub request_id : String
  pub issued_at : String
  pub today : ℕ

abbrev pub kernel_error : Option String → String
kernel_error none = "kernel_unavailable"
kernel_error (some e) = or_else e "kernel_unavailable"

-- `try: ... except Exception: pass` round a change of the state.
abbrev pub keep_on_raise : {S : Type 0} → S → Attempt S → S
keep_on_raise s (returned s') = s'
keep_on_raise s (raised e) = s

module _ {F : Float} where
  unfoldable pub make_boundary :
      Option String → Bool → String → GovernancePolicy F → String → Boundary F
  unfolding configure strip
  make_boundary signing_key required tenant policy ephemeral =
      let made = configure signing_key required ephemeral in
      record {
        required = required;
        tenant_id = or_else (strip tenant) "default";
        policy = policy;
        kernel = made.0;
        configuration_error = made.1;
      }

  unfoldable pub build_request : String → String → AuthorizeCall F → ActionRequest F
  unfolding strip sorted_set
  build_request request_id tenant c = record {
    request_id = request_id;
    actor = record {
      actor_id = strip c.actor_id;
      actor_type = or_else (strip c.actor_type) "api";
      tenant_id = tenant;
      authenticated = not (str_eq (strip c.actor_id) "");
      roles = [];
      capabilities = sorted_set c.capabilities;
    };
    action = c.profile.action;
    resource = c.resource;
    tool = c.profile.tool;
    jurisdiction = or_else c.jurisdiction "unspecified";
    requested_capability = c.profile.capability;
    transition = record {
      resource = c.resource;
      from_state = c.profile.from_state;
      to_state = c.profile.to_state;
      reversible = c.profile.reversible;
      production = c.profile.production;
    };
    input_provenance_ok = c.input_provenance_ok;
    policy_tags = c.policy_tags;
    affected_records = max_zero c.affected_records;
    financial_value_usd = fmax F (F.lit 0) c.financial_value_usd;
    contains_sensitive_data = c.contains_sensitive_data;
    high_impact_domain = c.profile.high_impact_domain;
    anomaly_score = fmax F (F.lit 0) (fmin F (F.lit 10000) c.anomaly_score);
    external_network_access = c.profile.external_network_access;
    autonomous = c.autonomous;
    human_approval_id = c.human_approval_id;
    metadata = c.metadata;
  }

  unfoldable pub evidence_payload : ExecutionEvidence F → EvidencePayload F
  unfolding unsigned_payload
  evidence_payload e = record {
    unsigned = unsigned_payload e;
    evidence_hash = e.evidence_hash;
    signature = e.signature;
  }

  module _ {S : Type 0} (port : AuditPort S (AuditDetails F)) (crypto : Crypto F) where
    unfoldable pub record_fail_closed : String → String → Bool → S → S
    record_fail_closed action reason allow_unverified s = keep_on_raise s (
        port.append s "governance-kernel" "GOVERNANCE_FAIL_CLOSED"
          (fail_closed action reason (not allow_unverified)))

    abbrev pub conclude : ExecutionEvidence F → Outcome F
    conclude e = elim e.decision [ allow ↦ granted e | _ ↦ blocked e (status_code e.decision) ]

    -- The evidence is acted on only once it has been written.
    unfoldable pub settle : ExecutionEvidence F → S → Attempt S → Outcome F × S
    unfolding status_code
    settle e s (returned s') = (conclude e, s')
    settle e s (raised x) =
        (unavailable "governance authorization evidence could not be persisted", s)

    -- The rest of `authorize`, once the kernel is there and the ledger is verified.
    unfoldable pub decide_and_record :
        Boundary F → String → Moment → AuthorizeCall F → S → Outcome F × S
    unfolding evidence_payload settle
    decide_and_record b key m c s =
        let evidence =
          evaluate crypto key m.issued_at m.today (build_request m.request_id b.tenant_id c)
            b.policy c.insurance_policy c.insurance_requirements none in
        settle evidence s (
          port.append s "governance-kernel" "GOVERNANCE_AUTHORIZATION"
            (authorization c.profile.action c.resource (evidence_payload evidence)))

    -- On what `self.audit.verify()` answers.
    unfoldable pub after_verify :
        Boundary F → String → Moment → AuthorizeCall F → S → Attempt Bool → Outcome F × S
    unfolding decide_and_record record_fail_closed
    after_verify b key m c s (returned true) = decide_and_record b key m c s
    after_verify b key m c s (returned false) = (
      unavailable "governance audit chain is invalid",
      record_fail_closed c.profile.action "audit_chain_invalid" true s,
    )
    after_verify b key m c s (raised e) = (
      unavailable "governance audit verification failed",
      record_fail_closed c.profile.action (str_append "audit_verification_error:" e) false s,
    )

    -- On `self._kernel`.
    unfoldable pub with_kernel :
        Boundary F → Moment → AuthorizeCall F → S → Option String → Outcome F × S
    unfolding after_verify
    with_kernel b m c s none = (
      unavailable "production governance kernel is unavailable",
      record_fail_closed c.profile.action (kernel_error b.configuration_error) false s,
    )
    with_kernel b m c s (some key) = after_verify b key m c s (port.verify s)

    unfoldable pub authorize : Boundary F → Moment → AuthorizeCall F → S → Outcome F × S
    unfolding with_kernel
    authorize b m c s = with_kernel b m c s b.kernel

    -- `ready`
    unfoldable pub ready : Boundary F → S → Bool
    ready b s = elim b.kernel [
      | none ↦ false
      | some key ↦ elim (port.verify s) [ returned ok ↦ ok | raised e ↦ false ]
    ]
