-- ===== src/Titan/Gates.antt =====
-- `deployment_gate`, `audit_chain`, `execute_gate` and `sovereignty_sweep` of app/titan.py.
use sara_omega.Prelude.{
  ℕ, String, ◌≡◌, refl, ◌↔◌, ◌≢◌, Bool, true, false, not, List, [], ◌∷◌, ◌++◌, map, none, length,
  member, is_empty, str_eq, eq_iff, if◌then◌else◌, ◌==◌, arith, Every, Bool-cases, inl, inr, select,
}
use sara_omega.Prelude.Dict.{Dict, lookup}
use sara_omega.Prelude.Int.{pos}
use sara_omega.Prelude.Text.{strip, upper, rstrip, is_space, translate, or_else}
use sara_omega.Prelude.Attempt.{Attempt, returned, ◌>>=◌, bind-returned}
use sara_omega.Titan.{
  Payload, VoiceEvent, VoiceEventRequest, Titan, DeploymentGate, ExecuteGate, Audit, Violation,
  list_at, emit, voice_events, publish, accepted, required_sequence, sort_by_sequence,
}
use sara_omega.Titan.Bus.{emit_total, emit-publish}
use sara_omega.Titan.Chain.{audit_events, audit_events-valid_iff, Chained, event_type_of}

-- `architect_approval.strip().upper() == "APPROVED"`
unfoldable pub is_approved : String → Bool
unfolding strip upper
is_approved text = str_eq (upper (strip text)) "APPROVED"

pub data Execution : Type 0 where
  unapproved : Execution
  integrity_violations : List Violation → Execution
  authorized : ExecuteGate → (chain_event_count : ℕ) → Execution

pub data Deployment (D : Type 0) : Type 0 where
  blocked : Deployment D
  approved : DeploymentGate → VoiceEvent D → Deployment D

pub record ExecuteGateRequest : Type 0 where
  pub chain_id : String
  pub target_service : String
  pub action : String
  pub architect_approval : String

pub record DeploymentGateRequest : Type 0 where
  pub service : String
  pub revision : String
  pub architect_approval : String

-- `sovereignty_sweep`: the violations of the wanted services, of those that the audit of the
-- modules has.
pub record Sweep (V : Type 0) : Type 0 where
  pub modules_swept : ℕ
  pub violation_count : ℕ
  pub violations : List V
  pub sovereign : Bool

abbrev pub is_wanted : {V : Type 0} → (V → String) → List String → V → Bool
is_wanted service ids v = member (service v) ids

unfoldable pub sovereignty_sweep :
    {V : Type 0} → (V → String) → (total_audited : ℕ) → List V → List String → Sweep V
sovereignty_sweep service total found ids =
    let violations = if is_empty ids then found else select (is_wanted service ids) found in
    record {
      modules_swept = if is_empty ids then total else length ids;
      violation_count = length violations;
      violations = violations;
      sovereign = length violations == 0;
    }

list_at-absent :
    {A : Type 0} (k : String) (d : Dict (List A)) → lookup k d ≡ none → list_at k d ≡ []
list_at-absent k d h = rw (list_at, h) refl

certify-known : member (upper (strip "CERTIFY")) voice_events ≡ true
unfolding strip rstrip is_space upper translate
certify-known = refl

or_else-given : (s d : String) → s ≢ "" → or_else s d ≡ s
or_else-given s d h = ground (arith, eq_iff s "", h)

module _ {D : Type 0} (sign : Payload D → String) where
  -- `audit_chain` records what it finds.
  unfoldable pub audit_chain : String → Titan D → Audit × Titan D
  unfolding audit_events
  audit_chain chain_id t =
      let audit = audit_events sign (list_at chain_id t.chains) in
      (
        audit,
        record {
          chains = t.chains;
          bus_log = t.bus_log;
          subscribers = t.subscribers;
          deployment_gates = t.deployment_gates;
          execute_gates = t.execute_gates;
          apex_audits = t.apex_audits ++ (chain_id, audit) ∷ [];
        },
      )

  abbrev pub add_execute_gate : ExecuteGate → Titan D → Titan D
  add_execute_gate g t = record {
    chains = t.chains;
    bus_log = t.bus_log;
    subscribers = t.subscribers;
    deployment_gates = t.deployment_gates;
    execute_gates = t.execute_gates ++ g ∷ [];
    apex_audits = t.apex_audits;
  }

  abbrev pub new_execute_gate : String → String → ExecuteGateRequest → ExecuteGate
  new_execute_gate gate_id gated_at r = record {
    gate_id = gate_id;
    chain_id = r.chain_id;
    target_service = r.target_service;
    action = r.action;
    gated_at = gated_at;
  }

  unfoldable pub execute_gate : String → String → ExecuteGateRequest → Titan D → Execution × Titan D
  unfolding is_approved audit_chain
  execute_gate gate_id gated_at r t =
      let audit = audit_chain r.chain_id t in
      let gate = new_execute_gate gate_id gated_at r in
      if not (is_approved r.architect_approval)
      then (unapproved, t)
      else if not audit.0.chain_valid
      then (integrity_violations audit.0.violations, audit.1)
      else (authorized gate audit.0.event_count, add_execute_gate gate audit.1)

  abbrev pub add_deployment_gate : DeploymentGate → Titan D → Titan D
  add_deployment_gate g t = record {
    chains = t.chains;
    bus_log = t.bus_log;
    subscribers = t.subscribers;
    deployment_gates = t.deployment_gates ++ g ∷ [];
    execute_gates = t.execute_gates;
    apex_audits = t.apex_audits;
  }

  -- The event that certifies a gate: the gate is the data, and its id names the chain.
  abbrev pub certify_request : (DeploymentGate → D) → DeploymentGate → VoiceEventRequest D
  certify_request data_of g = record {
    event_type = "CERTIFY";
    chain_id = g.gate_id;
    details = data_of g;
    prev_signature = "";
    sequence = pos 0;
  }

  -- `data_of` makes the event's JSON data of the gate.
  unfoldable pub deployment_gate :
      (DeploymentGate → D)
      → String
      → String
      → String
      → String
      → DeploymentGateRequest
      → Titan D
      → Attempt (Deployment D × Titan D)
  unfolding is_approved emit
  deployment_gate data_of gate_id gated_at event_id new_chain r t =
      let gate : DeploymentGate = record {
        gate_id = gate_id;
        service = r.service;
        revision = r.revision;
        gated_at = gated_at;
      } in
      if not (is_approved r.architect_approval) then returned (blocked, t) else do
        certify ←
            emit sign event_id gated_at new_chain (certify_request data_of gate)
              (add_deployment_gate gate t)
        returned (approved gate certify.0, certify.1)

  abbrev pub is_authorized : Execution → Bool
  is_authorized (authorized g n) = true
  is_authorized _ = false

  -- An execution is authorised exactly when the architect has approved it and the chain is valid,
  -- and exactly then its gate is recorded.
  pub execute_gate_iff :
      (gate_id gated_at : String) (r : ExecuteGateRequest) (t : Titan D)
      → (let x = execute_gate gate_id gated_at r t in
          let ordered = sort_by_sequence (list_at r.chain_id t.chains) in
          ((is_authorized x.0 ≡ true) ↔ (
            (is_approved r.architect_approval ≡ true)
            × Chained sign 0 "" ordered
            × Every (λ k. member k (map (event_type_of sign) ordered) ≡ true) required_sequence))
          × (x.1.execute_gates ≡ (
              if is_authorized x.0
              then t.execute_gates ++ new_execute_gate gate_id gated_at r ∷ []
              else t.execute_gates)))
  unfolding execute_gate audit_chain
  execute_gate_iff gate_id gated_at r t =
      let valid = audit_events-valid_iff sign (list_at r.chain_id t.chains) in
      elim (Bool-cases (is_approved r.architect_approval)) [
        | inr a ↦ rw a ((λ h. cc, λ h. cc), refl)
        | inl a ↦ elim (Bool-cases (audit_events sign (list_at r.chain_id t.chains)).chain_valid) [
          | inr v ↦ rw (a, v) ((λ h. cc, λ h. absurd (ground (arith, v, valid.1 (h.1, h.2)))), refl)
          | inl v ↦ rw (a, v) ((λ h. (refl, (valid.0 v).0, (valid.0 v).1), λ h. refl), refl)
        ]
      ]

  -- A deployment that the architect has approved is recorded, with an event that certifies it and
  -- that the bus takes as the first of its chain.
  pub deployment_gate-certified :
      (data_of : DeploymentGate → D) (gate_id gated_at event_id new_chain : String)
      (r : DeploymentGateRequest) (t : Titan D)
      → is_approved r.architect_approval ≡ true
      → gate_id ≢ ""
      → lookup gate_id t.bus_log ≡ none
      → (g : DeploymentGate) × (e : VoiceEvent D) × (t' : Titan D) × (n : ℕ) × (deployment_gate
            data_of gate_id gated_at event_id new_chain r t
          ≡ returned (approved g e, t'))
        × (t'.deployment_gates ≡ t.deployment_gates ++ g ∷ [])
        × ((publish sign e t').0 ≡ accepted n)
  unfolding deployment_gate
  deployment_gate-certified data_of gate_id gated_at event_id new_chain r t a named fresh =
      let gate : DeploymentGate = record {
        gate_id = gate_id;
        service = r.service;
        revision = r.revision;
        gated_at = gated_at;
      } in
      let request = certify_request data_of gate in
      let known : member (upper (strip request.event_type)) voice_events ≡ true = certify-known in
      let (e, t', made, same) =
        emit_total sign event_id gated_at new_chain request (add_deployment_gate gate t) known in
      let next =
        emit-publish sign event_id gated_at new_chain request (add_deployment_gate gate t) t' e made
          (rw (or_else-given gate_id new_chain named, list_at-absent gate_id t.bus_log fresh)
            refl) in
      (
        gate,
        e,
        t',
        next.0,
        rw a (bind-returned _ made (λ c. returned (approved gate c.0, c.1))),
        same,
        next.1,
      )
