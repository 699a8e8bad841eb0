-- ===== src/Examples/Titan.antt =====
-- The bus and the gates at concrete inputs.
use sara_omega.Prelude.{
  String, ◌≡◌, refl, ◌≢◌, ◌↔◌, true, [], ◌∷◌, ◌++◌, map, member, Every, arith, if◌then◌else◌,
  eq_iff,
}
use sara_omega.Prelude.Int.{pos}
use sara_omega.Prelude.Text.{strip, rstrip, is_space, upper, translate}
use sara_omega.Titan.{
  Payload, VoiceEvent, Titan, DeploymentGate, list_at, publish, ontological_anchor,
  required_sequence, sort_by_sequence,
}
use sara_omega.Titan.Chain.{Chained, event_type_of}
use sara_omega.Titan.Bus.{IsOrdered, publish-IsOrdered}
use sara_omega.Titan.Gates.{
  is_approved, is_authorized, ExecuteGateRequest, DeploymentGateRequest, new_execute_gate,
  execute_gate, execute_gate_iff,
}

abbrev sign : Payload String → String
sign p = p.event_id

abbrev quiet : Titan String
quiet = record {
  chains = [];
  bus_log = [];
  subscribers = [];
  deployment_gates = [];
  execute_gates = [];
  apex_audits = [];
}

abbrev first_event : VoiceEvent String
first_event = record {
  payload = record {
    event_id = "e1";
    chain_id = "c1";
    sequence = pos 0;
    event_type = "VALIDATE";
    details = "d";
    prev_signature = "";
    timestamp = "t";
    anchor = ontological_anchor;
  };
  signature = "e1";
}

publish-IsOrdered_example : IsOrdered sign (publish sign first_event quiet).1
publish-IsOrdered_example = publish-IsOrdered sign first_event quiet (λ c. tt)

abbrev execute_request : ExecuteGateRequest
execute_request = record {
  chain_id = "c1";
  target_service = "s";
  action = "a";
  architect_approval = " approved ";
}

execute_gate_iff_example :
    ((is_authorized sign (execute_gate sign "g" "t" execute_request quiet).0 ≡ true) ↔ (
      (is_approved " approved " ≡ true)
      × Chained sign 0 "" (sort_by_sequence (list_at "c1" quiet.chains))
      × Every
          (λ k.
            member k (map (event_type_of sign) (sort_by_sequence (list_at "c1" quiet.chains)))
            ≡ true)
          required_sequence))
    × ((execute_gate sign "g" "t" execute_request quiet).1.execute_gates ≡ (
        if is_authorized sign (execute_gate sign "g" "t" execute_request quiet).0
        then quiet.execute_gates ++ new_execute_gate sign "g" "t" execute_request ∷ []
        else quiet.execute_gates))
execute_gate_iff_example = execute_gate_iff sign "g" "t" execute_request quiet

abbrev deployment_request : DeploymentGateRequest
deployment_request = record { service = "s"; revision = "r"; architect_approval = "approved" }

abbrev data_of : DeploymentGate → String
data_of g = g.service

approval-given : is_approved "approved" ≡ true
unfolding is_approved strip rstrip is_space upper translate
approval-given = refl

abbrev gate_id : String
gate_id = "g1"

gate-named : gate_id ≢ ""
gate-named h = ground (arith, eq_iff gate_id "", h)
