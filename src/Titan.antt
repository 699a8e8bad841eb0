-- ===== src/Titan.antt =====
-- `TitanEngine` of app/titan.py: signed VOICE events, the chains they are emitted to, the bus that
-- takes them in order, and the gates over a chain. HMAC over the canonical JSON of an event is the
-- argument `sign`; an event has the keys that `build_event` writes. New ids and times are
-- arguments.
pub mod Chain
pub mod Bus
pub mod Gates
use sara_omega.Prelude.{
  ℕ, zero, suc, String, Bool, true, false, not, ◌&&◌, List, [], ◌∷◌, ◌++◌, map, Option, none, some,
  length, member, is_empty, select, str_eq, if◌then◌else◌, ◌==◌,
}
use sara_omega.Prelude.Dict.{Dict, lookup, insert}
use sara_omega.Prelude.Int.{ℤ, pos, negsuc, ltb_ℤ}
use sara_omega.Prelude.Text.{strip, upper, or_else}
use sara_omega.Prelude.Attempt.{Attempt, returned, raised, ◌>>=◌}

abbrev pub ontological_anchor : String
ontological_anchor = "0aa4755159bf24d69acd4e8608445bbe"

abbrev pub required_sequence : List String
required_sequence = "VALIDATE" ∷ "ORCHESTRATE" ∷ "INTEGRATE" ∷ "CERTIFY" ∷ "EXECUTE" ∷ []

abbrev pub voice_events : List String
voice_events = required_sequence

-- An event without its signature.
pub record Payload (D : Type 0) : Type 0 where
  pub event_id : String
  pub chain_id : String
  pub sequence : ℤ
  pub event_type : String
  pub details : D
  pub prev_signature : String
  pub timestamp : String
  pub anchor : String

pub record VoiceEvent (D : Type 0) : Type 0 where
  pub payload : Payload D
  pub signature : String

pub record DeploymentGate : Type 0 where
  pub gate_id : String
  pub service : String
  pub revision : String
  pub gated_at : String

pub record ExecuteGate : Type 0 where
  pub gate_id : String
  pub chain_id : String
  pub target_service : String
  pub action : String
  pub gated_at : String

-- What an audit of a chain finds at the event of a number, and at the end.
pub data Violation : Type 0 where
  signature_invalid anchor_mismatch chain_broken : ℤ → Violation
  expected_sequence : ℕ → ℤ → Violation
  missing_required : String → Violation

pub record Audit : Type 0 where
  pub event_count : ℕ
  pub event_types : List String
  pub violations : List Violation
  pub chain_valid : Bool

pub record Titan (D : Type 0) : Type 0 where
  pub chains : Dict (List (VoiceEvent D))
  pub bus_log : Dict (List (VoiceEvent D))
  pub subscribers : Dict (List String)
  pub deployment_gates : List DeploymentGate
  pub execute_gates : List ExecuteGate
  pub apex_audits : List (String × Audit)

-- `d.get(k, [])`
abbrev pub list_at {ℓ} : {A : Type ℓ} → String → Dict (List A) → List A
list_at k d = elim (lookup k d) [ none ↦ [] | some xs ↦ xs ]

-- `a == b` and `a <= b` on integers
abbrev pub eq_ℤ : ℤ → ℤ → Bool
eq_ℤ (pos m) (pos n) = m == n
eq_ℤ (negsuc m) (negsuc n) = m == n
eq_ℤ _ _ = false

module _ {D : Type 0} where
  -- `events.sort(key=...)`: equal numbers keep their order.
  unfoldable pub insert_by_sequence : VoiceEvent D → List (VoiceEvent D) → List (VoiceEvent D)
  insert_by_sequence e [] = e ∷ []
  insert_by_sequence e (f ∷ fs) =
      let later = insert_by_sequence e fs in
      if ltb_ℤ f.payload.sequence e.payload.sequence then f ∷ later else e ∷ f ∷ fs

  unfoldable pub sort_by_sequence : List (VoiceEvent D) → List (VoiceEvent D)
  unfolding insert_by_sequence
  sort_by_sequence [] = []
  sort_by_sequence (e ∷ es) = insert_by_sequence e (sort_by_sequence es)

pub record VoiceEventRequest (D : Type 0) : Type 0 where
  pub event_type : String
  pub chain_id : String
  pub details : D
  pub prev_signature : String
  pub sequence : ℤ

pub record Verification : Type 0 where
  pub valid : Bool
  pub anchor_ok : Bool
  pub event_type_ok : Bool

pub data Published : Type 0 where
  verification_failed : Verification → Published
  out_of_order : (expected : ℕ) (received : ℤ) → Published
  accepted : (subscribers_notified : ℕ) → Published

module _ {D : Type 0} (sign : Payload D → String) where
  unfoldable pub build_event :
      String → String → String → D → String → ℤ → String → Attempt (VoiceEvent D)
  unfolding strip upper
  build_event event_id timestamp event_type details chain_id sequence prev_signature =
      let kind = upper (strip event_type) in
      let payload : Payload D = record {
        event_id = event_id;
        chain_id = chain_id;
        sequence = sequence;
        event_type = kind;
        details = details;
        prev_signature = prev_signature;
        timestamp = timestamp;
        anchor = ontological_anchor;
      } in
      if not (member kind voice_events)
      then raised "ValueError"
      else returned (record { payload = payload; signature = sign payload })

  abbrev pub with_chains : Dict (List (VoiceEvent D)) → Titan D → Titan D
  with_chains chains t = record {
    chains = chains;
    bus_log = t.bus_log;
    subscribers = t.subscribers;
    deployment_gates = t.deployment_gates;
    execute_gates = t.execute_gates;
    apex_audits = t.apex_audits;
  }

  -- `emit` returns the event and the engine.
  unfoldable pub emit :
      String → String → String → VoiceEventRequest D → Titan D → Attempt (VoiceEvent D × Titan D)
  unfolding build_event sort_by_sequence
  emit event_id timestamp new_chain r t = do
    let chain_id = or_else r.chain_id new_chain
    e ← build_event event_id timestamp r.event_type r.details chain_id r.sequence r.prev_signature
    let events = sort_by_sequence (list_at chain_id t.chains ++ e ∷ [])
    returned (e, with_chains (insert chain_id events t.chains) t)

  unfoldable pub verify_event : VoiceEvent D → Verification
  verify_event e = record {
    valid = str_eq (sign e.payload) e.signature;
    anchor_ok = str_eq e.payload.anchor ontological_anchor;
    event_type_ok = member e.payload.event_type voice_events;
  }

  abbrev pub is_verified : VoiceEvent D → Bool
  is_verified e = let v = verify_event e in v.valid && v.anchor_ok && v.event_type_ok

  abbrev pub with_bus : Dict (List (VoiceEvent D)) → Titan D → Titan D
  with_bus log t = record {
    chains = t.chains;
    bus_log = log;
    subscribers = t.subscribers;
    deployment_gates = t.deployment_gates;
    execute_gates = t.execute_gates;
    apex_audits = t.apex_audits;
  }

  -- `bus_log.setdefault(chain_id, [])`, and then `append` where the event is next.
  unfoldable pub publish : VoiceEvent D → Titan D → Published × Titan D
  unfolding verify_event
  publish e t =
      let chain_id = e.payload.chain_id in
      let seen = list_at chain_id t.bus_log in
      if not (is_verified e)
      then (verification_failed (verify_event e), t)
      else if not (eq_ℤ e.payload.sequence (pos (length seen)))
      then (
        out_of_order (length seen) e.payload.sequence,
        with_bus (insert chain_id seen t.bus_log) t,
      )
      else (
        accepted (length (list_at e.payload.event_type t.subscribers)),
        with_bus (insert chain_id (seen ++ e ∷ []) t.bus_log) t,
      )

  -- `subscribe`: the event type has to be known, and a subscriber is added once.
  unfoldable pub subscribe : String → String → Titan D → Attempt (Titan D)
  unfolding strip upper
  subscribe event_type url t =
      let kind = upper (strip event_type) in
      let known = list_at kind t.subscribers in
      if not (member kind voice_events)
      then raised "ValueError"
      else returned (record {
        chains = t.chains;
        bus_log = t.bus_log;
        subscribers =
            if member url known
            then t.subscribers
            else insert kind (known ++ url ∷ []) t.subscribers;
        deployment_gates = t.deployment_gates;
        execute_gates = t.execute_gates;
        apex_audits = t.apex_audits;
      })

  -- `sequence_status`: one less than the number of events.
  unfoldable pub last_sequence : String → Titan D → ℤ
  last_sequence chain_id t = elim (length (list_at chain_id t.bus_log)) [
    | zero ↦ negsuc 0
    | suc n ↦ pos n
  ]
