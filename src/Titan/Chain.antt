-- ===== src/Titan/Chain.antt =====
-- `audit_events` of app/titan.py.
use sara_omega.Prelude.{
  ℕ, ◌+◌, String, ◌≡◌, refl, ◌↔◌, Bool, true, List, [], ◌∷◌, ◌++◌, map, length, member, is_empty,
  str_eq, eq_iff, if◌then◌else◌, arith, Every,
}
use sara_omega.Prelude.Int.{ℤ, pos, negsuc}
use sara_omega.Titan.{
  Payload, VoiceEvent, Violation, signature_invalid, anchor_mismatch, chain_broken,
  expected_sequence, missing_required, Audit, ontological_anchor, required_sequence,
  sort_by_sequence, verify_event, eq_ℤ,
}

-- `if not test: violations.append(v)`, in front of what follows.
abbrev pub unless : Bool → Violation → List Violation → List Violation
unless test v later = if test then later else v ∷ later

pub eq_ℤ_iff : (a b : ℤ) → (eq_ℤ a b ≡ true) ↔ (a ≡ b)
eq_ℤ_iff (pos m) (pos n) = (λ h. ground arith, λ h. ground arith)
eq_ℤ_iff (pos m) (negsuc n) = (λ h. cc, λ h. cc)
eq_ℤ_iff (negsuc m) (pos n) = (λ h. cc, λ h. cc)
eq_ℤ_iff (negsuc m) (negsuc n) = (λ h. ground arith, λ h. ground arith)

module _ {D : Type 0} (sign : Payload D → String) where
  -- The loop of `audit_events`, from an index and the signature that an event has to name.
  unfoldable pub audit_from : ℕ → String → List (VoiceEvent D) → List Violation
  unfolding verify_event
  audit_from index prev_sig [] = []
  audit_from index prev_sig (e ∷ es) =
      let later = audit_from (index + 1) e.signature es in
      let n = e.payload.sequence in
      let v = verify_event sign e in
      unless v.valid (signature_invalid n) (
        unless v.anchor_ok (anchor_mismatch n) (
          unless (str_eq e.payload.prev_signature prev_sig) (chain_broken n)
            (unless (eq_ℤ n (pos index)) (expected_sequence index n) later)))

  abbrev pub event_type_of : VoiceEvent D → String
  event_type_of e = e.payload.event_type

  -- The required events that are not in the chain.
  unfoldable pub missing : List String → List String → List Violation
  missing seen [] = []
  missing seen (r ∷ rs) = unless (member r seen) (missing_required r) (missing seen rs)

  unfoldable pub audit_events : List (VoiceEvent D) → Audit
  unfolding audit_from missing sort_by_sequence
  audit_events events =
      let ordered = sort_by_sequence events in
      let seen = map event_type_of ordered in
      let violations = audit_from 0 "" ordered ++ missing seen required_sequence in
      record {
        event_count = length ordered;
        event_types = seen;
        violations = violations;
        chain_valid = is_empty violations;
      }

  -- The events are signed and anchored, numbered from `index`, and each names the signature of the
  -- one before it.
  abbrev pub Chained : ℕ → String → List (VoiceEvent D) → Type 0
  Chained index prev_sig [] = Unit
  Chained index prev_sig (e ∷ es) =
      (sign e.payload ≡ e.signature)
      × (e.payload.anchor ≡ ontological_anchor)
      × (e.payload.prev_signature ≡ prev_sig)
      × (e.payload.sequence ≡ pos index)
      × Chained (index + 1) e.signature es

  unless_iff :
      (test : Bool) (v : Violation) (later : List Violation)
      → (is_empty (unless test v later) ≡ true) ↔ ((test ≡ true) × (is_empty later ≡ true))
  unless_iff test v later = (λ h. ground arith, λ h. ground arith)

  guarded_iff :
      (a b c d : Bool) (u v w x : Violation) (later : List Violation)
      → (is_empty (unless a u (unless b v (unless c w (unless d x later)))) ≡ true)
        ↔ ((a ≡ true) × (b ≡ true) × (c ≡ true) × (d ≡ true) × (is_empty later ≡ true))
  guarded_iff a b c d u v w x later = (λ h. ground arith, λ h. ground arith)

  audit_from_iff :
      (es : List (VoiceEvent D)) (index : ℕ) (prev_sig : String)
      → (is_empty (audit_from index prev_sig es) ≡ true) ↔ Chained index prev_sig es
  unfolding audit_from verify_event
  audit_from_iff [] index prev_sig = (λ h. tt, λ h. refl)
  audit_from_iff (e ∷ es) index prev_sig =
      let signed = eq_iff (sign e.payload) e.signature in
      let anchored = eq_iff e.payload.anchor ontological_anchor in
      let named = eq_iff e.payload.prev_signature prev_sig in
      let numbered = eq_ℤ_iff e.payload.sequence (pos index) in
      let later = audit_from_iff es (index + 1) e.signature in
      let guards = guarded_iff _ _ _ _ _ _ _ _ _ in
      (
        λ h.
            let g = guards.0 h in
            (signed.0 g.0, anchored.0 g.1, named.0 g.2, numbered.0 g.3, later.0 g.4),
        λ h. guards.1 (signed.1 h.0, anchored.1 h.1, named.1 h.2, numbered.1 h.3, later.1 h.4),
      )

  missing_iff :
      (seen required : List String)
      → (is_empty (missing seen required) ≡ true) ↔ Every (λ r. member r seen ≡ true) required
  unfolding missing
  missing_iff seen [] = (λ h. tt, λ h. refl)
  missing_iff seen (r ∷ rs) = (
    λ h. (ground arith, (missing_iff seen rs).0 (ground arith)),
    λ h. ground (arith, (missing_iff seen rs).1 h.1),
  )

  is_empty-append :
      (xs ys : List Violation)
      → (is_empty (xs ++ ys) ≡ true) ↔ ((is_empty xs ≡ true) × (is_empty ys ≡ true))
  is_empty-append [] ys = (λ h. (refl, h), λ h. h.1)
  is_empty-append (x ∷ xs) ys = (λ h. cc, λ h. cc)

  -- A chain is valid exactly when its events, in the order of their numbers, are signed, anchored,
  -- numbered from 0 without a gap and linked by their signatures, and every required event type
  -- is among them.
  pub audit_events-valid_iff :
      (events : List (VoiceEvent D))
      → ((audit_events events).chain_valid ≡ true) ↔ (
          Chained 0 "" (sort_by_sequence events)
          × Every
              (λ r. member r (map event_type_of (sort_by_sequence events)) ≡ true)
              required_sequence)
  unfolding audit_events
  audit_events-valid_iff events =
      let ordered = sort_by_sequence events in
      let both =
        is_empty-append (audit_from 0 "" ordered)
          (missing (map event_type_of ordered) required_sequence) in
      let chain = audit_from_iff ordered 0 "" in
      let types = missing_iff (map event_type_of ordered) required_sequence in
      (λ h. let b = both.0 h in (chain.0 b.0, types.0 b.1), λ h. both.1 (chain.1 h.0, types.1 h.1))
