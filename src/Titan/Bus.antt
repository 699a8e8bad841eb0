-- ===== src/Titan/Bus.antt =====
-- The bus of app/titan.py takes the events of a chain in the order of their numbers.
use mathlib.Core.Path.{subst}
use sara_omega.Prelude.{
  ℕ, ◌+◌, String, ◌≡◌, refl, ◌↔◌, true, List, [], ◌∷◌, ◌++◌, length, member, str_eq, eq_iff,
  if◌then◌else◌, arith, Bool-cases, inl, inr,
}
use sara_omega.Prelude.Dict.{Dict, insert, lookup-insert}
use sara_omega.Prelude.Int.{pos}
use sara_omega.Prelude.Text.{or_else, strip, upper}
use sara_omega.Prelude.Attempt.{Attempt, returned, raised}
use sara_omega.Titan.{
  Payload, VoiceEvent, VoiceEventRequest, Titan, accepted, list_at, eq_ℤ, voice_events,
  verify_event, is_verified, build_event, emit, publish, with_bus,
}
use sara_omega.Titan.Chain.{eq_ℤ_iff}

str_eq_refl : (s : String) → str_eq s s ≡ true
str_eq_refl s = (eq_iff s s).1 refl

list_at-insert :
    {A : Type 0} (k j : String) (v : List A) (d : Dict (List A))
    → list_at j (insert k v d) ≡ (if str_eq k j then v else list_at j d)
list_at-insert k j v d = ground (arith, lookup-insert k j v d)

module _ {D : Type 0} (sign : Payload D → String) where
  -- The events are verified, of this chain, and numbered from `n`.
  abbrev pub Numbered : String → ℕ → List (VoiceEvent D) → Type 0
  Numbered c n [] = Unit
  Numbered c n (e ∷ es) =
      (is_verified sign e ≡ true)
      × (e.payload.chain_id ≡ c)
      × (e.payload.sequence ≡ pos n)
      × Numbered c (n + 1) es

  -- Every chain's log on the bus is numbered from 0.
  abbrev pub IsOrdered : Titan D → Type 0
  IsOrdered t = (c : String) → Numbered c 0 (list_at c t.bus_log)

  Numbered-append :
      (c : String) (n : ℕ) (es : List (VoiceEvent D)) (e : VoiceEvent D)
      → Numbered c n es
      → is_verified sign e ≡ true
      → e.payload.chain_id ≡ c
      → e.payload.sequence ≡ pos (n + length es)
      → Numbered c n (es ++ e ∷ [])
  Numbered-append c n [] e h v k s = (v, k, ground (arith, s), tt)
  Numbered-append c n (f ∷ es) e h v k s =
      (h.0, h.1, h.2, Numbered-append c (n + 1) es e h.3 v k (ground (arith, s)))

  insert-IsOrdered :
      (k : String) (v : List (VoiceEvent D)) (t : Titan D)
      → Numbered k 0 v
      → IsOrdered t
      → IsOrdered (with_bus sign (insert k v t.bus_log) t)
  insert-IsOrdered k v t h o c = elim (Bool-cases (str_eq k c)) [
    | inl e ↦ rw (list_at-insert k c v t.bus_log, e) (rw (← (eq_iff k c).0 e) h)
    | inr e ↦ rw (list_at-insert k c v t.bus_log, e) (o c)
  ]

  -- Publishing an event keeps every chain's log on the bus verified and numbered from 0 without a
  -- gap.
  pub publish-IsOrdered :
      (e : VoiceEvent D) (t : Titan D) → IsOrdered t → IsOrdered (publish sign e t).1
  unfolding publish
  publish-IsOrdered e t o =
      let c = e.payload.chain_id in
      let seen = list_at c t.bus_log in
      elim (Bool-cases (is_verified sign e)) [
        | inr v ↦ rw v o
        | inl v ↦ elim (Bool-cases (eq_ℤ e.payload.sequence (pos (length seen)))) [
          | inr s ↦ rw (v, s) (insert-IsOrdered c seen t (o c) o)
          | inl s ↦
              rw (v, s)
                (insert-IsOrdered c (seen ++ e ∷ []) t
                  (Numbered-append c 0 seen e (o c) v refl
                    (ground (arith, (eq_ℤ_iff e.payload.sequence (pos (length seen))).0 s)))
                  o)
        ]
      ]

  -- An event is accepted exactly when it is verified and its number is that of the events that
  -- the bus has of its chain.
  pub publish-accepted_iff :
      (e : VoiceEvent D) (t : Titan D)
      → ((n : ℕ) × ((publish sign e t).0 ≡ accepted n)) ↔ (
          (is_verified sign e ≡ true)
          × (e.payload.sequence ≡ pos (length (list_at e.payload.chain_id t.bus_log))))
  unfolding publish
  publish-accepted_iff e t =
      let seen = list_at e.payload.chain_id t.bus_log in
      let numbered = eq_ℤ_iff e.payload.sequence (pos (length seen)) in
      (
        λ (n, h). elim (Bool-cases (is_verified sign e)) [
          | inr v ↦ absurd (ground (arith, h, v))
          | inl v ↦ elim (Bool-cases (eq_ℤ e.payload.sequence (pos (length seen)))) [
            | inr s ↦ absurd (ground (arith, h, v, s))
            | inl s ↦ (v, numbered.0 s)
          ]
        ],
        λ h. (length (list_at e.payload.event_type t.subscribers), rw (h.0, numbered.1 h.1) refl),
      )

  -- What `emit` returns.
  record Emitted (new_chain : String) (r : VoiceEventRequest D) (t t' : Titan D) (e : VoiceEvent D)
      : Type 0 where
    verified : is_verified sign e ≡ true
    numbered : e.payload.sequence ≡ r.sequence
    of_chain : e.payload.chain_id ≡ or_else r.chain_id new_chain
    same_bus : t'.bus_log ≡ t.bus_log

  -- `Emitted`, unless the call has raised.
  unfoldable EmittedOrRaised :
      String → VoiceEventRequest D → Titan D → Attempt (VoiceEvent D × Titan D) → Type 0
  EmittedOrRaised new_chain r t (raised x) = Unit
  EmittedOrRaised new_chain r t (returned p) = Emitted new_chain r t p.1 p.0

  emit_all :
      (event_id timestamp new_chain : String) (r : VoiceEventRequest D) (t : Titan D)
      → EmittedOrRaised new_chain r t (emit sign event_id timestamp new_chain r t)
  unfolding emit build_event verify_event EmittedOrRaised
  emit_all event_id timestamp new_chain r t =
      elim (Bool-cases (member (upper (strip r.event_type)) voice_events)) [
        | inr b ↦ rw b tt
        | inl b ↦ rw b (record {
          verified = rw (str_eq_refl, b) refl;
          numbered = refl;
          of_chain = refl;
          same_bus = refl;
        })
      ]

  emit_lem :
      (event_id timestamp new_chain : String) (r : VoiceEventRequest D) (t t' : Titan D)
      (e : VoiceEvent D)
      → emit sign event_id timestamp new_chain r t ≡ returned (e, t')
      → Emitted new_chain r t t' e
  unfolding EmittedOrRaised
  emit_lem event_id timestamp new_chain r t t' e h =
      subst (EmittedOrRaised new_chain r t) h (emit_all event_id timestamp new_chain r t)

  -- An event that was emitted is accepted by the bus when its number is next.
  pub emit-publish :
      (event_id timestamp new_chain : String) (r : VoiceEventRequest D) (t t' : Titan D)
      (e : VoiceEvent D)
      → emit sign event_id timestamp new_chain r t ≡ returned (e, t')
      → r.sequence ≡ pos (length (list_at (or_else r.chain_id new_chain) t.bus_log))
      → (n : ℕ) × ((publish sign e t').0 ≡ accepted n)
  emit-publish event_id timestamp new_chain r t t' e h s =
      let made = emit_lem event_id timestamp new_chain r t t' e h in
      (publish-accepted_iff e t').1
        (made.verified, rw (made.numbered, made.of_chain, made.same_bus) s)

  -- A known event type is emitted, and only the chains change.
  pub emit_total :
      (event_id timestamp new_chain : String) (r : VoiceEventRequest D) (t : Titan D)
      → member (upper (strip r.event_type)) voice_events ≡ true
      → (e : VoiceEvent D) × (t' : Titan D) × (emit sign event_id timestamp new_chain r t
          ≡ returned (e, t'))
        × (t'.deployment_gates ≡ t.deployment_gates)
  unfolding emit build_event
  emit_total event_id timestamp new_chain r t b = rw b (_, _, refl, refl)
