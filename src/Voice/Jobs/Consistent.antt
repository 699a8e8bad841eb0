-- ===== src/Voice/Jobs/Consistent.antt =====
-- What holds of a job of sara_unified/voice/jobs.py while it runs, whenever it is stopped.
use mathlib.Core.List.{append_assoc, map-append}
use sara_omega.Prelude.{
  ℕ, String, ◌≡◌, refl, ap, ◌∙◌, ◌⊎◌, inl, inr, true, false, List, [], ◌∷◌, ◌++◌, map, is_empty,
  Bool-cases, arith,
}
use sara_omega.Prelude.Attempt.{Attempt, returned, raised}
use sara_omega.Voice.Segments.{VoiceSegment}
use sara_omega.Voice.Controls.{SynthesisControls}
use sara_omega.Voice.Pronunciation.{PronunciationDictionary, PronunciationResult, apply}
use sara_omega.Voice.Receipts.{AudioReceipt, Digests, Origin, build_audio_receipt}
use sara_omega.Voice.Jobs.{
  VoiceJobStatus, pending, running, completed, stopped, failed, VoiceJob, Reply, Place, entering,
  visiting, speaking, leaving, left, thrown, Run, is_set, is_active, is_running, stop, settle,
  pronounced, visit, add_receipt, hear_audio, advance_at,
}
use sara_omega.Voice.Jobs.Steps.{Step, moves, stops, Reach, here, next}

-- The segments that have no receipt yet.
abbrev pub unspoken : Place → List VoiceSegment → List VoiceSegment
unspoken entering segments = segments
unspoken (visiting rest) segments = rest
unspoken (speaking segment transformed rest) segments = segment ∷ rest
unspoken (leaving rest) segments = rest
unspoken (left rest) segments = rest
unspoken (thrown e rest) segments = rest

abbrev pub spoken_ids : VoiceJob → List ℕ
spoken_ids job = map (λ (r : AudioReceipt). r.segment_id) job.receipts

abbrev pub ids : List VoiceSegment → List ℕ
ids = map (λ (s : VoiceSegment). s.index)

abbrev IsHeld : VoiceJob → Type 0
IsHeld job = (job.status ≡ stopped) × (is_set job.stop_requested_at ≡ true)

abbrev IsOpen : VoiceJob → Type 0
IsOpen job = (job.status ≡ running) × (is_set job.stop_requested_at ≡ false)

-- The status, and whether a stop was requested, at each place.
abbrev pub Agrees : Place → VoiceJob → Type 0
Agrees entering job =
    (is_empty job.segments ≡ false)
    × (((job.status ≡ pending) × (is_set job.stop_requested_at ≡ false)) ⊎ IsHeld job)
Agrees (visiting rest) job =
    IsOpen job ⊎ IsHeld job ⊎ ((job.status ≡ running) × (is_empty rest ≡ false))
Agrees (speaking segment transformed rest) job = IsOpen job ⊎ IsHeld job
Agrees (leaving rest) job = (IsOpen job × (rest ≡ [])) ⊎ IsHeld job
Agrees (left rest) job =
    ((job.status ≡ completed) × (rest ≡ [])) ⊎ IsHeld job ⊎ (job.status ≡ failed)
Agrees (thrown e rest) job = IsOpen job ⊎ IsHeld job

-- The receipts are those of the segments in their order, up to the ones that were not spoken, and
-- the status agrees with the place.
pub record IsConsistent (r : Run) : Type 0 where
  pub in_order : spoken_ids r.job ++ ids (unspoken r.place r.job.segments) ≡ ids r.job.segments
  pub agrees : Agrees r.place r.job

-- A stopped job stays so, and one that runs or waits becomes so.
Held-stop : (now : ℕ) (job : VoiceJob) → IsHeld job → IsHeld (stop now job)
unfolding stop is_active
Held-stop now job h = ground arith

running-stop : (now : ℕ) (job : VoiceJob) → job.status ≡ running → IsHeld (stop now job)
unfolding stop is_active
running-stop now job h = ground arith

pending-stop : (now : ℕ) (job : VoiceJob) → job.status ≡ pending → IsHeld (stop now job)
unfolding stop is_active
pending-stop now job h = ground arith

over-stop :
    (now : ℕ) (job : VoiceJob) (s : VoiceJobStatus)
    → is_active s ≡ false
    → job.status ≡ s
    → (stop now job).status ≡ s
unfolding stop
over-stop now job s a h = ground arith

stop-Agrees : (now : ℕ) (p : Place) (job : VoiceJob) → Agrees p job → Agrees p (stop now job)
unfolding stop
stop-Agrees now entering job (given, h) = (
  given,
  elim h [ inl (a, b) ↦ inr (pending-stop now job a) | inr held ↦ inr (Held-stop now job held) ],
)
stop-Agrees now (visiting rest) job (inl o) = inr (inl (running-stop now job o.0))
stop-Agrees now (visiting rest) job (inr (inl held)) = inr (inl (Held-stop now job held))
stop-Agrees now (visiting rest) job (inr (inr h)) = inr (inl (running-stop now job h.0))
stop-Agrees now (speaking s t rest) job (inl o) = inr (running-stop now job o.0)
stop-Agrees now (speaking s t rest) job (inr held) = inr (Held-stop now job held)
stop-Agrees now (leaving rest) job (inl h) = inr (running-stop now job h.0.0)
stop-Agrees now (leaving rest) job (inr held) = inr (Held-stop now job held)
stop-Agrees now (left rest) job (inl h) = inl (over-stop now job completed refl h.0, h.1)
stop-Agrees now (left rest) job (inr (inl held)) = inr (inl (Held-stop now job held))
stop-Agrees now (left rest) job (inr (inr h)) = inr (inr (over-stop now job failed refl h))
stop-Agrees now (thrown e rest) job (inl o) = inr (running-stop now job o.0)
stop-Agrees now (thrown e rest) job (inr held) = inr (Held-stop now job held)

settle-Agrees :
    (now : ℕ) (rest : List VoiceSegment) (job : VoiceJob)
    → Agrees (leaving rest) job
    → Agrees (left rest) (settle now job)
unfolding settle is_running
settle-Agrees now rest job (inl h) = inl (ground arith, h.1)
settle-Agrees now rest job (inr held) = inr (inl (ground arith))

enter-Agrees :
    (job : VoiceJob)
    → Agrees entering job
    → Agrees (visiting job.segments) (record job { status = running })
enter-Agrees job (given, inl h) = inl (refl, h.1)
enter-Agrees job (given, inr held) = inr (inr (refl, given))

over-Agrees : (job : VoiceJob) → Agrees (visiting []) job → Agrees (leaving []) job
over-Agrees job (inl o) = inl (o, refl)
over-Agrees job (inr (inl held)) = inr held
over-Agrees job (inr (inr h)) = cc

-- A visit that finds no stop finds the job running.
not_set-running :
    (rest : List VoiceSegment) (job : VoiceJob)
    → Agrees (visiting rest) job
    → is_set job.stop_requested_at ≡ false
    → job.status ≡ running
not_set-running rest job (inl o) e = o.0
not_set-running rest job (inr (inl held)) e = cc
not_set-running rest job (inr (inr h)) e = h.0

module _ (digests : Digests) (origin : Origin) (dictionary : PronunciationDictionary) where
  pronounced-IsConsistent :
      (segment : VoiceSegment) (rest : List VoiceSegment) (job : VoiceJob)
      (a : Attempt PronunciationResult)
      → spoken_ids job ++ ids (segment ∷ rest) ≡ ids job.segments
      → IsOpen job
      → IsConsistent (pronounced digests origin dictionary segment rest job a)
  unfolding pronounced
  pronounced-IsConsistent segment rest job (returned r) c o = record {
    in_order = c;
    agrees = inl o;
  }
  pronounced-IsConsistent segment rest job (raised e) c o = record { in_order = c; agrees = inl o }

  visit-IsConsistent :
      (segment : VoiceSegment) (rest : List VoiceSegment) (job : VoiceJob)
      → IsConsistent (record { place = visiting (segment ∷ rest); job = job })
      → IsConsistent (visit digests origin dictionary segment rest job)
  unfolding visit
  visit-IsConsistent segment rest job c =
      let halted : Run = record {
        place = leaving (segment ∷ rest);
        job = record job { status = stopped };
      } in
      elim (Bool-cases (is_set job.stop_requested_at)) [
        | inl e ↦
            let known : IsConsistent halted = record {
              in_order = c.in_order;
              agrees = inr (refl, e);
            } in
            rw e known
        | inr e ↦
            let o : IsOpen job = (not_set-running (segment ∷ rest) job c.agrees e, e) in
            rw e (
              pronounced-IsConsistent segment rest job
                (apply digests.dictionary_digest dictionary segment.text) c.in_order o)
      ]

  module _ (speech_rate : String) (controls : SynthesisControls) (return_audio : String) where
    spoken_ids-add_receipt :
        (segment : VoiceSegment) (t audio : String) (reply : Reply) (job : VoiceJob)
        → spoken_ids (
            add_receipt digests origin dictionary speech_rate controls return_audio segment t audio
              reply job)
          ≡ spoken_ids job ++ segment.index ∷ []
    unfolding add_receipt build_audio_receipt
    spoken_ids-add_receipt segment t audio reply job =
        map-append (λ (r : AudioReceipt). r.segment_id) job.receipts _

    hear_audio-IsConsistent :
        (segment : VoiceSegment) (t : String) (rest : List VoiceSegment) (reply : Reply)
        (job : VoiceJob) (a : Attempt String)
        → IsConsistent (record { place = speaking segment t rest; job = job })
        → IsConsistent (
            hear_audio digests origin dictionary speech_rate controls return_audio segment t rest
              reply job a)
    unfolding hear_audio add_receipt
    hear_audio-IsConsistent segment t rest reply job (returned audio) c = record {
      in_order =
          ap (λ (l : List ℕ). l ++ ids rest) (spoken_ids-add_receipt segment t audio reply job)
          ∙ append_assoc (spoken_ids job) (segment.index ∷ []) (ids rest)
          ∙ c.in_order;
      agrees = elim c.agrees [ inl o ↦ inl o | inr held ↦ inr (inl held) ];
    }
    hear_audio-IsConsistent segment t rest reply job (raised e) c = record {
      in_order = c.in_order;
      agrees = inr (inr refl);
    }

    abbrev next_of : Reply → ℕ → Place → VoiceJob → Run
    next_of = advance_at digests origin dictionary speech_rate controls return_audio

    advance_at-IsConsistent :
        (reply : Reply) (now : ℕ) (p : Place) (job : VoiceJob)
        → IsConsistent (record { place = p; job = job })
        → IsConsistent (next_of reply now p job)
    unfolding advance_at
    advance_at-IsConsistent reply now entering job c = record {
      in_order = c.in_order;
      agrees = enter-Agrees job c.agrees;
    }
    advance_at-IsConsistent reply now (visiting []) job c = record {
      in_order = c.in_order;
      agrees = over-Agrees job c.agrees;
    }
    advance_at-IsConsistent reply now (visiting (segment ∷ rest)) job c =
        visit-IsConsistent segment rest job c
    advance_at-IsConsistent reply now (speaking segment t rest) job c =
        hear_audio-IsConsistent segment t rest reply job reply.audio c
    advance_at-IsConsistent reply now (leaving rest) job c = record {
      in_order = c.in_order;
      agrees = settle-Agrees now rest job c.agrees;
    }
    advance_at-IsConsistent reply now (left rest) job c = c
    advance_at-IsConsistent reply now (thrown e rest) job c = c

    pub Step-IsConsistent :
        {r u : Run}
        → Step digests origin dictionary speech_rate controls return_audio r u
        → IsConsistent r
        → IsConsistent u
    unfolding stop
    Step-IsConsistent {r} (moves reply now) c = advance_at-IsConsistent reply now r.place r.job c
    Step-IsConsistent {r} (stops now) c = record {
      in_order = c.in_order;
      agrees = stop-Agrees now r.place r.job c.agrees;
    }

    -- A consistent job stays consistent, whatever the client answers and whenever it is stopped.
    pub Reach-IsConsistent :
        {r u : Run}
        → Reach digests origin dictionary speech_rate controls return_audio r u
        → IsConsistent r
        → IsConsistent u
    Reach-IsConsistent here c = c
    Reach-IsConsistent (next reached step) c = Step-IsConsistent step (Reach-IsConsistent reached c)
