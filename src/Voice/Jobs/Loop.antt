-- ===== src/Voice/Jobs/Loop.antt =====
-- The loop of `run_job` of sara_unified/voice/jobs.py takes the steps of Voice/Jobs/Steps.
use sara_omega.Prelude.{String, ◌≡◌, refl, sym, inl, inr, List, [], ◌∷◌, Bool-cases}
use mathlib.Core.Path.{subst}
use sara_omega.Prelude.Attempt.{Attempt, returned, raised}
use sara_omega.Voice.Segments.{VoiceSegment}
use sara_omega.Voice.Controls.{SynthesisControls}
use sara_omega.Voice.Pronunciation.{PronunciationDictionary, PronunciationResult, apply}
use sara_omega.Voice.Receipts.{Digests, Origin}
use sara_omega.Voice.Jobs.{
  VoiceJob, Reply, Place, entering, visiting, speaking, leaving, left, thrown, Run, is_set,
  pronounced, visit, hear, hear_audio, advance_at,
}
use sara_omega.Voice.Jobs.Runs.{answer, go_on, run_segments}
use sara_omega.Voice.Jobs.Steps.{moves, Reach, here, next}

-- The loop waits for the audio of a segment before `rest`, or is over.
abbrev Waits : List VoiceSegment → Place → Type 0
Waits rest entering = ⊥
Waits rest (visiting later) = ⊥
Waits rest (speaking segment transformed later) = later ≡ rest
Waits rest (leaving later) = Unit
Waits rest (left later) = Unit
Waits rest (thrown e later) = Unit

-- The loop goes on with `rest`, or is over.
abbrev GoesOn : List VoiceSegment → Place → Type 0
GoesOn rest entering = ⊥
GoesOn rest (visiting later) = later ≡ rest
GoesOn rest (speaking segment transformed later) = ⊥
GoesOn rest (leaving later) = Unit
GoesOn rest (left later) = Unit
GoesOn rest (thrown e later) = Unit

abbrev pub IsOver : Place → Type 0
IsOver entering = ⊥
IsOver (visiting later) = ⊥
IsOver (speaking segment transformed later) = ⊥
IsOver (leaving later) = Unit
IsOver (left later) = Unit
IsOver (thrown e later) = Unit

module _ (digests : Digests) (synthesize : VoiceSegment → String → Reply)
    (speech_rate return_audio : String) (origin : Origin) (dictionary : PronunciationDictionary)
    (controls : SynthesisControls) where
  abbrev pub loop : List VoiceSegment → VoiceJob → Run
  loop = run_segments digests synthesize speech_rate return_audio origin dictionary controls

  abbrev answered : Place → VoiceJob → Run
  answered = answer digests synthesize speech_rate return_audio origin dictionary controls

  abbrev following : (VoiceJob → Run) → Place → VoiceJob → Run
  following = go_on digests synthesize speech_rate return_audio origin dictionary controls

  abbrev pub Reaches : Run → Run → Type 0
  Reaches = Reach digests origin dictionary speech_rate controls return_audio

  Reach-trans : {r u v : Run} → Reaches r u → Reaches u v → Reaches r v
  Reach-trans a here = a
  Reach-trans a (next b step) = next (Reach-trans a b) step

  pronounced-Waits :
      (segment : VoiceSegment) (rest : List VoiceSegment) (job : VoiceJob)
      (a : Attempt PronunciationResult)
      → Waits rest (pronounced digests origin dictionary segment rest job a).place
  unfolding pronounced
  pronounced-Waits segment rest job (returned r) = refl
  pronounced-Waits segment rest job (raised e) = tt

  visit-Waits :
      (segment : VoiceSegment) (rest : List VoiceSegment) (job : VoiceJob)
      → Waits rest (visit digests origin dictionary segment rest job).place
  unfolding visit
  visit-Waits segment rest job =
      let p =
        pronounced-Waits segment rest job
          (apply digests.dictionary_digest dictionary segment.text) in
      elim (Bool-cases (is_set job.stop_requested_at)) [ inl e ↦ rw e tt | inr e ↦ rw e p ]

  hear_audio-GoesOn :
      (segment : VoiceSegment) (t : String) (rest : List VoiceSegment) (reply : Reply)
      (job : VoiceJob) (a : Attempt String)
      → GoesOn rest
          (hear_audio digests origin dictionary speech_rate controls return_audio segment t rest
            reply job a).place
  unfolding hear_audio
  hear_audio-GoesOn segment t rest reply job (returned audio) = refl
  hear_audio-GoesOn segment t rest reply job (raised e) = tt

  answer-GoesOn :
      (rest : List VoiceSegment) (p : Place) (job : VoiceJob)
      → Waits rest p
      → GoesOn rest (answered p job).place
  unfolding answer hear
  answer-GoesOn rest (speaking segment t later) job h =
      subst (λ l. GoesOn l (answered (speaking segment t later) job).place) h
        (hear_audio-GoesOn segment t later (synthesize segment t) job (synthesize segment t).audio)
  answer-GoesOn rest (leaving later) job h = tt
  answer-GoesOn rest (left later) job h = tt
  answer-GoesOn rest (thrown e later) job h = tt
  answer-GoesOn rest entering job h = absurd h
  answer-GoesOn rest (visiting later) job h = absurd h

  answer-Reach :
      (p : Place) (job : VoiceJob) → Reaches (record { place = p; job = job }) (answered p job)
  unfolding answer advance_at
  answer-Reach (speaking segment t rest) job = next here (moves (synthesize segment t) 0)
  answer-Reach entering job = here
  answer-Reach (visiting rest) job = here
  answer-Reach (leaving rest) job = here
  answer-Reach (left rest) job = here
  answer-Reach (thrown e rest) job = here

  visit-Reach :
      (segment : VoiceSegment) (rest : List VoiceSegment) (job : VoiceJob)
      → Reaches
          (record { place = visiting (segment ∷ rest); job = job })
          (visit digests origin dictionary segment rest job)
  unfolding advance_at
  visit-Reach segment rest job = next here (moves (synthesize segment "") 0)

  go_on-Reach :
      (f : VoiceJob → Run) (rest : List VoiceSegment) (p : Place) (job : VoiceJob)
      → ((j : VoiceJob) → Reaches (record { place = visiting rest; job = j }) (f j))
      → GoesOn rest p
      → Reaches (record { place = p; job = job }) (following f p job)
  unfolding go_on
  go_on-Reach f rest (visiting later) job k h =
      subst (λ l. Reaches (record { place = visiting l; job = job }) (f job)) (sym h) (k job)
  go_on-Reach f rest (leaving later) job k h = here
  go_on-Reach f rest (left later) job k h = here
  go_on-Reach f rest (thrown e later) job k h = here
  go_on-Reach f rest entering job k h = absurd h
  go_on-Reach f rest (speaking segment t later) job k h = absurd h

  -- What the loop does is steps of Voice/Jobs/Steps.
  pub run_segments-Reach :
      (segments : List VoiceSegment) (job : VoiceJob)
      → Reaches (record { place = visiting segments; job = job }) (loop segments job)
  unfolding run_segments advance_at
  run_segments-Reach [] job =
      next here (moves (record { audio = raised ""; duration_ms = 0; now = 0 }) 0)
  run_segments-Reach (segment ∷ rest) job =
      let seen = visit digests origin dictionary segment rest job in
      let heard = answered seen.place seen.job in
      let goes = answer-GoesOn rest seen.place seen.job (visit-Waits segment rest job) in
      Reach-trans (visit-Reach segment rest job) (
        Reach-trans (answer-Reach seen.place seen.job)
          (go_on-Reach (loop rest) rest heard.place heard.job (run_segments-Reach rest) goes))

  go_on-IsOver :
      (f : VoiceJob → Run) (rest : List VoiceSegment) (p : Place) (job : VoiceJob)
      → ((j : VoiceJob) → IsOver (f j).place)
      → GoesOn rest p
      → IsOver (following f p job).place
  unfolding go_on
  go_on-IsOver f rest (visiting later) job k h = k job
  go_on-IsOver f rest (leaving later) job k h = tt
  go_on-IsOver f rest (left later) job k h = tt
  go_on-IsOver f rest (thrown e later) job k h = tt
  go_on-IsOver f rest entering job k h = absurd h
  go_on-IsOver f rest (speaking segment t later) job k h = absurd h

  pub run_segments-IsOver :
      (segments : List VoiceSegment) (job : VoiceJob) → IsOver (loop segments job).place
  unfolding run_segments
  run_segments-IsOver [] job = tt
  run_segments-IsOver (segment ∷ rest) job =
      let seen = visit digests origin dictionary segment rest job in
      let heard = answered seen.place seen.job in
      let goes = answer-GoesOn rest seen.place seen.job (visit-Waits segment rest job) in
      go_on-IsOver (loop rest) rest heard.place heard.job (run_segments-IsOver rest) goes
