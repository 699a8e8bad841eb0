-- ===== src/Voice/Jobs/Unstopped.antt =====
-- The loop of `run_job` of sara_unified/voice/jobs.py, where no stop comes between.
use mathlib.Core.List.{append-nil}
use sara_omega.Prelude.{
  ℕ, String, ◌≡◌, sym, ap, ◌∙◌, ◌⊎◌, inl, inr, false, List, [], ◌∷◌, ◌++◌, arith,
}
use sara_omega.Prelude.Attempt.{Attempt, returned, raised}
use sara_omega.Voice.Segments.{VoiceSegment}
use sara_omega.Voice.Controls.{SynthesisControls}
use sara_omega.Voice.Pronunciation.{PronunciationDictionary, PronunciationResult, apply}
use sara_omega.Voice.Receipts.{Digests, Origin}
use sara_omega.Voice.Jobs.{
  running, completed, failed, VoiceJob, Reply, Place, entering, visiting, speaking, leaving, left,
  thrown, Run, is_set, is_running, settle, pronounced, visit, hear, hear_audio, add_receipt,
}
use sara_omega.Voice.Jobs.Runs.{answer, go_on, run_segments}
use sara_omega.Voice.Jobs.Consistent.{IsConsistent, spoken_ids, ids}

-- No stop was requested, and the segments are the same.
pub record IsKept (segments : List VoiceSegment) (job : VoiceJob) : Type 0 where
  pub unstopped : is_set job.stop_requested_at ≡ false
  pub same : job.segments ≡ segments

-- A job that is over: completed with a receipt for each of the segments, in their order, or failed.
pub record IsSpoken (segments : List VoiceSegment) (job : VoiceJob) : Type 0 where
  pub same : job.segments ≡ segments
  pub over : ((job.status ≡ completed) × (spoken_ids job ≡ ids segments)) ⊎ (job.status ≡ failed)

module _ (digests : Digests) (synthesize : VoiceSegment → String → Reply)
    (speech_rate return_audio : String) where
  module _ (origin : Origin) (dictionary : PronunciationDictionary)
      (controls : SynthesisControls) where
    module _ (segments : List VoiceSegment) where
      pronounced-IsKept :
          (segment : VoiceSegment) (rest : List VoiceSegment) (job : VoiceJob)
          (a : Attempt PronunciationResult)
          → IsKept segments job
          → IsKept segments (pronounced digests origin dictionary segment rest job a).job
      unfolding pronounced
      pronounced-IsKept segment rest job (returned r) k = k
      pronounced-IsKept segment rest job (raised e) k = k

      visit-IsKept :
          (segment : VoiceSegment) (rest : List VoiceSegment) (job : VoiceJob)
          → IsKept segments job
          → IsKept segments (visit digests origin dictionary segment rest job).job
      unfolding visit
      visit-IsKept segment rest job k =
          let p =
            pronounced-IsKept segment rest job
              (apply digests.dictionary_digest dictionary segment.text) k in
          rw k.unstopped p

      hear_audio-IsKept :
          (segment : VoiceSegment) (t : String) (rest : List VoiceSegment) (reply : Reply)
          (job : VoiceJob) (a : Attempt String)
          → IsKept segments job
          → IsKept segments
              (hear_audio digests origin dictionary speech_rate controls return_audio segment t rest
                reply job a).job
      unfolding hear_audio add_receipt
      hear_audio-IsKept segment t rest reply job (returned audio) k = record {
        unstopped = k.unstopped;
        same = k.same;
      }
      hear_audio-IsKept segment t rest reply job (raised e) k = record {
        unstopped = k.unstopped;
        same = k.same;
      }

      answer-IsKept :
          (p : Place) (job : VoiceJob)
          → IsKept segments job
          → IsKept segments
              (answer digests synthesize speech_rate return_audio origin dictionary controls p
                job).job
      unfolding answer hear
      answer-IsKept (speaking segment t rest) job k =
          hear_audio-IsKept segment t rest (synthesize segment t) job (synthesize segment t).audio k
      answer-IsKept entering job k = k
      answer-IsKept (visiting rest) job k = k
      answer-IsKept (leaving rest) job k = k
      answer-IsKept (left rest) job k = k
      answer-IsKept (thrown e rest) job k = k

      go_on-IsKept :
          (f : VoiceJob → Run) (p : Place) (job : VoiceJob)
          → ((j : VoiceJob) → IsKept segments j → IsKept segments (f j).job)
          → IsKept segments job
          → IsKept segments
              (go_on digests synthesize speech_rate return_audio origin dictionary controls f p
                job).job
      unfolding go_on
      go_on-IsKept f (visiting rest) job h k = h job k
      go_on-IsKept f entering job h k = k
      go_on-IsKept f (speaking segment t rest) job h k = k
      go_on-IsKept f (leaving rest) job h k = k
      go_on-IsKept f (left rest) job h k = k
      go_on-IsKept f (thrown e rest) job h k = k

      pub run_segments-IsKept :
          (later : List VoiceSegment) (job : VoiceJob)
          → IsKept segments job
          → IsKept segments
              (run_segments digests synthesize speech_rate return_audio origin dictionary controls
                later job).job
      unfolding run_segments
      run_segments-IsKept [] job k = k
      run_segments-IsKept (segment ∷ rest) job k =
          let seen = visit digests origin dictionary segment rest job in
          let heard =
            answer digests synthesize speech_rate return_audio origin dictionary controls seen.place
              seen.job in
          go_on-IsKept
            (run_segments digests synthesize speech_rate return_audio origin dictionary controls
              rest)
            heard.place heard.job (run_segments-IsKept rest)
            (answer-IsKept seen.place seen.job (visit-IsKept segment rest job k))

      settle-IsSpoken :
          (now : ℕ) (job : VoiceJob)
          → IsKept segments job
          → job.status ≡ running
          → spoken_ids job ++ [] ≡ ids job.segments
          → IsSpoken segments (settle now job)
      unfolding settle is_running
      settle-IsSpoken now job k r c = record {
        same = k.same;
        over = inl (ground arith, sym (append-nil (spoken_ids job)) ∙ c ∙ ap ids k.same);
      }

      pub left-IsSpoken :
          (rest : List VoiceSegment) (job : VoiceJob)
          → IsKept segments job
          → IsConsistent (record { place = left rest; job = job })
          → IsSpoken segments job
      left-IsSpoken rest job k c = record {
        same = k.same;
        over = elim c.agrees [
          | inl h ↦ inl (
            h.0,
            sym (append-nil (spoken_ids job))
                ∙ ap (λ l. spoken_ids job ++ ids l) (sym h.1)
                ∙ c.in_order
                ∙ ap ids k.same,
          )
          | inr (inl held) ↦ cc
          | inr (inr h) ↦ inr h
        ];
      }

      pub leaving-IsSpoken :
          (now : ℕ) (rest : List VoiceSegment) (job : VoiceJob)
          → IsKept segments job
          → IsConsistent (record { place = leaving rest; job = job })
          → IsSpoken segments (settle now job)
      leaving-IsSpoken now rest job k c = elim c.agrees [
        | inl h ↦
            settle-IsSpoken now job k h.0.0
              (ap (λ l. spoken_ids job ++ ids l) (sym h.1) ∙ c.in_order)
        | inr held ↦ cc
      ]
