-- ===== src/Voice/Jobs/Started.antt =====
-- A job that `start_job` of sara_unified/voice/jobs.py made is consistent, and stays so.
use sara_omega.Prelude.{ℕ, String, ◌≡◌, refl, inl, Bool}
use mathlib.Core.Path.{subst}
use sara_omega.Prelude.Attempt.{returned, returned-inj, bind_inv}
use sara_omega.Voice.Segments.{VoiceSegment, split_sentences}
use sara_omega.Voice.Segments.Joined.{split_sentences-is_empty}
use sara_omega.Voice.Controls.{SynthesisControls, speech_controls_for}
use sara_omega.Voice.Pronunciation.{PronunciationDictionary}
use sara_omega.Voice.Receipts.{Digests, Origin}
use sara_omega.Voice.Jobs.{VoiceJob, Reply, entering, Run}
use sara_omega.Voice.Jobs.Runs.{new_job, start_checked}
use sara_omega.Voice.Jobs.Steps.{Reach}
use sara_omega.Voice.Jobs.Consistent.{IsConsistent, Reach-IsConsistent}

abbrev pub enters : VoiceJob → Run
enters job = record { place = entering; job = job }

module _ (digests : Digests) (synthesize : VoiceSegment → String → Reply)
    (speech_rate return_audio : String) where
  start_checked-IsConsistent :
      (now : ℕ) (job_id text : String) (preserve_transcript : Bool) (job : VoiceJob)
      → start_checked digests synthesize speech_rate return_audio now job_id text
          preserve_transcript
        ≡ returned job
      → IsConsistent (enters job)
  unfolding start_checked new_job
  start_checked-IsConsistent now job_id text preserve job h =
      let (controls, _, h2) = bind_inv (speech_controls_for speech_rate) _ job h in
      let (segments, split, h3) = bind_inv (split_sentences digests.sha256 64 600 text) _ job h2 in
      let new =
        new_job digests synthesize speech_rate return_audio now job_id text preserve segments in
      let first : IsConsistent (enters new) = record {
        in_order = refl;
        agrees =
            (split_sentences-is_empty digests.sha256 64 600 text segments split, inl (refl, refl));
      } in
      subst (λ j. IsConsistent (enters j)) (returned-inj h3) first

  -- While a job that was started runs, its receipts are those of its segments in their order, up to
  -- the ones that were not spoken, and its status agrees with where it is: whatever the client
  -- answers, and whenever the job is stopped.
  pub started-IsConsistent :
      (origin : Origin) (dictionary : PronunciationDictionary) (controls : SynthesisControls)
      (now : ℕ) (job_id text : String) (preserve_transcript : Bool) (job : VoiceJob) {u : Run}
      → start_checked digests synthesize speech_rate return_audio now job_id text
          preserve_transcript
        ≡ returned job
      → Reach digests origin dictionary speech_rate controls return_audio (enters job) u
      → IsConsistent u
  started-IsConsistent origin dictionary controls now job_id text preserve job h reached =
      Reach-IsConsistent digests origin dictionary speech_rate controls return_audio reached
        (start_checked-IsConsistent now job_id text preserve job h)
