-- ===== src/Voice/Jobs/Audible.antt =====
-- When `create_job` of sara_unified/voice/jobs.py completes a job.
use mathlib.Core.Path.{subst}
use sara_omega.Prelude.{
  ℕ, String, ◌≡◌, refl, sym, ap, ◌∙◌, Bool, true, false, not, ◌||◌, List, [], ◌∷◌, Every, some,
  str_eq, eq_iff, if◌then◌else◌, arith,
}
use sara_omega.Prelude.Dict.{lookup, insert, lookup-insert}
use sara_omega.Prelude.Text.{strip}
use sara_omega.Prelude.Attempt.{Attempt, returned, raised, bind-returned}
use sara_omega.Voice.Segments.{VoiceSegment, split_sentences}
use sara_omega.Voice.Controls.{SynthesisControls, speech_controls_for}
use sara_omega.Voice.Pronunciation.{PronunciationDictionary, PronunciationResult, apply}
use sara_omega.Voice.Receipts.{Digests, Origin}
use sara_omega.Voice.Jobs.{
  VoiceJob, VoiceJobManager, running, completed, Reply, leaving, Run, is_set, is_running, settle,
  pronounced, visit, hear, hear_audio, add_receipt,
}
use sara_omega.Voice.Jobs.Runs.{
  answer, go_on, run_segments, outcome, run_found, run_checked, run_job, new_job, start_checked,
  keep_job, run_started, start_job, create_job, run_with-found, run_job-found,
}

module _ (digests : Digests) (synthesize : VoiceSegment → String → Reply)
    (speech_rate return_audio : String) where
  -- The pronunciation of a segment is not too long, and the client answers with its audio.
  pub record IsAudible (dictionary : PronunciationDictionary) (s : VoiceSegment) : Type 0 where
    pub result : PronunciationResult
    pub is_short : apply digests.dictionary_digest dictionary s.text ≡ returned result
    pub audio : String
    pub is_answered : (synthesize s result.text).audio ≡ returned audio

  -- A job that is completed is what the call returns.
  pub record Completes (r : Attempt VoiceJob × VoiceJobManager) : Type 0 where
    pub found : VoiceJob
    pub is_returned : r.0 ≡ returned found
    pub is_completed : found.status ≡ completed

  module _ (origin : Origin) (dictionary : PronunciationDictionary)
      (controls : SynthesisControls) where
    abbrev loop : List VoiceSegment → VoiceJob → Run
    loop = run_segments digests synthesize speech_rate return_audio origin dictionary controls

    loop-audible :
        (s : VoiceSegment) (rest : List VoiceSegment) (job : VoiceJob) (a : IsAudible dictionary s)
        → is_set job.stop_requested_at ≡ false
        → loop (s ∷ rest) job
          ≡ loop rest (
              add_receipt digests origin dictionary speech_rate controls return_audio s
                a.result.text a.audio
                (synthesize s a.result.text)
                job)
    unfolding run_segments pronounced answer hear hear_audio go_on
    loop-audible s rest job a e =
        let seen : visit digests origin dictionary s rest job
            ≡ pronounced digests origin dictionary s rest job (returned a.result) =
          rw (visit, e, a.is_short) refl in
        let goes_on : Run → Run = λ r.
          go_on digests synthesize speech_rate return_audio origin dictionary controls (loop rest)
            r.place r.job in
        let answers : Run → Run = λ r.
          answer digests synthesize speech_rate return_audio origin dictionary controls r.place
            r.job in
        let hears : Attempt String → Run =
          hear_audio digests origin dictionary speech_rate controls return_audio s a.result.text
            rest (synthesize s a.result.text) job in
        ap (λ r. goes_on (answers r)) seen ∙ ap (λ x. goes_on (hears x)) a.is_answered

    -- The job is behind the loop, with all segments spoken.
    record IsThrough (r : Run) : Type 0 where
      place_is : r.place ≡ leaving []
      runs : r.job.status ≡ running

    loop-IsThrough :
        (segments : List VoiceSegment) (job : VoiceJob)
        → Every (IsAudible dictionary) segments
        → is_set job.stop_requested_at ≡ false
        → job.status ≡ running
        → IsThrough (loop segments job)
    unfolding run_segments add_receipt
    loop-IsThrough [] job a e r = record { place_is = refl; runs = r }
    loop-IsThrough (s ∷ rest) job (a, later) e r =
        subst IsThrough (sym (loop-audible s rest job a e)) (
          loop-IsThrough rest
            (add_receipt digests origin dictionary speech_rate controls return_audio s a.result.text
              a.audio (synthesize s a.result.text) job)
            later e r)

    record FoundCompletes (r : Attempt VoiceJob × VoiceJob) : Type 0 where
      found : VoiceJob
      is_returned : r.0 ≡ returned found
      is_completed : found.status ≡ completed

    run_found-completes :
        (end : ℕ) (job : VoiceJob)
        → Every (IsAudible dictionary) job.segments
        → is_set job.stop_requested_at ≡ false
        → FoundCompletes (
            run_found digests synthesize speech_rate return_audio origin dictionary controls end
              job)
    unfolding run_found outcome settle is_running
    run_found-completes end job a e =
        let r = loop job.segments (record job { status = running }) in
        let through = loop-IsThrough job.segments (record job { status = running }) a e refl in
        record {
          found = settle end r.job;
          is_returned =
              ap
                (λ p.
                  (outcome digests synthesize speech_rate return_audio origin dictionary controls
                    end p r.job).0)
                through.place_is;
          is_completed = rw through.runs refl;
        }

  run_job-Completes :
      (end : ℕ) (job_id : String) (m : VoiceJobManager) (job : VoiceJob)
      (controls : SynthesisControls)
      → lookup job_id m.jobs ≡ some job
      → speech_controls_for speech_rate ≡ returned controls
      → Every (IsAudible m.dictionary) job.segments
      → is_set job.stop_requested_at ≡ false
      → Completes (run_job digests synthesize speech_rate return_audio end job_id m)
  unfolding run_checked
  run_job-Completes end job_id m job controls l c a e =
      let known = run_found-completes m.origin m.dictionary controls end job a e in
      let checked : Attempt SynthesisControls → Attempt VoiceJob =
        λ x. (run_checked digests synthesize speech_rate return_audio end job_id m x).0 in
      let same =
        ap (λ r. r.0) (run_job-found digests synthesize speech_rate return_audio end job_id m job l)
        ∙ ap checked c
        ∙ run_with-found digests synthesize speech_rate return_audio end job_id controls m job l in
      record {
        found = known.found;
        is_returned = same ∙ known.is_returned;
        is_completed = known.is_completed;
      }

  -- A text that can be split, at a known rate and with a known `return_audio`, is spoken to its end
  -- where every segment's pronunciation is short enough and is answered with audio: the job that
  -- `create_job` returns is completed.
  pub create_job-Completes :
      (now end : ℕ) (job_id text : String) (preserve_transcript : Bool) (m : VoiceJobManager)
      (controls : SynthesisControls) (segments : List VoiceSegment)
      → (str_eq return_audio "none" || str_eq return_audio "segments") ≡ true
      → speech_controls_for speech_rate ≡ returned controls
      → split_sentences digests.sha256 64 600 (strip text) ≡ returned segments
      → Every (IsAudible m.dictionary) segments
      → Completes (
          create_job digests synthesize speech_rate return_audio now end job_id text
            preserve_transcript m)
  unfolding new_job start_checked create_job start_job keep_job run_started
  create_job-Completes now end job_id text preserve m controls segments known c s a =
      let job =
        new_job digests synthesize speech_rate return_audio now job_id (strip text) preserve
          segments in
      let made : start_checked digests synthesize speech_rate return_audio now job_id (strip text)
            preserve
          ≡ returned job =
        bind-returned (speech_controls_for speech_rate) c _
        ∙ bind-returned (split_sentences digests.sha256 64 600 (strip text)) s _ in
      let created : Bool → Attempt VoiceJob → Attempt VoiceJob × VoiceJobManager = λ b x.
        let started =
          if not b
          then (raised "ValueError", m)
          else keep_job digests synthesize speech_rate return_audio job_id m x in
        run_started digests synthesize speech_rate return_audio end started.1 started.0 in
      let same =
        ap
          (λ b. created b (
            start_checked digests synthesize speech_rate return_audio now job_id (strip text)
              preserve))
          known
        ∙ ap (created true) made in
      subst Completes (sym same) (
        run_job-Completes end job_id (record m { jobs = insert job_id job m.jobs }) job controls
          (lookup-insert job_id job_id job m.jobs ∙ ground (arith, eq_iff job_id job_id)) c a refl)
