-- ===== src/Voice/Jobs/Spoken.antt =====
-- What `create_job` of sara_unified/voice/jobs.py returns.
use mathlib.Core.Path.{subst}
use sara_omega.Prelude.{
  ℕ, String, ◌≡◌, refl, sym, ap, ◌∙◌, inl, Bool, true, false, not, ◌||◌, List, [], ◌++◌, map, some,
  str_eq, eq_iff, if◌then◌else◌, arith,
}
use sara_omega.Prelude.Dict.{lookup, insert, lookup-insert}
use sara_omega.Prelude.Text.{strip}
use sara_omega.Prelude.Attempt.{Attempt, returned, raised, raised-returned, returned-inj, bind_inv}
use sara_omega.Voice.Segments.{VoiceSegment, split_sentences}
use sara_omega.Voice.Controls.{SynthesisControls, speech_controls_for}
use sara_omega.Voice.Pronunciation.{PronunciationDictionary}
use sara_omega.Voice.Receipts.{AudioReceipt, Digests, Origin}
use sara_omega.Voice.Jobs.{
  running, VoiceJob, VoiceJobManager, Reply, Place, entering, visiting, speaking, leaving, left,
  thrown, is_set,
}
use sara_omega.Voice.Jobs.Runs.{
  run_segments, outcome, run_found, run_with, run_checked, run_job, new_job, start_checked,
  keep_job, run_started, start_job, run_with-found, run_job-found, create_job,
}
use sara_omega.Voice.Jobs.Consistent.{IsConsistent, ids, Reach-IsConsistent}
use sara_omega.Voice.Jobs.Loop.{IsOver, run_segments-Reach, run_segments-IsOver}
use sara_omega.Voice.Jobs.Unstopped.{
  IsKept, IsSpoken, run_segments-IsKept, left-IsSpoken, leaving-IsSpoken,
}

module _ (digests : Digests) (synthesize : VoiceSegment → String → Reply)
    (speech_rate return_audio : String) where
  module _ (origin : Origin) (dictionary : PronunciationDictionary)
      (controls : SynthesisControls) where
    outcome-IsSpoken :
        (segments : List VoiceSegment) (now : ℕ) (p : Place) (job found : VoiceJob)
        → IsOver p
        → IsKept segments job
        → IsConsistent (record { place = p; job = job })
        → (outcome digests synthesize speech_rate return_audio origin dictionary controls now p
            job).0
          ≡ returned found
        → IsSpoken segments found
    unfolding outcome
    outcome-IsSpoken segments now (leaving rest) job found o k c h =
        subst (IsSpoken segments) (returned-inj h) (
          leaving-IsSpoken digests synthesize speech_rate return_audio origin dictionary controls
            segments now rest job k c)
    outcome-IsSpoken segments now (left rest) job found o k c h =
        subst (IsSpoken segments) (returned-inj h) (
          left-IsSpoken digests synthesize speech_rate return_audio origin dictionary controls
            segments rest job k c)
    outcome-IsSpoken segments now (thrown e rest) job found o k c h =
        absurd (raised-returned e found h)
    outcome-IsSpoken segments now entering job found o k c h = absurd o
    outcome-IsSpoken segments now (visiting rest) job found o k c h = absurd o
    outcome-IsSpoken segments now (speaking segment t rest) job found o k c h = absurd o

    run_found-IsSpoken :
        (now : ℕ) (job found : VoiceJob)
        → is_set job.stop_requested_at ≡ false
        → job.receipts ≡ []
        → (run_found digests synthesize speech_rate return_audio origin dictionary controls now
            job).0
          ≡ returned found
        → IsSpoken job.segments found
    unfolding run_found
    run_found-IsSpoken now job found e new h =
        let started : VoiceJob = record job { status = running } in
        let r =
          run_segments digests synthesize speech_rate return_audio origin dictionary controls
            job.segments started in
        let first : IsConsistent (record { place = visiting job.segments; job = started }) =
          record {
            in_order =
                ap
                  (λ (l : List AudioReceipt).
                    map (λ (x : AudioReceipt). x.segment_id) l ++ ids job.segments)
                  new;
            agrees = inl (refl, e);
          } in
        outcome-IsSpoken job.segments now r.place r.job found
          (run_segments-IsOver digests synthesize speech_rate return_audio origin dictionary
            controls job.segments started)
          (run_segments-IsKept digests synthesize speech_rate return_audio origin dictionary
            controls job.segments job.segments started (record { unstopped = e; same = refl }))
          (Reach-IsConsistent digests origin dictionary speech_rate controls return_audio
            (run_segments-Reach digests synthesize speech_rate return_audio origin dictionary
              controls job.segments started)
            first)
          h

  run_checked-IsSpoken :
      (end : ℕ) (job_id : String) (m : VoiceJobManager) (job found : VoiceJob)
      (c : Attempt SynthesisControls)
      → lookup job_id m.jobs ≡ some job
      → is_set job.stop_requested_at ≡ false
      → job.receipts ≡ []
      → (run_checked digests synthesize speech_rate return_audio end job_id m c).0 ≡ returned found
      → IsSpoken job.segments found
  unfolding run_checked run_with
  run_checked-IsSpoken end job_id m job found (returned controls) l e new h =
      let same =
        run_with-found digests synthesize speech_rate return_audio end job_id controls m job l in
      run_found-IsSpoken m.origin m.dictionary controls end job found e new (sym same ∙ h)
  run_checked-IsSpoken end job_id m job found (raised x) l e new h =
      absurd (raised-returned x found h)

  run_job-IsSpoken :
      (end : ℕ) (job_id : String) (m : VoiceJobManager) (job found : VoiceJob)
      → lookup job_id m.jobs ≡ some job
      → is_set job.stop_requested_at ≡ false
      → job.receipts ≡ []
      → (run_job digests synthesize speech_rate return_audio end job_id m).0 ≡ returned found
      → IsSpoken job.segments found
  unfolding run_job
  run_job-IsSpoken end job_id m job found l e new h =
      let checked = speech_controls_for speech_rate in
      let same = run_job-found digests synthesize speech_rate return_audio end job_id m job l in
      run_checked-IsSpoken end job_id m job found checked l e new (ap (λ r. r.0) (sym same) ∙ h)

  run_started-IsSpoken :
      (now end : ℕ) (job_id text : String) (preserve_transcript : Bool) (m : VoiceJobManager)
      (a : Attempt VoiceJob) (found : VoiceJob)
      → start_checked digests synthesize speech_rate return_audio now job_id text
          preserve_transcript
        ≡ a
      → (let kept = keep_job digests synthesize speech_rate return_audio job_id m a in
          run_started digests synthesize speech_rate return_audio end kept.1 kept.0).0
        ≡ returned found
      → (segments : List VoiceSegment) × (split_sentences digests.sha256 64 600 text
          ≡ returned segments)
        × IsSpoken segments found
  unfolding run_started keep_job start_checked new_job
  run_started-IsSpoken now end job_id text preserve m (raised e) found s h =
      absurd (raised-returned e found h)
  run_started-IsSpoken now end job_id text preserve m (returned job) found s h =
      let (controls, _, s2) = bind_inv (speech_controls_for speech_rate) _ job s in
      let (segments, split, s3) = bind_inv (split_sentences digests.sha256 64 600 text) _ job s2 in
      let made : new_job digests synthesize speech_rate return_audio now job_id text preserve
            segments
          ≡ job =
        returned-inj s3 in
      let named : job.job_id ≡ job_id = ap (λ (j : VoiceJob). j.job_id) (sym made) in
      let stored : lookup job.job_id (insert job_id job m.jobs) ≡ some job =
        lookup-insert job_id job.job_id job m.jobs ∙ ground (arith, eq_iff job_id job.job_id) in
      let spoken =
        run_job-IsSpoken end job.job_id (record m { jobs = insert job_id job m.jobs }) job found
          stored (ap (λ (j : VoiceJob). is_set j.stop_requested_at) (sym made))
          (ap (λ (j : VoiceJob). j.receipts) (sym made)) h in
      (
        segments,
        split,
        subst (λ l. IsSpoken l found) (ap (λ (j : VoiceJob). j.segments) (sym made)) spoken,
      )

  started_if :
      (b : Bool) (end : ℕ) (y : Attempt VoiceJob × VoiceJobManager) (m : VoiceJobManager)
      (found : VoiceJob)
      → (let started = if b then (raised "ValueError", m) else y in
          run_started digests synthesize speech_rate return_audio end started.1 started.0).0
        ≡ returned found
      → (run_started digests synthesize speech_rate return_audio end y.1 y.0).0 ≡ returned found
  unfolding run_started
  started_if true end y m found h = absurd (raised-returned "ValueError" found h)
  started_if false end y m found h = h

  -- Where `create_job` returns a job and no stop comes between, the job has the segments of the text,
  -- and is completed with a receipt for each of them in their order, or failed.
  pub create_job-IsSpoken :
      (now end : ℕ) (job_id text : String) (preserve_transcript : Bool) (m : VoiceJobManager)
      (found : VoiceJob)
      → (create_job digests synthesize speech_rate return_audio now end job_id text
          preserve_transcript m).0
        ≡ returned found
      → (segments : List VoiceSegment) × (split_sentences digests.sha256 64 600 (strip text)
          ≡ returned segments)
        × IsSpoken segments found
  unfolding create_job start_job
  create_job-IsSpoken now end job_id text preserve m found h =
      let checked =
        start_checked digests synthesize speech_rate return_audio now job_id (strip text)
          preserve in
      run_started-IsSpoken now end job_id (strip text) preserve m checked found refl (
        started_if (not (str_eq return_audio "none" || str_eq return_audio "segments")) end
          (keep_job digests synthesize speech_rate return_audio job_id m checked) m found h)
