-- ===== src/Voice/Jobs/Runs.antt =====
-- `run_job`, `start_job` and `create_job` of sara_unified/voice/jobs.py, where no other call comes
-- between. `synthesize` is the voice client; `now` is the time at which a job is made, `end` the one
-- at which it is over.
use sara_omega.Prelude.{
  ℕ, String, ◌≡◌, refl, Bool, not, ◌||◌, List, [], ◌∷◌, none, some, str_eq, if◌then◌else◌,
}
use sara_omega.Prelude.Dict.{lookup, insert}
use sara_omega.Prelude.Text.{strip}
use sara_omega.Prelude.Attempt.{Attempt, returned, raised, ◌>>=◌}
use sara_omega.Voice.Segments.{VoiceSegment, split_sentences}
use sara_omega.Voice.Controls.{SynthesisControls, speech_controls_for}
use sara_omega.Voice.Pronunciation.{PronunciationDictionary}
use sara_omega.Voice.Receipts.{Digests, Origin}
use sara_omega.Voice.Jobs.{
  VoiceJob, running, pending, VoiceJobManager, Reply, Place, entering, visiting, speaking, leaving,
  left, thrown, Run, visit, hear, settle,
}

module _ (digests : Digests) (synthesize : VoiceSegment → String → Reply)
    (speech_rate return_audio : String) where
  module _ (origin : Origin) (dictionary : PronunciationDictionary)
      (controls : SynthesisControls) where
    -- The client's answer, where it is waited for.
    unfoldable pub answer : Place → VoiceJob → Run
    unfolding hear
    answer entering job = record { place = entering; job = job }
    answer (visiting rest) job = record { place = visiting rest; job = job }
    answer (speaking segment transformed rest) job =
        hear digests origin dictionary speech_rate controls return_audio segment transformed rest
          (synthesize segment transformed) job
    answer (leaving rest) job = record { place = leaving rest; job = job }
    answer (left rest) job = record { place = left rest; job = job }
    answer (thrown e rest) job = record { place = thrown e rest; job = job }

    -- The loop goes on where the visit came to its end.
    unfoldable pub go_on : (VoiceJob → Run) → Place → VoiceJob → Run
    go_on loop (visiting rest) job = loop job
    go_on loop entering job = record { place = entering; job = job }
    go_on loop (speaking segment transformed rest) job = record {
      place = speaking segment transformed rest;
      job = job;
    }
    go_on loop (leaving rest) job = record { place = leaving rest; job = job }
    go_on loop (left rest) job = record { place = left rest; job = job }
    go_on loop (thrown e rest) job = record { place = thrown e rest; job = job }

    unfoldable pub run_segments : List VoiceSegment → VoiceJob → Run
    unfolding visit answer go_on
    run_segments [] job = record { place = leaving []; job = job }
    run_segments (segment ∷ rest) job =
        let seen = visit digests origin dictionary segment rest job in
        let heard = answer seen.place seen.job in go_on (run_segments rest) heard.place heard.job

    -- What `run_job` returns or raises, and the job that it leaves behind. The loop does not end at
    -- the last three places.
    unfoldable pub outcome : ℕ → Place → VoiceJob → Attempt VoiceJob × VoiceJob
    unfolding settle
    outcome now (leaving rest) job = (returned (settle now job), settle now job)
    outcome now (left rest) job = (returned job, job)
    outcome now (thrown e rest) job = (raised e, job)
    outcome now entering job = (returned job, job)
    outcome now (visiting rest) job = (returned job, job)
    outcome now (speaking segment transformed rest) job = (returned job, job)

    unfoldable pub run_found : ℕ → VoiceJob → Attempt VoiceJob × VoiceJob
    unfolding run_segments outcome
    run_found now job =
        let r = run_segments job.segments (record job { status = running }) in
        outcome now r.place r.job

  unfoldable pub run_with :
      ℕ → String → SynthesisControls → VoiceJobManager → Attempt VoiceJob × VoiceJobManager
  unfolding run_found
  run_with end job_id controls m = elim (lookup job_id m.jobs) [
    | none ↦ (raised "KeyError", m)
    | some job ↦
        let r = run_found m.origin m.dictionary controls end job in
        (r.0, record m { jobs = insert job_id r.1 m.jobs })
  ]

  unfoldable pub run_checked :
      ℕ → String → VoiceJobManager → Attempt SynthesisControls → Attempt VoiceJob × VoiceJobManager
  unfolding run_with
  run_checked end job_id m (returned controls) = run_with end job_id controls m
  run_checked end job_id m (raised e) = (raised e, m)

  -- An unknown job is a KeyError before an unknown rate is a ValueError.
  unfoldable pub run_job : ℕ → String → VoiceJobManager → Attempt VoiceJob × VoiceJobManager
  unfolding run_checked speech_controls_for
  run_job end job_id m = elim (lookup job_id m.jobs) [
    | none ↦ (raised "KeyError", m)
    | some job ↦ run_checked end job_id m (speech_controls_for speech_rate)
  ]

  unfoldable pub new_job : ℕ → String → String → Bool → List VoiceSegment → VoiceJob
  new_job now job_id cleaned preserve_transcript segments = record {
    job_id = job_id;
    status = pending;
    source_response_sha256 = digests.sha256 cleaned;
    segments = segments;
    receipts = [];
    audio_segments = [];
    transcript = if preserve_transcript then some cleaned else none;
    error = none;
    created_at = now;
    completed_at = none;
    stop_requested_at = none;
  }

  -- The controls are computed for their exception alone.
  unfoldable pub start_checked : ℕ → String → String → Bool → Attempt VoiceJob
  unfolding speech_controls_for split_sentences new_job
  start_checked now job_id cleaned preserve_transcript =
      speech_controls_for speech_rate >>= λ controls.
      split_sentences digests.sha256 64 600 cleaned >>= λ segments.
      returned (new_job now job_id cleaned preserve_transcript segments)

  -- `self.jobs[job.job_id] = job`, where the job was made.
  unfoldable pub keep_job :
      String → VoiceJobManager → Attempt VoiceJob → Attempt VoiceJob × VoiceJobManager
  keep_job job_id m (returned job) = (returned job, record m { jobs = insert job_id job m.jobs })
  keep_job job_id m (raised e) = (raised e, m)

  unfoldable pub start_job :
      ℕ → String → String → Bool → VoiceJobManager → Attempt VoiceJob × VoiceJobManager
  unfolding start_checked strip keep_job
  start_job now job_id text preserve_transcript m =
      if not (str_eq return_audio "none" || str_eq return_audio "segments")
      then (raised "ValueError", m)
      else keep_job job_id m (start_checked now job_id (strip text) preserve_transcript)

  unfoldable pub run_started :
      ℕ → VoiceJobManager → Attempt VoiceJob → Attempt VoiceJob × VoiceJobManager
  unfolding run_job
  run_started end m (returned job) = run_job end job.job_id m
  run_started end m (raised e) = (raised e, m)

  unfoldable pub create_job :
      ℕ → ℕ → String → String → Bool → VoiceJobManager → Attempt VoiceJob × VoiceJobManager
  unfolding start_job run_started
  create_job now end job_id text preserve_transcript m =
      let started = start_job now job_id text preserve_transcript m in
      run_started end started.1 started.0

  pub run_with-found :
      (end : ℕ) (job_id : String) (controls : SynthesisControls) (m : VoiceJobManager)
      (job : VoiceJob)
      → lookup job_id m.jobs ≡ some job
      → (run_with end job_id controls m).0 ≡ (run_found m.origin m.dictionary controls end job).0
  unfolding run_with
  run_with-found end job_id controls m job l = rw (l, run_with) refl

  pub run_job-found :
      (end : ℕ) (job_id : String) (m : VoiceJobManager) (job : VoiceJob)
      → lookup job_id m.jobs ≡ some job
      → run_job end job_id m ≡ run_checked end job_id m (speech_controls_for speech_rate)
  unfolding run_job
  run_job-found end job_id m job l = rw (l, run_job) refl
