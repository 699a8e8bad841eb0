-- ===== src/Voice/Jobs/Steps.antt =====
-- The steps of a call of `run_job` of sara_unified/voice/jobs.py, with calls of `stop_job` between
-- them: the client's answers and the times are any. A job is run by one call, as `create_job` does.
use sara_omega.Prelude.{ℕ, String}
use sara_omega.Voice.Controls.{SynthesisControls}
use sara_omega.Voice.Pronunciation.{PronunciationDictionary}
use sara_omega.Voice.Receipts.{Digests, Origin}
use sara_omega.Voice.Jobs.{VoiceJob, Reply, Place, Run, stop, advance_at}

module _ (digests : Digests) (origin : Origin) (dictionary : PronunciationDictionary)
    (speech_rate : String) (controls : SynthesisControls) (return_audio : String) where
  abbrev pub advance : Reply → ℕ → Place → VoiceJob → Run
  advance = advance_at digests origin dictionary speech_rate controls return_audio

  pub data Step (r : Run) : Run → Type 0 where
    moves : (reply : Reply) (now : ℕ) → Step r (advance reply now r.place r.job)
    stops : (now : ℕ) → Step r (record { place = r.place; job = stop now r.job })

  pub data Reach (r : Run) : Run → Type 0 where
    here : Reach r r
    next : {u v : Run} → Reach r u → Step u v → Reach r v
