-- ===== src/Voice/Jobs.antt =====
-- sara_unified/voice/jobs.py. The times are numbers, whose ISO texts are never empty. `run_job` is
-- split where it looks at the job and where it waits for the voice client, so that a call of
-- `stop_job` can come between.
pub mod Public
pub mod Runs
pub mod Steps
pub mod Consistent
pub mod Halted
pub mod Loop
pub mod Unstopped
pub mod Spoken
pub mod Started
pub mod Audible
use sara_omega.Prelude.{
  ℕ, String, Bool, true, false, List, [], ◌∷◌, ◌++◌, Option, none, some, str_eq, if◌then◌else◌,
}
use sara_omega.Prelude.Dict.{Dict, lookup, insert}
use sara_omega.Prelude.Attempt.{Attempt, returned, raised}
use sara_omega.Voice.Segments.{VoiceSegment}
use sara_omega.Voice.Controls.{SynthesisControls}
use sara_omega.Voice.Pronunciation.{PronunciationDictionary, PronunciationResult, apply}
use sara_omega.Voice.Receipts.{AudioReceipt, Digests, Origin, build_audio_receipt}

pub data VoiceJobStatus : Type 0 where
  pending running completed stopped failed : VoiceJobStatus

pub record VoiceJob : Type 0 where
  pub job_id : String
  pub status : VoiceJobStatus
  pub source_response_sha256 : String
  pub segments : List VoiceSegment
  pub receipts : List AudioReceipt
  pub audio_segments : List String
  pub transcript : Option String
  pub error : Option String
  pub created_at : ℕ
  pub completed_at : Option ℕ
  pub stop_requested_at : Option ℕ

pub record VoiceJobManager : Type 0 where
  pub origin : Origin
  pub dictionary : PronunciationDictionary
  pub jobs : Dict VoiceJob

-- What the voice client answers for a segment, how long it took, and the time then.
pub record Reply : Type 0 where
  pub audio : Attempt String
  pub duration_ms : ℕ
  pub now : ℕ

-- Where a call of `run_job` is: before its loop, before a segment's check, waiting for the audio of
-- a segment with its transformed text, behind the loop, or left. It keeps the segments that it has
-- not visited.
pub data Place : Type 0 where
  entering : Place
  visiting : List VoiceSegment → Place
  speaking : VoiceSegment → String → List VoiceSegment → Place
  leaving : List VoiceSegment → Place
  left : List VoiceSegment → Place
  thrown : String → List VoiceSegment → Place

pub record Run : Type 0 where
  pub place : Place
  pub job : VoiceJob

abbrev pub is_set : Option ℕ → Bool
is_set none = false
is_set (some t) = true

unfoldable pub is_active : VoiceJobStatus → Bool
is_active pending = true
is_active running = true
is_active completed = false
is_active stopped = false
is_active failed = false

unfoldable pub is_running : VoiceJobStatus → Bool
is_running running = true
is_running pending = false
is_running completed = false
is_running stopped = false
is_running failed = false

-- `stop_job` on the job that it has found.
unfoldable pub stop : ℕ → VoiceJob → VoiceJob
unfolding is_active
stop now job = record job {
  stop_requested_at = if is_set job.stop_requested_at then job.stop_requested_at else some now;
  status = if is_active job.status then stopped else job.status;
}

unfoldable pub stop_job : ℕ → String → VoiceJobManager → Attempt VoiceJob × VoiceJobManager
unfolding stop
stop_job now job_id m = elim (lookup job_id m.jobs) [
  | none ↦ (raised "KeyError", m)
  | some job ↦ (returned (stop now job), record m { jobs = insert job_id (stop now job) m.jobs })
]

unfoldable pub get_job : String → VoiceJobManager → Option VoiceJob
get_job job_id m = lookup job_id m.jobs

-- After the loop.
unfoldable pub settle : ℕ → VoiceJob → VoiceJob
unfolding is_running
settle now job = record job {
  status = if is_running job.status then completed else job.status;
  completed_at = some now;
}

module _ (digests : Digests) where
  module _ (origin : Origin) (dictionary : PronunciationDictionary) where
    -- The text that is sent to the voice client.
    unfoldable pub pronounced :
        VoiceSegment → List VoiceSegment → VoiceJob → Attempt PronunciationResult → Run
    pronounced segment rest job (returned r) = record {
      place = speaking segment r.text rest;
      job = job;
    }
    pronounced segment rest job (raised e) = record { place = thrown e (segment ∷ rest); job = job }

    -- One visit of the loop, up to the call of the voice client.
    unfoldable pub visit : VoiceSegment → List VoiceSegment → VoiceJob → Run
    unfolding apply pronounced
    visit segment rest job =
        if is_set job.stop_requested_at
        then record { place = leaving (segment ∷ rest); job = record job { status = stopped } }
        else pronounced segment rest job (apply digests.dictionary_digest dictionary segment.text)

    module _ (speech_rate : String) (controls : SynthesisControls) (return_audio : String) where
      unfoldable pub add_receipt : VoiceSegment → String → String → Reply → VoiceJob → VoiceJob
      unfolding build_audio_receipt
      add_receipt segment transformed audio reply job = record job {
        receipts =
            job.receipts
            ++ build_audio_receipt digests origin dictionary job.job_id segment.index
                job.source_response_sha256 segment.text transformed audio speech_rate controls
                reply.duration_ms reply.now
              ∷ [];
        audio_segments =
            if str_eq return_audio "segments"
            then job.audio_segments ++ audio ∷ []
            else job.audio_segments;
      }

      -- The rest of the visit, from the client's answer on.
      unfoldable pub hear_audio :
          VoiceSegment → String → List VoiceSegment → Reply → VoiceJob → Attempt String → Run
      unfolding add_receipt
      hear_audio segment transformed rest reply job (returned audio) = record {
        place = visiting rest;
        job = add_receipt segment transformed audio reply job;
      }
      hear_audio segment transformed rest reply job (raised e) = record {
        place = left (segment ∷ rest);
        job = record job { status = failed; error = some e; completed_at = some reply.now };
      }

      unfoldable pub hear : VoiceSegment → String → List VoiceSegment → Reply → VoiceJob → Run
      unfolding hear_audio
      hear segment transformed rest reply job =
          hear_audio segment transformed rest reply job reply.audio

      -- What a call of `run_job` does next, where the client answers `reply` if it is waited for,
      -- and the time is `now`.
      unfoldable pub advance_at : Reply → ℕ → Place → VoiceJob → Run
      unfolding visit hear settle
      advance_at reply now entering job = record {
        place = visiting job.segments;
        job = record job { status = running };
      }
      advance_at reply now (visiting []) job = record { place = leaving []; job = job }
      advance_at reply now (visiting (segment ∷ rest)) job = visit segment rest job
      advance_at reply now (speaking segment transformed rest) job =
          hear segment transformed rest reply job
      advance_at reply now (leaving rest) job = record { place = left rest; job = settle now job }
      advance_at reply now (left rest) job = record { place = left rest; job = job }
      advance_at reply now (thrown e rest) job = record { place = thrown e rest; job = job }
