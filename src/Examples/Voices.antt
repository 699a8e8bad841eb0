-- ===== src/Examples/Voices.antt =====
-- Texts that are spoken.
use sara_omega.Prelude.{◌≤◌, ◌+◌, String, ◌≡◌, ◌≢◌, refl, false, List, [], ◌∷◌, map, none, length}
use sara_omega.Prelude.Attempt.{Attempt, returned, raised}
use sara_omega.Prelude.Text.{strip}
use sara_omega.Voice.Segments.{VoiceSegment, split_sentences}
use sara_omega.Voice.Segments.Joined.{AreSplit, split_sentences-AreSplit}
use sara_omega.Voice.Controls.{SynthesisControls, normal, controls_at, speech_controls_for}
use sara_omega.Voice.Pronunciation.{PronunciationResult, apply, default_dictionary}
use sara_omega.Voice.Receipts.{Digests, Origin}
use sara_omega.Voice.Jobs.{
  pending, running, completed, stopped, VoiceJob, VoiceJobManager, Reply, speaking, Run, stop,
  advance_at,
}
use sara_omega.Voice.Jobs.Runs.{start_checked, create_job}
use sara_omega.Voice.Jobs.Public.{PublicSegment, public_dict}
use sara_omega.Voice.Jobs.Steps.{moves, Reach, here, next}
use sara_omega.Voice.Jobs.Consistent.{IsConsistent}
use sara_omega.Voice.Jobs.Halted.{in_flight, stop-Reach}
use sara_omega.Voice.Jobs.Unstopped.{IsSpoken}
use sara_omega.Voice.Jobs.Spoken.{create_job-IsSpoken}
use sara_omega.Voice.Jobs.Started.{enters, started-IsConsistent}
use sara_omega.Voice.Jobs.Audible.{IsAudible, Completes, create_job-Completes}

abbrev digest : String → String
digest t = t

abbrev speech : String
speech = " Hello there.  Go now! Please do."

abbrev spoken : List VoiceSegment
spoken =
    (record { index = 1; text = "Hello"; text_sha256 = "Hello"; character_count = 5 })
    ∷ (record { index = 2; text = "there."; text_sha256 = "there."; character_count = 6 })
    ∷ (record { index = 3; text = "Go now!"; text_sha256 = "Go now!"; character_count = 7 })
    ∷ (record { index = 4; text = "Please"; text_sha256 = "Please"; character_count = 6 })
    ∷ (record { index = 5; text = "do."; text_sha256 = "do."; character_count = 3 })
    ∷ []

speech_is_split : split_sentences digest 8 8 speech ≡ returned spoken
unfolding split_sentences
speech_is_split = refl

split_sentences-AreSplit_example : AreSplit digest 8 8 speech spoken
split_sentences-AreSplit_example = split_sentences-AreSplit digest 8 8 speech spoken speech_is_split

abbrev digests : Digests
digests = record {
  sha256 = digest;
  controls_digest = λ c. "controls";
  dictionary_digest = λ d. "dictionary";
  wav_metadata = λ a. record { channels = none; frame_rate = none; duration = none };
}

abbrev origin : Origin
origin = record { source_commit_sha = "abc"; deployment_id = "d1"; voice_service_url = "http://v" }

abbrev controls : SynthesisControls
controls = controls_at normal 108

abbrev manager : VoiceJobManager
manager = record { origin = origin; dictionary = default_dictionary; jobs = [] }

abbrev reply : Reply
reply = record { audio = returned "RIFF"; duration_ms = 5; now = 3 }

abbrev synthesize : VoiceSegment → String → Reply
synthesize segment text = reply

-- The dictionary's rules in their order: the longer match first.
sara_is_pronounced :
    apply digests.dictionary_digest default_dictionary "SARA OMEGA and SARA"
    ≡ returned (record {
      text = "Sarah Omega and Sarah";
      dictionary_id = "sara-default";
      dictionary_version = "2026.09.17";
      dictionary_sha256 = "dictionary";
      applied_rules = "SARA OMEGA" ∷ "SARA" ∷ [];
    })
unfolding apply
sara_is_pronounced = refl

abbrev greeting : String
greeting = "Hi SARA. Go!"

abbrev greeted : List VoiceSegment
greeted =
    (record { index = 1; text = "Hi SARA."; text_sha256 = "Hi SARA."; character_count = 8 })
    ∷ (record { index = 2; text = "Go!"; text_sha256 = "Go!"; character_count = 3 })
    ∷ []

abbrev job : VoiceJob
job = record {
  job_id = "j1";
  status = pending;
  source_response_sha256 = greeting;
  segments = greeted;
  receipts = [];
  audio_segments = [];
  transcript = none;
  error = none;
  created_at = 1;
  completed_at = none;
  stop_requested_at = none;
}

job_is_started :
    start_checked digests synthesize "normal" "none" 1 "j1" greeting false ≡ returned job
unfolding start_checked
job_is_started = refl

abbrev Reaches : Run → Run → Type 0
Reaches = Reach digests origin default_dictionary "normal" controls "none"

-- The job waits for the audio of its first segment.
abbrev waiting : Run
waiting = record {
  place =
      speaking
        (record { index = 1; text = "Hi SARA."; text_sha256 = "Hi SARA."; character_count = 8 })
        "Hi Sarah."
        ((record { index = 2; text = "Go!"; text_sha256 = "Go!"; character_count = 3 }) ∷ []);
  job = record job { status = running };
}

waiting_is_reached : Reaches (enters job) waiting
unfolding advance_at
waiting_is_reached = next (next here (moves reply 0)) (moves reply 0)

started-IsConsistent_example : IsConsistent waiting
started-IsConsistent_example =
    started-IsConsistent digests synthesize "normal" "none" origin default_dictionary controls 1
      "j1" greeting false job job_is_started waiting_is_reached

abbrev stopped_waiting : Run
stopped_waiting = record { place = waiting.place; job = stop 4 waiting.job }

abbrev after_audio : Run
after_audio =
    advance_at digests origin default_dictionary "normal" controls "none" reply 5
      stopped_waiting.place stopped_waiting.job

running-ne-completed : running ≢ completed
running-ne-completed h = cc

stop-Reach_example :
    (after_audio.job.status ≢ completed)
    × (length after_audio.job.receipts ≤ length waiting.job.receipts + in_flight waiting.place)
stop-Reach_example =
    stop-Reach digests origin default_dictionary "normal" controls "none" {r = waiting}
      {u = after_audio} 4
      (started-IsConsistent digests synthesize "normal" "none" origin default_dictionary controls 1
        "j1" greeting false job job_is_started waiting_is_reached)
      running-ne-completed (next here (moves reply 5))

greeting_is_split : split_sentences digest 64 600 (strip greeting) ≡ returned greeted
unfolding split_sentences
greeting_is_split = refl

first_IsAudible :
    (s : VoiceSegment) (r : PronunciationResult)
    → apply digests.dictionary_digest default_dictionary s.text ≡ returned r
    → IsAudible digests synthesize "normal" "none" default_dictionary s
first_IsAudible s r h = record { result = r; is_short = h; audio = "RIFF"; is_answered = refl }

abbrev pronounced_as : String → List String → PronunciationResult
pronounced_as t rules = record {
  text = t;
  dictionary_id = "sara-default";
  dictionary_version = "2026.09.17";
  dictionary_sha256 = "dictionary";
  applied_rules = rules;
}

create_job-Completes_example :
    Completes digests synthesize "normal" "none"
      (create_job digests synthesize "normal" "none" 1 9 "j1" greeting false manager)
unfolding apply speech_controls_for
create_job-Completes_example =
    create_job-Completes digests synthesize "normal" "none" 1 9 "j1" greeting false manager controls
      greeted refl refl greeting_is_split
      (
        first_IsAudible _ (pronounced_as "Hi Sarah." ("SARA" ∷ [])) refl,
        (first_IsAudible _ (pronounced_as "Go!" []) refl, tt),
      )

abbrev value : Attempt VoiceJob → VoiceJob
value (returned found) = found
value (raised e) = job

abbrev call : Attempt VoiceJob × VoiceJobManager
call = create_job digests synthesize "normal" "none" 1 9 "j1" greeting false manager

call_is_returned : call.0 ≡ returned (value call.0)
unfolding create_job
call_is_returned = refl

create_job-IsSpoken_example :
    (segments : List VoiceSegment) × (split_sentences digests.sha256 64 600 (strip greeting)
      ≡ returned segments)
    × IsSpoken segments (value call.0)
create_job-IsSpoken_example =
    create_job-IsSpoken digests synthesize "normal" "none" 1 9 "j1" greeting false manager
      (value call.0) call_is_returned

-- The job that is stopped while it waits, and hears its first segment.
after_audio_shows :
    map (λ (s : PublicSegment). s.status) (public_dict false after_audio.job).segments
    ≡ completed ∷ stopped ∷ []
unfolding public_dict stop advance_at
after_audio_shows = refl

abbrev narrow : VoiceJobManager
narrow = record manager { dictionary = record default_dictionary { max_output_characters = 4 } }

abbrev too_long : Attempt VoiceJob × VoiceJobManager
too_long = create_job digests synthesize "normal" "none" 1 9 "j1" greeting false narrow

-- A pronunciation that is too long: the call raises, and the job is kept as one that runs.
too_long_is_raised :
    (too_long.0 ≡ raised "ValueError")
    × (map (λ (e : String × VoiceJob). e.1.status) too_long.1.jobs ≡ running ∷ [])
unfolding create_job
too_long_is_raised = (refl, refl)
