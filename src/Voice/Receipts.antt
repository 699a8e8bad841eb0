-- ===== src/Voice/Receipts.antt =====
-- sara_unified/voice/receipts.py. Audio is a text of its bytes. What `wave` reads of it, SHA-256 and
-- the digests of the controls and the dictionary are the fields of `Digests`; a segment's id is its
-- index.
use sara_omega.Prelude.{ℕ, String, Option}
use sara_omega.Prelude.Text.{len}
use sara_omega.Voice.Controls.{SynthesisControls}
use sara_omega.Voice.Pronunciation.{PronunciationDictionary}

-- The metadata of a wave file; the duration is in milliseconds.
pub record Wave : Type 0 where
  pub channels : Option ℕ
  pub frame_rate : Option ℕ
  pub duration : Option ℕ

pub record Digests : Type 0 where
  pub sha256 : String → String
  pub controls_digest : SynthesisControls → String
  pub dictionary_digest : PronunciationDictionary → String
  pub wav_metadata : String → Wave

-- The source, the deployment and the service that a receipt names.
pub record Origin : Type 0 where
  pub source_commit_sha : String
  pub deployment_id : String
  pub voice_service_url : String

pub record AudioReceipt : Type 0 where
  pub receipt_id : String × ℕ
  pub job_id : String
  pub segment_id : ℕ
  pub profile_id : String
  pub model_id : String
  pub source_response_sha256 : String
  pub segment_text_sha256 : String
  pub transformed_segment_text_sha256 : String
  pub audio_sha256 : String
  pub audio_bytes : ℕ
  pub wav_channels : Option ℕ
  pub wav_frame_rate : Option ℕ
  pub wav_duration : Option ℕ
  pub speech_rate : String
  pub speech_control_digest : String
  pub pronunciation_dictionary_id : String
  pub pronunciation_dictionary_version : String
  pub pronunciation_dictionary_sha256 : String
  pub voice_service_url_hash : String
  pub source_commit_sha : String
  pub deployment_id : String
  pub duration_ms : ℕ
  pub created_at : ℕ

module _ (digests : Digests) (origin : Origin) (dictionary : PronunciationDictionary) where
  unfoldable pub build_audio_receipt :
      (job_id : String) (segment_id : ℕ)
      (source_response_sha256 segment_text transformed_segment_text audio speech_rate : String)
      (controls : SynthesisControls) (duration_ms now : ℕ)
      → AudioReceipt
  unfolding len
  build_audio_receipt job_id segment_id source text transformed audio rate controls duration now =
      let read = digests.wav_metadata audio in
      record {
        receipt_id = (job_id, segment_id);
        job_id = job_id;
        segment_id = segment_id;
        profile_id = "sara_elegant_british_v1";
        model_id = "en_GB-cori-high";
        source_response_sha256 = source;
        segment_text_sha256 = digests.sha256 text;
        transformed_segment_text_sha256 = digests.sha256 transformed;
        audio_sha256 = digests.sha256 audio;
        audio_bytes = len audio;
        wav_channels = read.channels;
        wav_frame_rate = read.frame_rate;
        wav_duration = read.duration;
        speech_rate = rate;
        speech_control_digest = digests.controls_digest controls;
        pronunciation_dictionary_id = dictionary.dictionary_id;
        pronunciation_dictionary_version = dictionary.version;
        pronunciation_dictionary_sha256 = digests.dictionary_digest dictionary;
        voice_service_url_hash = digests.sha256 origin.voice_service_url;
        source_commit_sha = origin.source_commit_sha;
        deployment_id = origin.deployment_id;
        duration_ms = duration;
        created_at = now;
      }
