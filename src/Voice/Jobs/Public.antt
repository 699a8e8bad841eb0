-- ===== src/Voice/Jobs/Public.antt =====
-- `VoiceJob.public_dict` of sara_unified/voice/jobs.py.
use sara_omega.Prelude.{ℕ, String, Bool, List, map, any, Option, none, ◌==◌, if◌then◌else◌}
use sara_omega.Voice.Segments.{VoiceSegment}
use sara_omega.Voice.Receipts.{AudioReceipt}
use sara_omega.Voice.Jobs.{VoiceJobStatus, completed, VoiceJob}

pub record PublicSegment : Type 0 where
  pub segment_id : ℕ
  pub status : VoiceJobStatus
  pub text_sha256 : String
  pub character_count : ℕ

-- A transcript that is `none` is a key that is not there.
pub record PublicJob : Type 0 where
  pub job_id : String
  pub status : VoiceJobStatus
  pub source_response_sha256 : String
  pub segments : List PublicSegment
  pub receipt_ids : List (String × ℕ)
  pub created_at : ℕ
  pub completed_at : Option ℕ
  pub stop_requested_at : Option ℕ
  pub error : Option String
  pub transcript : Option String

abbrev pub is_spoken : VoiceJob → VoiceSegment → Bool
is_spoken job segment = any (λ (r : AudioReceipt). r.segment_id == segment.index) job.receipts

unfoldable pub public_segment : VoiceJob → VoiceSegment → PublicSegment
public_segment job segment = record {
  segment_id = segment.index;
  status = if is_spoken job segment then completed else job.status;
  text_sha256 = segment.text_sha256;
  character_count = segment.character_count;
}

unfoldable pub public_dict : Bool → VoiceJob → PublicJob
unfolding public_segment
public_dict include_transcript job = record {
  job_id = job.job_id;
  status = job.status;
  source_response_sha256 = job.source_response_sha256;
  segments = map (public_segment job) job.segments;
  receipt_ids = map (λ (r : AudioReceipt). r.receipt_id) job.receipts;
  created_at = job.created_at;
  completed_at = job.completed_at;
  stop_requested_at = job.stop_requested_at;
  error = job.error;
  transcript = if include_transcript then job.transcript else none;
}
