-- ===== src/Domain/Entities.antt =====
-- The records of src/domain.rs. Identifiers and texts are native strings, an `i64` is an integer
-- or, where the code only counts, a number, and an instant is a `Time`.
use telegraph_center.Base.{ℕ, String, Bool, Option, List}
use telegraph_center.Base.Int.{ℤ}
use telegraph_center.Retry.{Time}
use telegraph_center.Domain.Status.{RecordingStatus}
use telegraph_center.Domain.DeliveryStatus.{DeliveryStatus}

-- The normalized tags, in first-seen order.
pub record Tags : Type 0 where
  pub values : List String

pub record Recording : Type 0 where
  pub id : String
  pub client_id : String
  pub client_recording_id : String
  pub status : RecordingStatus
  pub original_filename : Option String
  pub blob_path : Option String
  pub audio_size_bytes : Option ℤ
  pub audio_duration_ms : Option ℤ
  pub sample_rate_hz : Option ℤ
  pub channels : Option ℤ
  pub bits_per_sample : Option ℤ
  pub tags : Tags
  pub recorded_at : Option Time
  pub received_at : Time
  pub selected_sink_name : Option String
  pub latest_error : Option String
  pub created_at : Time
  pub updated_at : Time

pub record Transcript : Type 0 where
  pub recording_id : String
  pub provider : String
  pub text : String
  pub raw_json : String
  pub provider_file_id : Option String
  pub provider_transcription_id : Option String
  pub created_at : Time

pub record TranscriptionAttempt : Type 0 where
  pub id : String
  pub recording_id : String
  pub attempt_number : ℕ
  pub started_at : Time
  pub finished_at : Option Time
  pub status : String
  pub retryable : Bool
  pub error_code : Option String
  pub error_message : Option String

pub record Delivery : Type 0 where
  pub id : String
  pub recording_id : String
  pub sink_name : String
  pub status : DeliveryStatus
  pub selected_at : Time
  pub completed_at : Option Time
  pub retry_deadline_at : Option Time
  pub latest_error : Option String

pub record DeliveryAttempt : Type 0 where
  pub id : String
  pub delivery_id : String
  pub attempt_number : ℕ
  pub started_at : Time
  pub finished_at : Option Time
  pub status : String
  pub http_status : Option ℕ
  pub retryable : Bool
  pub error_message : Option String

pub record OperatorSession : Type 0 where
  pub session_hash : String
  pub operator_username : String
  pub csrf_token_hash : String
  pub created_at : Time
  pub last_seen_at : Time
  pub idle_expires_at : Time
  pub absolute_expires_at : Time
  pub revoked_at : Option Time

pub record AuditEvent : Type 0 where
  pub id : String
  pub occurred_at : Time
  pub actor_kind : String
  pub actor_id : Option String
  pub event_type : String
  pub recording_id : Option String
  pub details_json : String
