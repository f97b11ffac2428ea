-- ===== src/Storage/Rows.antt =====
-- The tables of migrations/*.sql, and the row types of src/storage/sqlite.rs with their
-- conversions. A status column holds the stored text, which is parsed where the source parses it.
-- The RFC3339 and JSON columns hold the value that their text encodes, since the codecs are those
-- of the crates `time` and `serde_json`; the order of two RFC3339 texts is a parameter of the
-- queries.
use telegraph_center.Base.{String, Option, List, []}
use telegraph_center.Base.Int.{ℤ}
use telegraph_center.Retry.{Time}
use telegraph_center.Domain.Status.{RecordingStatus, InvalidTransition, Parsed}
use telegraph_center.Domain.Status
use telegraph_center.Domain.DeliveryStatus
use telegraph_center.Domain.Entities.{
  Tags, Recording, Transcript, TranscriptionAttempt, Delivery, DeliveryAttempt, OperatorSession,
  AuditEvent,
}

-- The errors of the driver that the statements can meet: a constraint of the schema, a row that
-- `fetch_one` does not find, NULL in a column that is read as a text, and a connection that fails.
pub data DriverError : Type 0 where
  primary_key unique foreign_key row_not_found null_column io : DriverError

-- What could not be read back.
pub data Corruption : Type 0 where
  recording_status delivery_status : String → Corruption

-- `StorageError`; `database` is an error of the driver, and `migrate` does not occur after `connect`.
pub data StorageError : Type 0 where
  database : DriverError → StorageError
  invalid_transition : InvalidTransition → StorageError
  recording_not_found delivery_not_found : String → StorageError
  -- the id and the current status
  recording_not_backlogged : String → String → StorageError
  -- the id, the current status and the kind of retry
  recording_not_retryable : String → String → String → StorageError
  corrupt : Corruption → StorageError

pub data Result {ℓ} (A : Type ℓ) : Type ℓ where
  ok : A → Result A
  err : StorageError → Result A

pub record RecordingRow : Type 0 where
  pub id : String
  pub client_id : String
  pub client_recording_id : String
  pub status : String
  pub original_filename : Option String
  pub blob_path : Option String
  pub audio_size_bytes : Option ℤ
  pub audio_duration_ms : Option ℤ
  pub sample_rate_hz : Option ℤ
  pub channels : Option ℤ
  pub bits_per_sample : Option ℤ
  pub tags : Tags
  pub recorded_at : Option Time
  pub received_at : Time
  pub selected_sink_name : Option String
  pub latest_error : Option String
  pub created_at : Time
  pub updated_at : Time
  pub retry_window_started_at : Option Time

pub record DeliveryRow : Type 0 where
  pub id : String
  pub recording_id : String
  pub sink_name : String
  pub status : String
  pub selected_at : Time
  pub completed_at : Option Time
  pub retry_deadline_at : Option Time
  pub latest_error : Option String
  pub retry_window_started_at : Option Time

pub record LoginFailure : Type 0 where
  pub id : String
  pub username : String
  pub remote_ip : String
  pub failed_at : Time

pub record Db : Type 0 where
  pub recordings : List RecordingRow
  pub transcripts : List Transcript
  pub transcription_attempts : List TranscriptionAttempt
  pub deliveries : List DeliveryRow
  pub delivery_attempts : List DeliveryAttempt
  pub operator_sessions : List OperatorSession
  pub login_failures : List LoginFailure
  pub audit_events : List AuditEvent

abbrev pub empty_db : Db
empty_db = record {
  recordings = [];
  transcripts = [];
  transcription_attempts = [];
  deliveries = [];
  delivery_attempts = [];
  operator_sessions = [];
  login_failures = [];
  audit_events = [];
}

abbrev pub recording_of : RecordingRow → RecordingStatus → Recording
recording_of row status = record {
  id = row.id;
  client_id = row.client_id;
  client_recording_id = row.client_recording_id;
  status = status;
  original_filename = row.original_filename;
  blob_path = row.blob_path;
  audio_size_bytes = row.audio_size_bytes;
  audio_duration_ms = row.audio_duration_ms;
  sample_rate_hz = row.sample_rate_hz;
  channels = row.channels;
  bits_per_sample = row.bits_per_sample;
  tags = row.tags;
  recorded_at = row.recorded_at;
  received_at = row.received_at;
  selected_sink_name = row.selected_sink_name;
  latest_error = row.latest_error;
  created_at = row.created_at;
  updated_at = row.updated_at;
}

-- `RecordingStatus::parse(..).map_err(Corrupt)`
abbrev pub parse_status : String → Result RecordingStatus
parse_status value = elim (Status.parse value) [
  | Parsed.ok status ↦ ok status
  | Parsed.unknown text ↦ err (corrupt (recording_status text))
]

-- `RecordingRow::into_domain`
unfoldable pub recording_into_domain : RecordingRow → Result Recording
recording_into_domain row = elim (parse_status row.status) [
  | ok status ↦ ok (recording_of row status)
  | err e ↦ err e
]

abbrev delivery_of : DeliveryRow → DeliveryStatus.DeliveryStatus → Delivery
delivery_of row status = record {
  id = row.id;
  recording_id = row.recording_id;
  sink_name = row.sink_name;
  status = status;
  selected_at = row.selected_at;
  completed_at = row.completed_at;
  retry_deadline_at = row.retry_deadline_at;
  latest_error = row.latest_error;
}

-- `DeliveryRow::into_domain`
unfoldable pub delivery_into_domain : DeliveryRow → Result Delivery
delivery_into_domain row = elim (DeliveryStatus.parse row.status) [
  | Parsed.ok status ↦ ok (delivery_of row status)
  | Parsed.unknown text ↦ err (corrupt (delivery_status text))
]
