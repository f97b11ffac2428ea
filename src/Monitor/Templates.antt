-- ===== src/Monitor/Templates.antt =====
-- src/monitor/templates.rs: the view models of the pages. `format` is the RFC3339 text of an
-- instant, and the HTML of a page is the work of the crate askama.
use telegraph_center.Base.{ℕ, String, Bool, Option, List, [], ◌∷◌, map, map_option}
use Prim.Native.String.{◌++◌ as ◌<>◌}
use telegraph_center.Base.Int.{ℤ}
use telegraph_center.Retry.{Time}
use telegraph_center.Domain.Status
use telegraph_center.Domain.Status.{backlogged, transcription_failed, delivery_failed, status_beq}
use telegraph_center.Domain.DeliveryStatus
use telegraph_center.Domain.Entities.{
  Tags, Transcript, Delivery, TranscriptionAttempt, DeliveryAttempt, AuditEvent,
}
use telegraph_center.Storage.ReadModels.{RecordingSummary, RecordingDetail}

pub record SummaryView : Type 0 where
  pub id : String
  pub received_at : String
  pub client_id : String
  pub client_recording_id : String
  pub status : String
  pub tags : String
  pub selected_sink_name : Option String
  pub latest_error : Option String

pub record RecordingListTemplate : Type 0 where
  pub csrf_token : String
  pub active_filter : String
  pub rows : List SummaryView

pub record DetailView : Type 0 where
  pub id : String
  pub client_id : String
  pub client_recording_id : String
  pub status : String
  pub original_filename : Option String
  pub received_at : String
  pub recorded_at : Option String
  pub audio_size_bytes : Option ℤ
  pub audio_duration_ms : Option ℤ
  pub sample_rate_hz : Option ℤ
  pub channels : Option ℤ
  pub bits_per_sample : Option ℤ
  pub tags : String
  pub latest_error : Option String

pub record TranscriptView : Type 0 where
  pub provider : String
  pub text : String
  pub raw_json : String

pub record DeliveryView : Type 0 where
  pub sink_name : String
  pub status : String
  pub selected_at : String
  pub completed_at : Option String
  pub retry_deadline_at : Option String
  pub latest_error : Option String

pub record TranscriptionAttemptView : Type 0 where
  pub attempt_number : ℕ
  pub started_at : String
  pub finished_at : Option String
  pub status : String
  pub retryable : Bool
  pub error_code : Option String
  pub error_message : Option String

pub record DeliveryAttemptView : Type 0 where
  pub attempt_number : ℕ
  pub started_at : String
  pub finished_at : Option String
  pub status : String
  pub http_status : Option ℕ
  pub retryable : Bool
  pub error_message : Option String

pub record AuditView : Type 0 where
  pub occurred_at : String
  pub event_type : String
  pub actor_kind : String
  pub actor_id : Option String
  pub details_json : String

pub record RecordingDetailTemplate : Type 0 where
  pub csrf_token : String
  pub active_filter : String
  pub rec : DetailView
  pub transcript : Option TranscriptView
  pub delivery : Option DeliveryView
  pub transcription_attempts : List TranscriptionAttemptView
  pub delivery_attempts : List DeliveryAttemptView
  pub audit_events : List AuditView
  pub sinks : List String
  pub can_manual_route : Bool
  pub can_retry_transcription : Bool
  pub can_retry_delivery : Bool

-- `join(", ")`
unfoldable pub join_texts : List String → String
join_texts [] = ""
join_texts (text ∷ []) = text
join_texts (text ∷ next ∷ rest) = text <> (", " <> join_texts (next ∷ rest))

unfoldable pub join_tags : Tags → String
unfolding join_texts
join_tags tags = join_texts tags.values

abbrev transcript_view : Transcript → TranscriptView
transcript_view t = record { provider = t.provider; text = t.text; raw_json = t.raw_json }

module _ (format : Time → String) where
  unfoldable pub from_summary : RecordingSummary → SummaryView
  unfolding join_tags
  from_summary summary = record {
    id = summary.id;
    received_at = format summary.received_at;
    client_id = summary.client_id;
    client_recording_id = summary.client_recording_id;
    status = Status.as_str summary.status;
    tags = join_tags summary.tags;
    selected_sink_name = summary.selected_sink_name;
    latest_error = summary.latest_error;
  }

  abbrev delivery_view : Delivery → DeliveryView
  delivery_view d = record {
    sink_name = d.sink_name;
    status = DeliveryStatus.as_str d.status;
    selected_at = format d.selected_at;
    completed_at = map_option format d.completed_at;
    retry_deadline_at = map_option format d.retry_deadline_at;
    latest_error = d.latest_error;
  }

  abbrev transcription_attempt_view : TranscriptionAttempt → TranscriptionAttemptView
  transcription_attempt_view a = record {
    attempt_number = a.attempt_number;
    started_at = format a.started_at;
    finished_at = map_option format a.finished_at;
    status = a.status;
    retryable = a.retryable;
    error_code = a.error_code;
    error_message = a.error_message;
  }

  abbrev delivery_attempt_view : DeliveryAttempt → DeliveryAttemptView
  delivery_attempt_view a = record {
    attempt_number = a.attempt_number;
    started_at = format a.started_at;
    finished_at = map_option format a.finished_at;
    status = a.status;
    http_status = a.http_status;
    retryable = a.retryable;
    error_message = a.error_message;
  }

  abbrev audit_view : AuditEvent → AuditView
  audit_view e = record {
    occurred_at = format e.occurred_at;
    event_type = e.event_type;
    actor_kind = e.actor_kind;
    actor_id = e.actor_id;
    details_json = e.details_json;
  }

  unfoldable pub from_detail : RecordingDetail → String → List String → RecordingDetailTemplate
  unfolding join_tags
  from_detail detail csrf_token sinks = record {
    csrf_token = csrf_token;
    active_filter = "";
    rec = record {
      id = detail.recording.id;
      client_id = detail.recording.client_id;
      client_recording_id = detail.recording.client_recording_id;
      status = Status.as_str detail.recording.status;
      original_filename = detail.recording.original_filename;
      received_at = format detail.recording.received_at;
      recorded_at = map_option format detail.recording.recorded_at;
      audio_size_bytes = detail.recording.audio_size_bytes;
      audio_duration_ms = detail.recording.audio_duration_ms;
      sample_rate_hz = detail.recording.sample_rate_hz;
      channels = detail.recording.channels;
      bits_per_sample = detail.recording.bits_per_sample;
      tags = join_tags detail.recording.tags;
      latest_error = detail.recording.latest_error;
    };
    transcript = map_option transcript_view detail.transcript;
    delivery = map_option delivery_view detail.delivery;
    transcription_attempts = map transcription_attempt_view detail.transcription_attempts;
    delivery_attempts = map delivery_attempt_view detail.delivery_attempts;
    audit_events = map audit_view detail.audit_events;
    sinks = sinks;
    can_manual_route = status_beq detail.recording.status backlogged;
    can_retry_transcription = status_beq detail.recording.status transcription_failed;
    can_retry_delivery = status_beq detail.recording.status delivery_failed;
  }
