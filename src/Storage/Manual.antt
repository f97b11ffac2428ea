-- ===== src/Storage/Manual.antt =====
-- The Operator's actions of src/storage/sqlite.rs: Manual Routing and the two Manual Retries.
use telegraph_center.Base.{String, Option, none, some, ◌==◌}
use telegraph_center.Base.Table.{select_one}
use telegraph_center.Retry.{Time}
use telegraph_center.Domain.Status
use telegraph_center.Domain.Status.{
  RecordingStatus, transcribing, delivering, backlogged, transcription_failed, delivery_failed,
  status_beq,
}
use telegraph_center.Domain.DeliveryStatus
use telegraph_center.Domain.Entities.{Recording, Delivery, AuditEvent}
use telegraph_center.Storage.Rows.{
  DeliveryRow, recording_not_backlogged, recording_not_retryable, delivery_not_found,
}
use telegraph_center.Storage.Tx.{
  Tx, Op, pure, require, gets, modify, guard, ◌>>=◌, ◌>>◌, transaction, reading, ◌then_read◌,
}
use telegraph_center.Storage.Statements.{
  insert_delivery, current_status, guarded_transition, clear_recording_error, insert_audit_event_tx,
  update_recording, update_delivery,
}
use telegraph_center.Storage.Recordings.{require_recording, require_delivery}

pub record ManualRoute : Type 0 where
  pub recording_id : String
  pub sink_name : String
  pub delivery_id : String
  pub audit_event_id : String
  pub selected_at : Time
  pub retry_deadline_at : Time
  pub actor_id : Option String

pub record ManualRetryTranscription : Type 0 where
  pub recording_id : String
  pub audit_event_id : String
  pub at : Time
  pub actor_id : Option String

pub record ManualRetryDelivery : Type 0 where
  pub recording_id : String
  pub audit_event_id : String
  pub at : Time
  pub retry_deadline_at : Time
  pub actor_id : Option String

-- The audit event of an Operator's action.
abbrev pub operator_event : String → Time → Option String → String → String → String → AuditEvent
operator_event id at actor_id event_type recording_id details = record {
  id = id;
  occurred_at = at;
  actor_kind = "operator";
  actor_id = actor_id;
  event_type = event_type;
  recording_id = some recording_id;
  details_json = details;
}

-- `sink_details` is the JSON text of {"sink": name}, which `serde_json` writes.
unfoldable pub manual_route : (String → String) → ManualRoute → Op Delivery
manual_route sink_details input =
    transaction (do
      status ← current_status input.recording_id
      guard (status_beq status backlogged)
          (recording_not_backlogged input.recording_id (Status.as_str status))
      insert_delivery (record {
        id = input.delivery_id;
        recording_id = input.recording_id;
        sink_name = input.sink_name;
        selected_at = input.selected_at;
        retry_deadline_at = some input.retry_deadline_at;
      })
      guarded_transition input.recording_id delivering input.selected_at
      insert_audit_event_tx (
          operator_event input.audit_event_id input.selected_at input.actor_id "manual_routing"
            input.recording_id (sink_details input.sink_name)))
    then_read λ _. reading (require_delivery input.delivery_id)

-- A fresh retry window, from which the next deadline is measured.
unfoldable pub open_retry_window : String → Time → Tx (Unit {0})
open_retry_window recording_id at =
    modify (update_recording recording_id (λ r. record r { retry_window_started_at = some at }))

unfoldable pub manual_retry_transcription : ManualRetryTranscription → Op Recording
manual_retry_transcription input =
    transaction (do
      status ← current_status input.recording_id
      guard (status_beq status transcription_failed)
          (recording_not_retryable input.recording_id (Status.as_str status) "transcription")
      guarded_transition input.recording_id transcribing input.at
      clear_recording_error input.recording_id
      open_retry_window input.recording_id input.at
      insert_audit_event_tx (
          operator_event input.audit_event_id input.at input.actor_id "manual_retry_transcription"
            input.recording_id "{}"))
    then_read λ _. reading (require_recording input.recording_id)

-- SET status = 'delivering', completed_at = NULL, retry_deadline_at = ?, latest_error = NULL, ...
abbrev pub reset_row : Time → Time → DeliveryRow → DeliveryRow
reset_row at deadline d = record d {
  status = DeliveryStatus.as_str DeliveryStatus.delivering;
  completed_at = none;
  retry_deadline_at = some deadline;
  latest_error = none;
  retry_window_started_at = some at;
}

-- SELECT id FROM deliveries WHERE recording_id = ?, required
unfoldable pub delivery_id_for_recording : String → Tx String
delivery_id_for_recording recording_id = do
  row ← gets (λ db. select_one (λ d. d.recording_id == recording_id) db.deliveries)
  found ← require (delivery_not_found recording_id) row
  pure found.id

unfoldable pub manual_retry_delivery : ManualRetryDelivery → Op Delivery
manual_retry_delivery input =
    transaction (do
      status ← current_status input.recording_id
      guard (status_beq status delivery_failed)
          (recording_not_retryable input.recording_id (Status.as_str status) "delivery")
      delivery_id ← delivery_id_for_recording input.recording_id
      modify (update_delivery delivery_id (reset_row input.at input.retry_deadline_at))
      guarded_transition input.recording_id delivering input.at
      clear_recording_error input.recording_id
      insert_audit_event_tx (
          operator_event input.audit_event_id input.at input.actor_id "manual_retry_delivery"
            input.recording_id "{}")
      pure delivery_id)
    then_read λ delivery_id. reading (require_delivery delivery_id)
