-- ===== src/Storage/Statements.antt =====
-- The internal helpers of src/storage/sqlite.rs, which run inside a transaction. An INSERT appends
-- a row after the schema's PRIMARY KEY, UNIQUE and FOREIGN KEY checks of
-- migrations/0001_initial.sql.
use telegraph_center.Base.{String, Bool, not, Option, none, some, [], ◌∷◌, ◌++◌, ◌==◌, ℕ}
use telegraph_center.Base.Table.{select_one, exists_row, update_where}
use telegraph_center.Retry.{Time}
use telegraph_center.Domain.Status
use telegraph_center.Domain.Status.{RecordingStatus, TransitionResult, transition_to}
use telegraph_center.Domain.DeliveryStatus
use telegraph_center.Domain.DeliveryStatus.{DeliveryStatus}
use telegraph_center.Domain.Entities.{Transcript, TranscriptionAttempt, DeliveryAttempt, AuditEvent}
use telegraph_center.Storage.Rows.{
  Db, RecordingRow, DeliveryRow, database, primary_key, unique, foreign_key, invalid_transition,
  recording_not_found, delivery_not_found, parse_status,
}
use telegraph_center.Storage.Tx.{Tx, pure, fail, lift, require, gets, modify, guard, ◌>>=◌, ◌>>◌}

-- SELECT ... FROM recordings WHERE id = ?
abbrev pub find_recording : String → Db → Option RecordingRow
find_recording id db = select_one (λ r. r.id == id) db.recordings

-- UPDATE recordings SET ... WHERE id = ?
abbrev pub update_recording : String → (RecordingRow → RecordingRow) → Db → Db
update_recording id f db = record db { recordings = update_where (λ r. r.id == id) f db.recordings }

-- SELECT ... FROM deliveries WHERE id = ?
abbrev pub find_delivery : String → Db → Option DeliveryRow
find_delivery id db = select_one (λ d. d.id == id) db.deliveries

-- UPDATE deliveries SET ... WHERE id = ?
abbrev pub update_delivery : String → (DeliveryRow → DeliveryRow) → Db → Db
update_delivery id f db = record db { deliveries = update_where (λ d. d.id == id) f db.deliveries }

-- SELECT status FROM recordings WHERE id = ?, required and parsed
unfoldable pub current_status : String → Tx RecordingStatus
current_status recording_id = do
  row ← gets (find_recording recording_id)
  found ← require (recording_not_found recording_id) row
  lift (parse_status found.status)

-- `current.transition_to(next)?`
abbrev pub check_transition : TransitionResult → Tx (Unit {0})
check_transition TransitionResult.allowed = pure tt
check_transition (TransitionResult.invalid e) = fail (invalid_transition e)

abbrev pub set_status : RecordingStatus → Time → RecordingRow → RecordingRow
set_status next at r = record r { status = Status.as_str next; updated_at = at }

unfoldable pub guarded_transition : String → RecordingStatus → Time → Tx (Unit {0})
guarded_transition id next at = do
  current ← current_status id
  check_transition (transition_to current next)
  modify (update_recording id (set_status next at))

unfoldable pub set_recording_error : String → Time → String → Tx (Unit {0})
set_recording_error recording_id at message =
    modify (
      update_recording recording_id
        (λ r. record r { latest_error = some message; updated_at = at }))

unfoldable pub clear_recording_error : String → Tx (Unit {0})
clear_recording_error recording_id =
    modify (update_recording recording_id (λ r. record r { latest_error = none }))

unfoldable pub finish_transcription_attempt :
    String → Time → String → Bool → Option String → Option String → Tx (Unit {0})
finish_transcription_attempt attempt_id finished_at status retryable error_code error_message =
    modify λ db. record db {
      transcription_attempts =
          update_where (λ a. a.id == attempt_id)
            (λ a. record a {
              finished_at = some finished_at;
              status = status;
              retryable = retryable;
              error_code = error_code;
              error_message = error_message;
            })
            db.transcription_attempts;
    }

unfoldable pub finish_delivery_attempt :
    String → Time → String → Bool → Option ℕ → Option String → Tx (Unit {0})
finish_delivery_attempt attempt_id finished_at status retryable http_status error_message =
    modify λ db. record db {
      delivery_attempts =
          update_where (λ a. a.id == attempt_id)
            (λ a. record a {
              finished_at = some finished_at;
              status = status;
              retryable = retryable;
              http_status = http_status;
              error_message = error_message;
            })
            db.delivery_attempts;
    }

-- `NewTranscript` has the fields of `Transcript`.
unfoldable pub insert_transcript : Transcript → Tx (Unit {0})
insert_transcript new = do
  seen ← gets (λ db. exists_row (λ t. t.recording_id == new.recording_id) db.transcripts)
  guard (not seen) (database primary_key)
  known ← gets (λ db. exists_row (λ r. r.id == new.recording_id) db.recordings)
  guard known (database foreign_key)
  modify (λ db. record db { transcripts = db.transcripts ++ new ∷ [] })

-- The INSERT INTO transcription_attempts, whose row the caller gives.
unfoldable pub insert_transcription_attempt_row : TranscriptionAttempt → Tx (Unit {0})
insert_transcription_attempt_row new = do
  seen ← gets (λ db. exists_row (λ a. a.id == new.id) db.transcription_attempts)
  guard (not seen) (database primary_key)
  known ← gets (λ db. exists_row (λ r. r.id == new.recording_id) db.recordings)
  guard known (database foreign_key)
  modify (λ db. record db { transcription_attempts = db.transcription_attempts ++ new ∷ [] })

-- The INSERT INTO delivery_attempts, whose row the caller gives.
unfoldable pub insert_delivery_attempt_row : DeliveryAttempt → Tx (Unit {0})
insert_delivery_attempt_row new = do
  seen ← gets (λ db. exists_row (λ a. a.id == new.id) db.delivery_attempts)
  guard (not seen) (database primary_key)
  known ← gets (λ db. exists_row (λ d. d.id == new.delivery_id) db.deliveries)
  guard known (database foreign_key)
  modify (λ db. record db { delivery_attempts = db.delivery_attempts ++ new ∷ [] })

unfoldable pub recording_id_for_delivery : String → Tx String
recording_id_for_delivery delivery_id = do
  row ← gets (find_delivery delivery_id)
  found ← require (delivery_not_found delivery_id) row
  pure found.recording_id

pub record NewDelivery : Type 0 where
  pub id : String
  pub recording_id : String
  pub sink_name : String
  pub selected_at : Time
  pub retry_deadline_at : Option Time

abbrev pub new_delivery_row : NewDelivery → DeliveryRow
new_delivery_row new = record {
  id = new.id;
  recording_id = new.recording_id;
  sink_name = new.sink_name;
  status = DeliveryStatus.as_str DeliveryStatus.delivering;
  selected_at = new.selected_at;
  completed_at = none;
  retry_deadline_at = new.retry_deadline_at;
  latest_error = none;
  retry_window_started_at = none;
}

unfoldable pub insert_delivery : NewDelivery → Tx (Unit {0})
insert_delivery new = do
  seen ← gets (λ db. exists_row (λ d. d.id == new.id) db.deliveries)
  guard (not seen) (database primary_key)
  taken ← gets (λ db. exists_row (λ d. d.recording_id == new.recording_id) db.deliveries)
  guard (not taken) (database unique)
  known ← gets (λ db. exists_row (λ r. r.id == new.recording_id) db.recordings)
  guard known (database foreign_key)
  modify (λ db. record db { deliveries = db.deliveries ++ new_delivery_row new ∷ [] })
  modify (
      update_recording new.recording_id (λ r. record r { selected_sink_name = some new.sink_name }))

-- `NewAuditEvent` has the fields of `AuditEvent`.
unfoldable pub insert_audit_event_tx : AuditEvent → Tx (Unit {0})
insert_audit_event_tx new = do
  seen ← gets (λ db. exists_row (λ e. e.id == new.id) db.audit_events)
  guard (not seen) (database primary_key)
  modify (λ db. record db { audit_events = db.audit_events ++ new ∷ [] })
