-- ===== src/Storage/Frames.antt =====
-- The helpers of src/storage/sqlite.rs and the status of a Recording, as rules for `Keeps`.
use telegraph_center.Base.{ℕ, String, ◌≡◌, refl, Bool, Option, some, ap, ◌==◌}
use telegraph_center.Retry.{Time}
use telegraph_center.Domain.Entities.{Transcript, TranscriptionAttempt, DeliveryAttempt, AuditEvent}
use telegraph_center.Storage.Rows.{Db, RecordingRow, DeliveryRow}
use telegraph_center.Storage.Tx.{modify}
use telegraph_center.Storage.Statements.{
  current_status, set_recording_error, clear_recording_error, finish_transcription_attempt,
  finish_delivery_attempt, insert_transcript, insert_transcription_attempt_row,
  insert_delivery_attempt_row, recording_id_for_delivery, NewDelivery, insert_delivery,
  insert_audit_event_tx, update_recording, update_delivery,
}
use telegraph_center.Storage.View.{status_of, status_in, status_in-update_where}
use telegraph_center.Storage.Acts.{Keeps, Keeps-modify, keeps_rules}

-- A change of one Recording's row that keeps its id and its status.
module _ (i : String) where
  update_recording-status :
      (id : String) (f : RecordingRow → RecordingRow) (db : Db)
      → ((r : RecordingRow) → (f r).id ≡ r.id)
      → ((r : RecordingRow) → (f r).status ≡ r.status)
      → status_of i (update_recording id f db) ≡ status_of i db
  update_recording-status id f db ids same =
      status_in-update_where i (λ r. r.id == id) f db.recordings ids same

  pub current_status-Keeps : (id : String) → Keeps (status_of i) (current_status id)
  unfolding current_status
  current_status-Keeps id = search keeps_rules

  pub set_recording_error-Keeps :
      (id : String) (at : Time) (message : String)
      → Keeps (status_of i) (set_recording_error id at message)
  unfolding set_recording_error
  set_recording_error-Keeps id at message =
      Keeps-modify _ (λ db. update_recording-status id _ db (λ r. refl) (λ r. refl))

  pub clear_recording_error-Keeps : (id : String) → Keeps (status_of i) (clear_recording_error id)
  unfolding clear_recording_error
  clear_recording_error-Keeps id =
      Keeps-modify _ (λ db. update_recording-status id _ db (λ r. refl) (λ r. refl))

  pub finish_transcription_attempt-Keeps :
      (id : String) (at : Time) (status : String) (retryable : Bool) (code message : Option String)
      → Keeps (status_of i) (finish_transcription_attempt id at status retryable code message)
  unfolding finish_transcription_attempt
  finish_transcription_attempt-Keeps id at status retryable code message =
      Keeps-modify _ (λ db. refl)

  pub finish_delivery_attempt-Keeps :
      (id : String) (at : Time) (status : String) (retryable : Bool) (http : Option ℕ)
      (message : Option String)
      → Keeps (status_of i) (finish_delivery_attempt id at status retryable http message)
  unfolding finish_delivery_attempt
  finish_delivery_attempt-Keeps id at status retryable http message = Keeps-modify _ (λ db. refl)

  -- A change of other tables only.
  other_tables :
      (f : Db → Db)
      → ((db : Db) → (f db).recordings ≡ db.recordings)
      → Keeps (status_of i) (modify f)
  other_tables f h = Keeps-modify f (λ db. ap (status_in i) (h db))

  pub insert_transcript-Keeps : (new : Transcript) → Keeps (status_of i) (insert_transcript new)
  unfolding insert_transcript
  insert_transcript-Keeps new = search (keeps_rules, other_tables)

  pub insert_transcription_attempt_row-Keeps :
      (new : TranscriptionAttempt) → Keeps (status_of i) (insert_transcription_attempt_row new)
  unfolding insert_transcription_attempt_row
  insert_transcription_attempt_row-Keeps new = search (keeps_rules, other_tables)

  pub insert_delivery_attempt_row-Keeps :
      (new : DeliveryAttempt) → Keeps (status_of i) (insert_delivery_attempt_row new)
  unfolding insert_delivery_attempt_row
  insert_delivery_attempt_row-Keeps new = search (keeps_rules, other_tables)

  pub insert_audit_event_tx-Keeps :
      (new : AuditEvent) → Keeps (status_of i) (insert_audit_event_tx new)
  unfolding insert_audit_event_tx
  insert_audit_event_tx-Keeps new = search (keeps_rules, other_tables)

  pub recording_id_for_delivery-Keeps :
      (id : String) → Keeps (status_of i) (recording_id_for_delivery id)
  unfolding recording_id_for_delivery
  recording_id_for_delivery-Keeps id = search keeps_rules

  pub update_delivery-Keeps :
      (id : String) (f : DeliveryRow → DeliveryRow)
      → Keeps (status_of i) (modify (update_delivery id f))
  update_delivery-Keeps id f = Keeps-modify _ (λ db. refl)

  select_name-Keeps :
      (id name : String)
      → Keeps
          (status_of i)
          (modify (update_recording id (λ r. record r { selected_sink_name = some name })))
  select_name-Keeps id name =
      Keeps-modify _ (λ db. update_recording-status id _ db (λ r. refl) (λ r. refl))

  pub insert_delivery-Keeps : (new : NewDelivery) → Keeps (status_of i) (insert_delivery new)
  unfolding insert_delivery
  insert_delivery-Keeps new = search (keeps_rules, select_name-Keeps, other_tables) depth 12

-- The rules for the statuses; what they leave out is `guarded_transition`.
pub ruleset status_rules = (
  keeps_rules, current_status-Keeps, set_recording_error-Keeps, clear_recording_error-Keeps,
  finish_transcription_attempt-Keeps, finish_delivery_attempt-Keeps, insert_transcript-Keeps,
  insert_transcription_attempt_row-Keeps, insert_delivery_attempt_row-Keeps,
  insert_audit_event_tx-Keeps, recording_id_for_delivery-Keeps, update_delivery-Keeps,
  insert_delivery-Keeps,
)
