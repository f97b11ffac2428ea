-- ===== src/Storage/IdFrames.antt =====
-- The helpers of src/storage/sqlite.rs and the ids of the Recordings, as rules for `Keeps`.
use telegraph_center.Base.{ℕ, String, Bool, Option, some, List, map, ◌≡◌, refl, ◌==◌}
use telegraph_center.Base.Table.Laws.{map-update_where}
use telegraph_center.Retry.{Time}
use telegraph_center.Domain.Status.{RecordingStatus, TransitionResult}
use telegraph_center.Domain.Entities.{Transcript, TranscriptionAttempt, DeliveryAttempt, AuditEvent}
use telegraph_center.Storage.Rows.{Db, DeliveryRow, RecordingRow}
use telegraph_center.Storage.Tx.{modify}
use telegraph_center.Storage.Statements.{
  current_status, check_transition, guarded_transition, set_recording_error, clear_recording_error,
  finish_transcription_attempt, finish_delivery_attempt, insert_transcript,
  insert_transcription_attempt_row, insert_delivery_attempt_row, recording_id_for_delivery,
  insert_audit_event_tx, update_recording, update_delivery, NewDelivery, insert_delivery,
}
use telegraph_center.Storage.Acts.{Keeps, Keeps-modify, Keeps-pure, Keeps-fail, keeps_rules}

abbrev pub ids_of : Db → List String
ids_of db = map (λ r. r.id) db.recordings

-- A change of one Recording's row that keeps its id.
pub update_recording-Keeps :
    (id : String) (f : RecordingRow → RecordingRow)
    → ((r : RecordingRow) → (f r).id ≡ r.id)
    → Keeps ids_of (modify (update_recording id f))
update_recording-Keeps id f same =
    Keeps-modify _ (λ db. map-update_where (λ r. r.id) (λ r. r.id == id) f db.recordings same)

pub check_transition-Keeps : (r : TransitionResult) → Keeps ids_of (check_transition r)
check_transition-Keeps TransitionResult.allowed = Keeps-pure tt
check_transition-Keeps (TransitionResult.invalid e) = Keeps-fail _

pub current_status-Keeps : (id : String) → Keeps ids_of (current_status id)
unfolding current_status
current_status-Keeps id = search keeps_rules

pub guarded_transition-Keeps :
    (id : String) (s : RecordingStatus) (at : Time) → Keeps ids_of (guarded_transition id s at)
unfolding guarded_transition
guarded_transition-Keeps id s at =
    search (keeps_rules, current_status-Keeps, check_transition-Keeps, update_recording-Keeps)

pub set_recording_error-Keeps :
    (id : String) (at : Time) (m : String) → Keeps ids_of (set_recording_error id at m)
unfolding set_recording_error
set_recording_error-Keeps id at m = update_recording-Keeps id _ (λ r. refl)

pub clear_recording_error-Keeps : (id : String) → Keeps ids_of (clear_recording_error id)
unfolding clear_recording_error
clear_recording_error-Keeps id = update_recording-Keeps id _ (λ r. refl)

pub finish_transcription_attempt-Keeps :
    (id : String) (at : Time) (status : String) (retryable : Bool) (code message : Option String)
    → Keeps ids_of (finish_transcription_attempt id at status retryable code message)
unfolding finish_transcription_attempt
finish_transcription_attempt-Keeps id at status retryable code message = search Keeps-modify

pub finish_delivery_attempt-Keeps :
    (id : String) (at : Time) (status : String) (retryable : Bool) (http : Option ℕ)
    (message : Option String)
    → Keeps ids_of (finish_delivery_attempt id at status retryable http message)
unfolding finish_delivery_attempt
finish_delivery_attempt-Keeps id at status retryable http message = search Keeps-modify

pub insert_transcript-Keeps : (new : Transcript) → Keeps ids_of (insert_transcript new)
unfolding insert_transcript
insert_transcript-Keeps new = search (keeps_rules, Keeps-modify)

pub insert_transcription_attempt_row-Keeps :
    (new : TranscriptionAttempt) → Keeps ids_of (insert_transcription_attempt_row new)
unfolding insert_transcription_attempt_row
insert_transcription_attempt_row-Keeps new = search (keeps_rules, Keeps-modify)

pub insert_delivery_attempt_row-Keeps :
    (new : DeliveryAttempt) → Keeps ids_of (insert_delivery_attempt_row new)
unfolding insert_delivery_attempt_row
insert_delivery_attempt_row-Keeps new = search (keeps_rules, Keeps-modify)

pub insert_audit_event_tx-Keeps : (new : AuditEvent) → Keeps ids_of (insert_audit_event_tx new)
unfolding insert_audit_event_tx
insert_audit_event_tx-Keeps new = search (keeps_rules, Keeps-modify)

pub recording_id_for_delivery-Keeps : (id : String) → Keeps ids_of (recording_id_for_delivery id)
unfolding recording_id_for_delivery
recording_id_for_delivery-Keeps id = search keeps_rules

pub update_delivery-Keeps :
    (id : String) (f : DeliveryRow → DeliveryRow) → Keeps ids_of (modify (update_delivery id f))
update_delivery-Keeps id f = search Keeps-modify

select_name-Keeps :
    (id name : String)
    → Keeps ids_of (modify (update_recording id (λ r. record r { selected_sink_name = some name })))
select_name-Keeps id name = update_recording-Keeps id _ (λ r. refl)

pub insert_delivery-Keeps : (new : NewDelivery) → Keeps ids_of (insert_delivery new)
unfolding insert_delivery
insert_delivery-Keeps new = search (keeps_rules, select_name-Keeps, Keeps-modify) depth 12

pub ruleset id_rules = (
  keeps_rules, current_status-Keeps, guarded_transition-Keeps, set_recording_error-Keeps,
  clear_recording_error-Keeps, finish_transcription_attempt-Keeps, finish_delivery_attempt-Keeps,
  insert_transcript-Keeps, insert_transcription_attempt_row-Keeps,
  insert_delivery_attempt_row-Keeps, insert_audit_event_tx-Keeps, recording_id_for_delivery-Keeps,
  update_delivery-Keeps, insert_delivery-Keeps,
)
