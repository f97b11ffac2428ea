-- ===== src/Storage/DeliveryFrames.antt =====
-- The helpers of src/storage/sqlite.rs and the rows of the Deliveries, as rules for `Keeps`.
use telegraph_center.Base.{ℕ, String, Bool, Option, List}
use telegraph_center.Retry.{Time}
use telegraph_center.Domain.Status.{RecordingStatus, TransitionResult}
use telegraph_center.Domain.Entities.{Transcript, TranscriptionAttempt, DeliveryAttempt, AuditEvent}
use telegraph_center.Storage.Rows.{Db, DeliveryRow}
use telegraph_center.Storage.Statements.{
  current_status, check_transition, guarded_transition, set_recording_error, clear_recording_error,
  finish_transcription_attempt, finish_delivery_attempt, insert_transcript,
  insert_transcription_attempt_row, insert_delivery_attempt_row, recording_id_for_delivery,
  insert_audit_event_tx,
}
use telegraph_center.Storage.Acts.{Keeps, Keeps-modify, Keeps-pure, Keeps-fail, keeps_rules}

abbrev pub deliveries_of : Db → List DeliveryRow
deliveries_of db = db.deliveries

pub check_transition-Keeps : (r : TransitionResult) → Keeps deliveries_of (check_transition r)
check_transition-Keeps TransitionResult.allowed = Keeps-pure tt
check_transition-Keeps (TransitionResult.invalid e) = Keeps-fail _

pub current_status-Keeps : (id : String) → Keeps deliveries_of (current_status id)
unfolding current_status
current_status-Keeps id = search keeps_rules

pub guarded_transition-Keeps :
    (id : String) (s : RecordingStatus) (at : Time)
    → Keeps deliveries_of (guarded_transition id s at)
unfolding guarded_transition
guarded_transition-Keeps id s at =
    search (keeps_rules, current_status-Keeps, check_transition-Keeps, Keeps-modify)

pub set_recording_error-Keeps :
    (id : String) (at : Time) (m : String) → Keeps deliveries_of (set_recording_error id at m)
unfolding set_recording_error
set_recording_error-Keeps id at m = search Keeps-modify

pub clear_recording_error-Keeps : (id : String) → Keeps deliveries_of (clear_recording_error id)
unfolding clear_recording_error
clear_recording_error-Keeps id = search Keeps-modify

pub finish_transcription_attempt-Keeps :
    (id : String) (at : Time) (status : String) (retryable : Bool) (code message : Option String)
    → Keeps deliveries_of (finish_transcription_attempt id at status retryable code message)
unfolding finish_transcription_attempt
finish_transcription_attempt-Keeps id at status retryable code message = search Keeps-modify

pub finish_delivery_attempt-Keeps :
    (id : String) (at : Time) (status : String) (retryable : Bool) (http : Option ℕ)
    (message : Option String)
    → Keeps deliveries_of (finish_delivery_attempt id at status retryable http message)
unfolding finish_delivery_attempt
finish_delivery_attempt-Keeps id at status retryable http message = search Keeps-modify

pub insert_transcript-Keeps : (new : Transcript) → Keeps deliveries_of (insert_transcript new)
unfolding insert_transcript
insert_transcript-Keeps new = search (keeps_rules, Keeps-modify)

pub insert_transcription_attempt_row-Keeps :
    (new : TranscriptionAttempt) → Keeps deliveries_of (insert_transcription_attempt_row new)
unfolding insert_transcription_attempt_row
insert_transcription_attempt_row-Keeps new = search (keeps_rules, Keeps-modify)

pub insert_delivery_attempt_row-Keeps :
    (new : DeliveryAttempt) → Keeps deliveries_of (insert_delivery_attempt_row new)
unfolding insert_delivery_attempt_row
insert_delivery_attempt_row-Keeps new = search (keeps_rules, Keeps-modify)

pub insert_audit_event_tx-Keeps :
    (new : AuditEvent) → Keeps deliveries_of (insert_audit_event_tx new)
unfolding insert_audit_event_tx
insert_audit_event_tx-Keeps new = search (keeps_rules, Keeps-modify)

pub recording_id_for_delivery-Keeps :
    (id : String) → Keeps deliveries_of (recording_id_for_delivery id)
unfolding recording_id_for_delivery
recording_id_for_delivery-Keeps id = search keeps_rules

pub ruleset delivery_rules = (
  keeps_rules, current_status-Keeps, guarded_transition-Keeps, set_recording_error-Keeps,
  clear_recording_error-Keeps, finish_transcription_attempt-Keeps, finish_delivery_attempt-Keeps,
  insert_transcript-Keeps, insert_transcription_attempt_row-Keeps,
  insert_delivery_attempt_row-Keeps, insert_audit_event_tx-Keeps, recording_id_for_delivery-Keeps,
)
