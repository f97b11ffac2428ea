-- ===== src/Storage/Exclusive/Frames.antt =====
-- The helpers of src/storage/sqlite.rs and the tables of attempts.
use telegraph_center.Base.{ℕ, String, Bool, Option, some, ◌==◌, arith}
use telegraph_center.Retry.{Time}
use telegraph_center.Domain.Status.{RecordingStatus, TransitionResult}
use telegraph_center.Domain.Entities.{Transcript, AuditEvent}
use telegraph_center.Storage.Rows.{DeliveryRow, RecordingRow}
use telegraph_center.Storage.Tx.{modify}
use telegraph_center.Storage.Statements.{
  current_status, check_transition, guarded_transition, set_recording_error, clear_recording_error,
  finish_transcription_attempt, finish_delivery_attempt, insert_transcript,
  recording_id_for_delivery, insert_audit_event_tx, update_recording, update_delivery, NewDelivery,
  insert_delivery,
}
use telegraph_center.Storage.Exclusive.{attempts_of, StaysExclusive, count_rows-update_where}
use telegraph_center.Storage.Transcription
use telegraph_center.Storage.Deliveries
use telegraph_center.Storage.Acts.{
  Acts, Acts-modify, Keeps, Keeps-modify, Keeps-pure, Keeps-fail, keeps_rules,
}

pub check_transition-Keeps : (r : TransitionResult) → Keeps attempts_of (check_transition r)
check_transition-Keeps TransitionResult.allowed = Keeps-pure tt
check_transition-Keeps (TransitionResult.invalid e) = Keeps-fail _

pub current_status-Keeps : (id : String) → Keeps attempts_of (current_status id)
unfolding current_status
current_status-Keeps id = search keeps_rules

pub guarded_transition-Keeps :
    (id : String) (s : RecordingStatus) (at : Time) → Keeps attempts_of (guarded_transition id s at)
unfolding guarded_transition
guarded_transition-Keeps id s at =
    search (keeps_rules, current_status-Keeps, check_transition-Keeps, Keeps-modify)

pub set_recording_error-Keeps :
    (id : String) (at : Time) (m : String) → Keeps attempts_of (set_recording_error id at m)
unfolding set_recording_error
set_recording_error-Keeps id at m = search Keeps-modify

pub clear_recording_error-Keeps : (id : String) → Keeps attempts_of (clear_recording_error id)
unfolding clear_recording_error
clear_recording_error-Keeps id = search Keeps-modify

pub insert_transcript-Keeps : (new : Transcript) → Keeps attempts_of (insert_transcript new)
unfolding insert_transcript
insert_transcript-Keeps new = search (keeps_rules, Keeps-modify)

pub insert_audit_event_tx-Keeps : (new : AuditEvent) → Keeps attempts_of (insert_audit_event_tx new)
unfolding insert_audit_event_tx
insert_audit_event_tx-Keeps new = search (keeps_rules, Keeps-modify)

pub recording_id_for_delivery-Keeps :
    (id : String) → Keeps attempts_of (recording_id_for_delivery id)
unfolding recording_id_for_delivery
recording_id_for_delivery-Keeps id = search keeps_rules

pub update_delivery-Keeps :
    (id : String) (f : DeliveryRow → DeliveryRow)
    → Keeps attempts_of (modify (update_delivery id f))
update_delivery-Keeps id f = search Keeps-modify

pub update_recording-Keeps :
    (id : String) (f : RecordingRow → RecordingRow)
    → Keeps attempts_of (modify (update_recording id f))
update_recording-Keeps id f = search Keeps-modify

pub insert_delivery-Keeps : (new : NewDelivery) → Keeps attempts_of (insert_delivery new)
unfolding insert_delivery
insert_delivery-Keeps new = search (keeps_rules, Keeps-modify) depth 12

pub ruleset attempt_rules = (
  keeps_rules, current_status-Keeps, guarded_transition-Keeps, set_recording_error-Keeps,
  clear_recording_error-Keeps, insert_transcript-Keeps, insert_audit_event_tx-Keeps,
  recording_id_for_delivery-Keeps, update_delivery-Keeps, update_recording-Keeps,
  insert_delivery-Keeps,
)

-- A finished attempt is in flight for nobody.
pub finish_transcription_attempt-Acts :
    (id : String) (at : Time) (status : String) (retryable : Bool) (code message : Option String)
    → Acts attempts_of StaysExclusive
        (finish_transcription_attempt id at status retryable code message)
unfolding finish_transcription_attempt
finish_transcription_attempt-Acts id at status retryable code message = Acts-modify _ λ db h.
    record {
      transcribing = λ rid.
          let fewer =
            count_rows-update_where (Transcription.is_open_for rid) (λ a. a.id == id)
              (λ a. record a {
                finished_at = some at;
                status = status;
                retryable = retryable;
                error_code = code;
                error_message = message;
              })
              db.transcription_attempts (λ r e. ground arith) in
          omega (arith, h.transcribing rid);
      delivering = h.delivering;
    }

pub finish_delivery_attempt-Acts :
    (id : String) (at : Time) (status : String) (retryable : Bool) (http : Option ℕ)
    (message : Option String)
    → Acts attempts_of StaysExclusive (finish_delivery_attempt id at status retryable http message)
unfolding finish_delivery_attempt
finish_delivery_attempt-Acts id at status retryable http message = Acts-modify _ λ db h. record {
  transcribing = h.transcribing;
  delivering = λ did.
      let fewer =
        count_rows-update_where (Deliveries.is_open_for did) (λ a. a.id == id)
          (λ a. record a {
            finished_at = some at;
            status = status;
            retryable = retryable;
            http_status = http;
            error_message = message;
          })
          db.delivery_attempts (λ r e. ground arith) in
      omega (arith, h.delivering did);
}
