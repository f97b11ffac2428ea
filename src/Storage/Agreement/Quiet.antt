-- ===== src/Storage/Agreement/Quiet.antt =====
-- The operations of src/storage/sqlite.rs that leave the states of the Deliveries alone.
use telegraph_center.Base.{ℕ, String, refl, Bool, Option, none, some, arith}
use telegraph_center.Base.Table.Laws.{Distinct-update_where}
use telegraph_center.Retry.{Time}
use telegraph_center.Domain.Status
use telegraph_center.Domain.Status.{RecordingStatus}
use telegraph_center.Domain.Entities.{Transcript}
use telegraph_center.Storage.Rows.{Db, RecordingRow}
use telegraph_center.Storage.Tx.{Tx, modify, transaction}
use telegraph_center.Storage.Statements.{guarded_transition, update_delivery}
use telegraph_center.Storage.DeliveryFrames.{deliveries_of, delivery_rules}
use telegraph_center.Storage.IdFrames.{ids_of, id_rules, update_recording-Keeps}
use telegraph_center.Storage.View.{status_of}
use telegraph_center.Storage.Acts.{
  Acts, Keeps, Keeps-modify, Keeps-if, Acts-modify, Acts-bind-left, Acts-bind-right, Acts-Keeps,
  keeps_rules, then_read-preserves,
}
use telegraph_center.Storage.Frames.{status_rules}
use telegraph_center.Storage.Interventions.{open_retry_window-Keeps}
use telegraph_center.Storage.Starts.{transcription_insert_started-Keeps, insert_started-Keeps}
use telegraph_center.Storage.Recordings.{mark_backlogged}
use telegraph_center.Storage.Transcription.{
  store_transcript, succeed_transcription, retry_transcription, fail_transcription,
  claim_received_for_transcription, claim_received, start_transcription_attempt, insert_started,
  first_started,
}
use telegraph_center.Storage.Deliveries
use telegraph_center.Storage.Deliveries.{retry_delivery, start_delivery_attempt}
use telegraph_center.Storage.Manual.{
  ManualRetryTranscription, manual_retry_transcription, open_retry_window,
}
use telegraph_center.Storage.Agreement.{IsConsistent, state_in-update_where}
use telegraph_center.Storage.Agreement.Rules.{
  SamePromise, SameStates, SameStates-refl, guarded_transition-SamePromise, quiet-IsConsistent,
}

-- The transitions between statuses that promise no Delivery.
module _ (i id : String) (at : Time) where
  to_transcribing : Acts (status_of i) SamePromise (guarded_transition id Status.transcribing at)
  to_transcribing = guarded_transition-SamePromise i id _ at (λ s h. ground arith)

  to_routing : Acts (status_of i) SamePromise (guarded_transition id Status.routing at)
  to_routing = guarded_transition-SamePromise i id _ at (λ s h. ground arith)

  to_backlogged : Acts (status_of i) SamePromise (guarded_transition id Status.backlogged at)
  to_backlogged = guarded_transition-SamePromise i id _ at (λ s h. ground arith)

  to_transcription_failed :
      Acts (status_of i) SamePromise (guarded_transition id Status.transcription_failed at)
  to_transcription_failed = guarded_transition-SamePromise i id _ at (λ s h. ground arith)

ruleset promise_rules = (
  Acts-bind-left, Acts-bind-right, to_transcribing, to_routing, to_backlogged,
  to_transcription_failed, status_rules,
)

SamePromise-refl : (s : Option RecordingStatus) → SamePromise s s
SamePromise-refl s = refl

-- A method that touches no Delivery at all.
untouched-IsConsistent :
    {A : Type 0} (m : Tx A)
    → ((i : String) → Acts (status_of i) SamePromise m)
    → Keeps ids_of m
    → Keeps deliveries_of m
    → (db : Db) → IsConsistent db
    → IsConsistent (transaction m db).1
untouched-IsConsistent m promises ids rows =
    quiet-IsConsistent m promises ids (Acts-Keeps SameStates-refl m rows)

pub mark_backlogged-IsConsistent :
    (id : String) (at : Time) (db : Db)
    → IsConsistent db
    → IsConsistent (mark_backlogged id at db).1
unfolding mark_backlogged
mark_backlogged-IsConsistent id at db h = then_read-preserves IsConsistent _ _ db (
    untouched-IsConsistent (guarded_transition id Status.backlogged at) (λ i. to_backlogged i id at)
      (search id_rules) (search delivery_rules) db h)

pub store_transcript-IsConsistent :
    (new : Transcript) (db : Db) → IsConsistent db → IsConsistent (store_transcript new db).1
unfolding store_transcript
store_transcript-IsConsistent new db h = then_read-preserves IsConsistent _ _ db (
    untouched-IsConsistent _ (λ i. search promise_rules) (search id_rules) (search delivery_rules)
      db h)

pub succeed_transcription-IsConsistent :
    (id : String) (at : Time) (t : Transcript) (db : Db)
    → IsConsistent db
    → IsConsistent (succeed_transcription id at t db).1
unfolding succeed_transcription
succeed_transcription-IsConsistent id at t db h = then_read-preserves IsConsistent _ _ db (
    untouched-IsConsistent _ (λ i. search promise_rules) (search id_rules) (search delivery_rules)
      db h)

pub retry_transcription-IsConsistent :
    (id rid : String) (at : Time) (code m : String) (db : Db)
    → IsConsistent db
    → IsConsistent (retry_transcription id rid at code m db).1
unfolding retry_transcription
retry_transcription-IsConsistent id rid at code m db h =
    untouched-IsConsistent _ (λ i. Acts-Keeps SamePromise-refl _ (search status_rules))
      (search id_rules) (search delivery_rules) db h

pub fail_transcription-IsConsistent :
    (id rid : String) (at : Time) (code m : String) (db : Db)
    → IsConsistent db
    → IsConsistent (fail_transcription id rid at code m db).1
unfolding fail_transcription
fail_transcription-IsConsistent id rid at code m db h = then_read-preserves IsConsistent _ _ db (
    untouched-IsConsistent _ (λ i. search promise_rules) (search id_rules) (search delivery_rules)
      db h)

module _ (text_before : Time → Time → Bool) where
  claim_received-promises :
      (i : String) (row : Option RecordingRow) (now : Time)
      → Acts (status_of i) SamePromise (claim_received text_before row now)
  unfolding claim_received
  claim_received-promises i none now = Acts-Keeps SamePromise-refl _ (search status_rules)
  claim_received-promises i (some row) now = search promise_rules

  claim_received-ids :
      (row : Option RecordingRow) (now : Time) → Keeps ids_of (claim_received text_before row now)
  unfolding claim_received
  claim_received-ids none now = search id_rules
  claim_received-ids (some row) now = search id_rules

  claim_received-rows :
      (row : Option RecordingRow) (now : Time)
      → Keeps deliveries_of (claim_received text_before row now)
  unfolding claim_received
  claim_received-rows none now = search delivery_rules
  claim_received-rows (some row) now = search delivery_rules

  pub claim_received_for_transcription-IsConsistent :
      (now : Time) (db : Db)
      → IsConsistent db
      → IsConsistent (claim_received_for_transcription text_before now db).1
  unfolding claim_received_for_transcription
  claim_received_for_transcription-IsConsistent now db h = then_read-preserves IsConsistent _ _ db (
      untouched-IsConsistent _ (λ i. search (promise_rules, claim_received-promises))
        (search (id_rules, claim_received-ids)) (search (delivery_rules, claim_received-rows)) db h)

  first_started-ids :
      (id : String) (w : Option Time) → Keeps ids_of (first_started text_before id w)
  unfolding first_started
  first_started-ids id none = search keeps_rules
  first_started-ids id (some w) = search keeps_rules

  first_started-rows :
      (id : String) (w : Option Time) → Keeps deliveries_of (first_started text_before id w)
  unfolding first_started
  first_started-rows id none = search keeps_rules
  first_started-rows id (some w) = search keeps_rules

  insert_started-ids :
      (id rid : String) (now : Time) → Keeps ids_of (insert_started text_before id rid now)
  unfolding insert_started
  insert_started-ids id rid now = search (id_rules, first_started-ids) depth 9

  insert_started-rows :
      (id rid : String) (now : Time) → Keeps deliveries_of (insert_started text_before id rid now)
  unfolding insert_started
  insert_started-rows id rid now = search (delivery_rules, first_started-rows) depth 9

  pub start_transcription_attempt-IsConsistent :
      (id rid : String) (now : Time) (db : Db)
      → IsConsistent db
      → IsConsistent (start_transcription_attempt text_before id rid now db).1
  unfolding start_transcription_attempt
  start_transcription_attempt-IsConsistent id rid now db h =
      untouched-IsConsistent _
        (λ i.
          Acts-Keeps SamePromise-refl _
            (search (status_rules, Keeps-if, transcription_insert_started-Keeps)))
        (search (id_rules, Keeps-if, insert_started-ids))
        (search (delivery_rules, Keeps-if, insert_started-rows)) db h

delivery_insert_started-ids :
    (id k : String) (now : Time) → Keeps ids_of (Deliveries.insert_started id k now)
unfolding Deliveries.insert_started
delivery_insert_started-ids id k now = search id_rules

delivery_insert_started-rows :
    (id k : String) (now : Time) → Keeps deliveries_of (Deliveries.insert_started id k now)
unfolding Deliveries.insert_started
delivery_insert_started-rows id k now = search delivery_rules

pub start_delivery_attempt-IsConsistent :
    (id k : String) (now : Time) (db : Db)
    → IsConsistent db
    → IsConsistent (start_delivery_attempt id k now db).1
unfolding start_delivery_attempt
start_delivery_attempt-IsConsistent id k now db h =
    untouched-IsConsistent _
      (λ i. Acts-Keeps SamePromise-refl _ (search (status_rules, Keeps-if, insert_started-Keeps)))
      (search (id_rules, Keeps-if, delivery_insert_started-ids))
      (search (delivery_rules, Keeps-if, delivery_insert_started-rows)) db h

-- The error of a retryable failure is noted in the Delivery, whose state stays.
note_delivery-SameStates :
    (k m : String)
    → Acts deliveries_of SameStates
        (modify (update_delivery k (λ d. record d { latest_error = some m })))
note_delivery-SameStates k m = Acts-modify _ λ db. record {
  states = λ i. state_in-update_where i _ _ db.deliveries (λ r. refl) (λ r. refl);
  ids = Distinct-update_where (λ r. r.id) _ _ db.deliveries (λ r. refl);
  recording_ids = Distinct-update_where (λ r. r.recording_id) _ _ db.deliveries (λ r. refl);
}

pub retry_delivery-IsConsistent :
    (id k : String) (at : Time) (http : Option ℕ) (m : String) (db : Db)
    → IsConsistent db
    → IsConsistent (retry_delivery id k at http m db).1
unfolding retry_delivery
retry_delivery-IsConsistent id k at http m db h =
    quiet-IsConsistent _ (λ i. Acts-Keeps SamePromise-refl _ (search status_rules depth 9))
      (search id_rules depth 9)
      (search (Acts-bind-left, Acts-bind-right, note_delivery-SameStates, delivery_rules) depth 9)
      db h

open_retry_window-ids : (id : String) (at : Time) → Keeps ids_of (open_retry_window id at)
unfolding open_retry_window
open_retry_window-ids id at = update_recording-Keeps id _ (λ r. refl)

open_retry_window-rows : (id : String) (at : Time) → Keeps deliveries_of (open_retry_window id at)
unfolding open_retry_window
open_retry_window-rows id at = search Keeps-modify

pub manual_retry_transcription-IsConsistent :
    (input : ManualRetryTranscription) (db : Db)
    → IsConsistent db
    → IsConsistent (manual_retry_transcription input db).1
unfolding manual_retry_transcription
manual_retry_transcription-IsConsistent input db h = then_read-preserves IsConsistent _ _ db (
    untouched-IsConsistent _ (λ i. search (promise_rules, open_retry_window-Keeps) depth 9)
      (search (id_rules, open_retry_window-ids) depth 9)
      (search (delivery_rules, open_retry_window-rows) depth 9) db h)
