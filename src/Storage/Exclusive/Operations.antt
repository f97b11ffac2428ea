-- ===== src/Storage/Exclusive/Operations.antt =====
-- The operations of src/storage/sqlite.rs that start no attempt, and the attempts in flight.
use telegraph_center.Base.{
  ℕ, String, ◌≡◌, refl, Bool, true, false, Option, none, some, ◌==◌, sym, subst, inl, inr,
  Bool-cases,
}
use telegraph_center.Base.Table.{exists_row}
use telegraph_center.Retry.{Time}
use telegraph_center.Domain.Entities.{Transcript}
use telegraph_center.Domain.DeliveryStatus.{DeliveryStatus}
use telegraph_center.Storage.Rows.{StorageError, Db, Result, RecordingRow}
use telegraph_center.Storage.Tx.{Tx, transaction, reading, ◌then_read◌}
use telegraph_center.Storage.Statements.{NewDelivery}
use telegraph_center.Storage.Acts.{
  Acts, Keeps, Keeps-modify, Acts-bind-left, Acts-bind-right, Acts-Keeps, transaction-Acts,
  keeps_rules, then_read-preserves,
}
use telegraph_center.Storage.Recordings.{
  create_recording, insert_recording, NewRecording, mark_backlogged, update_recording_status,
  has_key,
}
use telegraph_center.Storage.Transcription.{
  store_transcript, succeed_transcription, retry_transcription, fail_transcription,
  claim_received_for_transcription, claim_received,
}
use telegraph_center.Storage.Routing.{select_sink, route_to_sink, claim_routing, route_claimed}
use telegraph_center.Storage.Deliveries.{
  complete_delivery, note_error, succeed_delivery, retry_delivery, fail_delivery,
}
use telegraph_center.Storage.Manual.{
  ManualRoute, ManualRetryTranscription, ManualRetryDelivery, manual_route,
  manual_retry_transcription, manual_retry_delivery, open_retry_window, delivery_id_for_recording,
}
use telegraph_center.Storage.Exclusive.{Attempts, attempts_of, IsExclusive, StaysExclusive}
use telegraph_center.Storage.Exclusive.Frames.{
  attempt_rules, finish_transcription_attempt-Acts, finish_delivery_attempt-Acts,
}
use telegraph_center.Storage.Exclusive.Start.{Exclusive}

ruleset claim_rules = (
  Acts-bind-left, Acts-bind-right, finish_transcription_attempt-Acts, finish_delivery_attempt-Acts,
  attempt_rules,
)

Stays-refl : (x : Attempts) → StaysExclusive x x
Stays-refl x h = h

pub stays :
    {A : Type 0} (m : Tx A)
    → Acts attempts_of StaysExclusive m
    → (db : Db) → IsExclusive (attempts_of db)
    → IsExclusive (attempts_of (transaction m db).1)
stays m am db h = transaction-Acts m Stays-refl am db h

-- A method that is a transaction and a read after it.
stays_then_read :
    {A B : Type 0} (m : Tx A) (f : A → Db → Result B)
    → Acts attempts_of StaysExclusive m
    → (db : Db) → Exclusive db
    → Exclusive ((transaction m then_read λ a. reading (f a)) db).1
stays_then_read m f am db h = then_read-preserves Exclusive (transaction m) f db (stays m am db h)

module _ (text_before : Time → Time → Bool) where
  claim_received-attempts :
      (row : Option RecordingRow) (now : Time)
      → Keeps attempts_of (claim_received text_before row now)
  unfolding claim_received
  claim_received-attempts none now = search attempt_rules
  claim_received-attempts (some row) now = search attempt_rules

insert_recording-attempts :
    (new : NewRecording) (db : Db) → attempts_of (insert_recording new db).1 ≡ attempts_of db
unfolding insert_recording
insert_recording-attempts new db =
    elim (Bool-cases (exists_row (has_key new.client_id new.client_recording_id) db.recordings)) [
      | inl known ↦ rw known refl
      | inr unknown ↦
          rw unknown (elim (Bool-cases (exists_row (λ r. r.id == new.id) db.recordings)) [
            | inl taken ↦ rw taken refl
            | inr fresh ↦ rw fresh refl
          ])
    ]

pub create_recording-Exclusive :
    (lost : Option StorageError) (new : NewRecording) (db : Db)
    → Exclusive db
    → Exclusive (create_recording lost new db).1
unfolding create_recording
create_recording-Exclusive lost new db h =
    then_read-preserves Exclusive _ _ db
      (subst IsExclusive (sym (insert_recording-attempts new db)) h)

-- An operation that writes to no table of attempts.
quiet :
    {A : Type 0} (m : Tx A)
    → Keeps attempts_of m
    → (db : Db) → Exclusive db
    → Exclusive (transaction m db).1
quiet m km db h = stays m (Acts-Keeps Stays-refl m km) db h

quiet_then_read :
    {A B : Type 0} (m : Tx A) (f : A → Db → Result B)
    → Keeps attempts_of m
    → (db : Db) → Exclusive db
    → Exclusive ((transaction m then_read λ a. reading (f a)) db).1
quiet_then_read m f km db h = stays_then_read m f (Acts-Keeps Stays-refl m km) db h

pub mark_backlogged-Exclusive :
    (id : String) (at : Time) (db : Db) → Exclusive db → Exclusive (mark_backlogged id at db).1
unfolding mark_backlogged update_recording_status
mark_backlogged-Exclusive id at db h = quiet_then_read _ _ (search attempt_rules) db h

pub store_transcript-Exclusive :
    (new : Transcript) (db : Db) → Exclusive db → Exclusive (store_transcript new db).1
unfolding store_transcript
store_transcript-Exclusive new db h = quiet_then_read _ _ (search attempt_rules) db h

pub claim-Exclusive :
    (text_before : Time → Time → Bool) (now : Time) (db : Db)
    → Exclusive db
    → Exclusive (claim_received_for_transcription text_before now db).1
unfolding claim_received_for_transcription
claim-Exclusive text_before now db h =
    quiet_then_read _ _ (search (attempt_rules, claim_received-attempts text_before)) db h

pub succeed_transcription-Exclusive :
    (id : String) (at : Time) (t : Transcript) (db : Db)
    → Exclusive db
    → Exclusive (succeed_transcription id at t db).1
unfolding succeed_transcription
succeed_transcription-Exclusive id at t db h = stays_then_read _ _ (search claim_rules depth 9) db h

pub retry_transcription-Exclusive :
    (id rid : String) (at : Time) (code message : String) (db : Db)
    → Exclusive db
    → Exclusive (retry_transcription id rid at code message db).1
unfolding retry_transcription
retry_transcription-Exclusive id rid at code message db h = stays _ (search claim_rules) db h

pub fail_transcription-Exclusive :
    (id rid : String) (at : Time) (code message : String) (db : Db)
    → Exclusive db
    → Exclusive (fail_transcription id rid at code message db).1
unfolding fail_transcription
fail_transcription-Exclusive id rid at code message db h =
    stays_then_read _ _ (search claim_rules depth 9) db h

pub select_sink-Exclusive :
    (new : NewDelivery) (db : Db) → Exclusive db → Exclusive (select_sink new db).1
unfolding select_sink
select_sink-Exclusive new db h = quiet_then_read _ _ (search attempt_rules) db h

claim_routing-attempts : (id : String) (at : Time) → Keeps attempts_of (claim_routing id at)
unfolding claim_routing
claim_routing-attempts id at = search (keeps_rules, Keeps-modify)

route_claimed-attempts :
    (new : NewDelivery) (found : Bool) → Keeps attempts_of (route_claimed new found)
unfolding route_claimed
route_claimed-attempts new false = search attempt_rules
route_claimed-attempts new true = search attempt_rules

pub route_to_sink-Exclusive :
    (new : NewDelivery) (db : Db) → Exclusive db → Exclusive (route_to_sink new db).1
unfolding route_to_sink
route_to_sink-Exclusive new db h =
    quiet_then_read _ _ (search (keeps_rules, claim_routing-attempts, route_claimed-attempts)) db h

note_error-attempts : (id : String) (e : Option String) → Keeps attempts_of (note_error id e)
unfolding note_error
note_error-attempts id none = search attempt_rules
note_error-attempts id (some m) = search attempt_rules

pub complete_delivery-Exclusive :
    (id : String) (s : DeliveryStatus) (at : Time) (e : Option String) (db : Db)
    → Exclusive db
    → Exclusive (complete_delivery id s at e db).1
unfolding complete_delivery
complete_delivery-Exclusive id s at e db h =
    quiet_then_read _ _ (search (attempt_rules, note_error-attempts) depth 9) db h

pub succeed_delivery-Exclusive :
    (id did : String) (at : Time) (http : Option ℕ) (db : Db)
    → Exclusive db
    → Exclusive (succeed_delivery id did at http db).1
unfolding succeed_delivery
succeed_delivery-Exclusive id did at http db h =
    stays_then_read _ _ (search claim_rules depth 9) db h

pub retry_delivery-Exclusive :
    (id did : String) (at : Time) (http : Option ℕ) (message : String) (db : Db)
    → Exclusive db
    → Exclusive (retry_delivery id did at http message db).1
unfolding retry_delivery
retry_delivery-Exclusive id did at http message db h = stays _ (search claim_rules depth 9) db h

pub fail_delivery-Exclusive :
    (id did : String) (at : Time) (http : Option ℕ) (message : String) (db : Db)
    → Exclusive db
    → Exclusive (fail_delivery id did at http message db).1
unfolding fail_delivery
fail_delivery-Exclusive id did at http message db h =
    stays_then_read _ _ (search claim_rules depth 12) db h

pub manual_route-Exclusive :
    (json : String → String) (input : ManualRoute) (db : Db)
    → Exclusive db
    → Exclusive (manual_route json input db).1
unfolding manual_route
manual_route-Exclusive json input db h = quiet_then_read _ _ (search attempt_rules depth 12) db h

pub manual_retry_transcription-Exclusive :
    (input : ManualRetryTranscription) (db : Db)
    → Exclusive db
    → Exclusive (manual_retry_transcription input db).1
unfolding manual_retry_transcription open_retry_window
manual_retry_transcription-Exclusive input db h =
    quiet_then_read _ _ (search attempt_rules depth 12) db h

pub manual_retry_delivery-Exclusive :
    (input : ManualRetryDelivery) (db : Db)
    → Exclusive db
    → Exclusive (manual_retry_delivery input db).1
unfolding manual_retry_delivery delivery_id_for_recording
manual_retry_delivery-Exclusive input db h =
    quiet_then_read _ _ (search attempt_rules depth 12) db h
