-- ===== src/Storage/Starts.antt =====
-- The status of a Recording under the claims and starts of attempts.
use telegraph_center.Base.{String, Bool, Option, none, some}
use telegraph_center.Retry.{Time}
use telegraph_center.Storage.Rows.{Db, RecordingRow}
use telegraph_center.Storage.View.{status_of}
use telegraph_center.Storage.Acts.{Keeps, Keeps-if, Acts, Acts-Keeps, keeps_rules}
use telegraph_center.Storage.Frames.{status_rules}
use telegraph_center.Storage.Transition.{Advances, Advances-refl}
use telegraph_center.Storage.Transcription.{
  claim_received_for_transcription, claim_received, start_transcription_attempt, insert_started,
  first_started,
}
use telegraph_center.Storage.Deliveries
use telegraph_center.Storage.Deliveries.{
  complete_delivery, note_error, succeed_delivery, retry_delivery, fail_delivery,
  start_delivery_attempt,
}
use telegraph_center.Storage.Moves.{Advances-then_read, advances, move_rules}

module _ (i : String) where
  pub insert_started-Keeps :
      (id did : String) (now : Time) → Keeps (status_of i) (Deliveries.insert_started id did now)
  unfolding Deliveries.insert_started
  insert_started-Keeps id did now = search status_rules

  pub start_delivery_attempt-Advances :
      (id did : String) (now : Time) (db : Db)
      → Advances (status_of i db) (status_of i (start_delivery_attempt id did now db).1)
  unfolding start_delivery_attempt
  start_delivery_attempt-Advances id did now db =
      advances i _
        (Acts-Keeps Advances-refl _ (search (status_rules, Keeps-if, insert_started-Keeps))) db

  claim_received-Acts :
      (text_before : Time → Time → Bool) (row : Option RecordingRow) (now : Time)
      → Acts (status_of i) Advances (claim_received text_before row now)
  unfolding claim_received
  claim_received-Acts text_before none now = Acts-Keeps Advances-refl _ (search status_rules)
  claim_received-Acts text_before (some row) now = search move_rules

  pub claim_received_for_transcription-Advances :
      (text_before : Time → Time → Bool) (now : Time) (db : Db)
      → Advances
          (status_of i db)
          (status_of i (claim_received_for_transcription text_before now db).1)
  unfolding claim_received_for_transcription
  claim_received_for_transcription-Advances text_before now db =
      Advances-then_read i _ _ (search (move_rules, claim_received-Acts)) db

  pub first_started-Keeps :
      (text_before : Time → Time → Bool) (id : String) (w : Option Time)
      → Keeps (status_of i) (first_started text_before id w)
  unfolding first_started
  first_started-Keeps text_before id none = search keeps_rules
  first_started-Keeps text_before id (some w) = search keeps_rules

  pub transcription_insert_started-Keeps :
      (text_before : Time → Time → Bool) (id rid : String) (now : Time)
      → Keeps (status_of i) (insert_started text_before id rid now)
  unfolding insert_started
  transcription_insert_started-Keeps text_before id rid now =
      search (status_rules, first_started-Keeps) depth 9

  pub start_transcription_attempt-Advances :
      (text_before : Time → Time → Bool) (id rid : String) (now : Time) (db : Db)
      → Advances
          (status_of i db)
          (status_of i (start_transcription_attempt text_before id rid now db).1)
  unfolding start_transcription_attempt
  start_transcription_attempt-Advances text_before id rid now db =
      advances i _
        (Acts-Keeps Advances-refl _
          (search (status_rules, Keeps-if, transcription_insert_started-Keeps)))
        db
