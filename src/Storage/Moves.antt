-- ===== src/Storage/Moves.antt =====
-- The operations of src/storage/sqlite.rs that settle an attempt or route, and the status of a
-- Recording.
use telegraph_center.Base.{
  ℕ, String, ◌≡◌, refl, Bool, true, false, Option, none, some, arith, ◌==◌, eq_iff,
}
use telegraph_center.Retry.{Time}
use telegraph_center.Domain.Status
use telegraph_center.Domain.Status.{RecordingStatus, can_transition_to}
use telegraph_center.Domain.Status.Lifecycle.{parse-as_str}
use telegraph_center.Domain.DeliveryStatus.{DeliveryStatus}
use telegraph_center.Domain.Entities.{Transcript}
use telegraph_center.Storage.Rows.{Db, RecordingRow, Result}
use telegraph_center.Storage.Tx.{Tx, transaction, reading, ◌then_read◌}
use telegraph_center.Storage.Statements.{NewDelivery, set_status}
use telegraph_center.Storage.View.{
  status_of, status_in-update_where, status_in-update_related, seen,
}
use telegraph_center.Storage.Acts.{
  Keeps, Keeps-if, Keeps-modify, Acts, Acts-bind-left, Acts-bind-right, Acts-Keeps,
  transaction-Acts, then_read_state, keeps_rules,
}
use telegraph_center.Storage.Frames.{status_rules}
use telegraph_center.Storage.Transition.{Advances, Advances-refl, guarded_transition-Acts}
use telegraph_center.Storage.Recordings.{update_recording_status, mark_backlogged}
use telegraph_center.Storage.Transcription.{
  store_transcript, succeed_transcription, retry_transcription, fail_transcription,
}
use telegraph_center.Storage.Routing.{
  select_sink, route_to_sink, claim_routing, route_claimed, is_routing,
}
use telegraph_center.Storage.Deliveries.{
  complete_delivery, note_error, succeed_delivery, retry_delivery, fail_delivery,
}

pub ruleset move_rules = (Acts-bind-left, Acts-bind-right, guarded_transition-Acts, status_rules)

-- A method that is a transaction and a read after it.
module _ (i : String) where
  pub advances {ℓ} :
      {A : Type ℓ} (m : Tx A)
      → Acts (status_of i) Advances m
      → (db : Db) → Advances (status_of i db) (status_of i (transaction m db).1)
  advances m am db = transaction-Acts m Advances-refl am db

  pub Advances-then_read {ℓ} :
      {A B : Type ℓ} (m : Tx A) (f : A → Db → Result B)
      → Acts (status_of i) Advances m
      → (db : Db)
      → Advances (status_of i db) (status_of i ((transaction m then_read λ a. reading (f a)) db).1)
  Advances-then_read m f am db = rw (then_read_state (transaction m) f db) (advances m am db)

  pub update_recording_status-Advances :
      (id : String) (next : RecordingStatus) (at : Time) (db : Db)
      → Advances (status_of i db) (status_of i (update_recording_status id next at db).1)
  unfolding update_recording_status
  update_recording_status-Advances id next at db =
      Advances-then_read _ _ (guarded_transition-Acts i id next at) db

  pub mark_backlogged-Advances :
      (id : String) (at : Time) (db : Db)
      → Advances (status_of i db) (status_of i (mark_backlogged id at db).1)
  unfolding mark_backlogged
  mark_backlogged-Advances id at db = update_recording_status-Advances id Status.backlogged at db

  pub store_transcript-Advances :
      (new : Transcript) (db : Db)
      → Advances (status_of i db) (status_of i (store_transcript new db).1)
  unfolding store_transcript
  store_transcript-Advances new db = Advances-then_read _ _ (search move_rules) db

  pub succeed_transcription-Advances :
      (id : String) (at : Time) (t : Transcript) (db : Db)
      → Advances (status_of i db) (status_of i (succeed_transcription id at t db).1)
  unfolding succeed_transcription
  succeed_transcription-Advances id at t db = Advances-then_read _ _ (search move_rules) db

  pub retry_transcription-Advances :
      (id rid : String) (at : Time) (code message : String) (db : Db)
      → Advances (status_of i db) (status_of i (retry_transcription id rid at code message db).1)
  unfolding retry_transcription
  retry_transcription-Advances id rid at code message db =
      advances _ (Acts-Keeps Advances-refl _ (search status_rules)) db

  pub fail_transcription-Advances :
      (id rid : String) (at : Time) (code message : String) (db : Db)
      → Advances (status_of i db) (status_of i (fail_transcription id rid at code message db).1)
  unfolding fail_transcription
  fail_transcription-Advances id rid at code message db =
      Advances-then_read _ _ (search move_rules) db

  pub select_sink-Advances :
      (new : NewDelivery) (db : Db) → Advances (status_of i db) (status_of i (select_sink new db).1)
  unfolding select_sink
  select_sink-Advances new db = Advances-then_read _ _ (search move_rules) db

  leaves_routing :
      (id : String) (at : Time) (r : RecordingRow)
      → is_routing id r ≡ true
      → Advances (seen r) (seen (set_status Status.delivering at r))
  leaves_routing id at r h =
      let is_text = eq_iff r.status (Status.as_str Status.routing) in
      let parsed = parse-as_str Status.routing in
      let parsed' = parse-as_str Status.delivering in ground arith

  -- The UPDATE that claims a Recording for routing takes the transition from `routing`.
  claim_routing-Acts : (id : String) (at : Time) → Acts (status_of i) Advances (claim_routing id at)
  unfolding claim_routing
  claim_routing-Acts id at = Acts-bind-left _ _ (search keeps_rules) λ found.
      Acts-bind-right _ _
        (record {
          at = λ db u db' e.
              let step =
                status_in-update_related Advances i (is_routing id)
                  (set_status Status.delivering at) db.recordings Advances-refl (λ r. refl)
                  (leaves_routing id at) in
              ground arith;
        })
        (λ _. search keeps_rules)

  route_claimed-Keeps : (new : NewDelivery) (b : Bool) → Keeps (status_of i) (route_claimed new b)
  unfolding route_claimed
  route_claimed-Keeps new false = search status_rules
  route_claimed-Keeps new true = search status_rules

  pub route_to_sink-Advances :
      (new : NewDelivery) (db : Db)
      → Advances (status_of i db) (status_of i (route_to_sink new db).1)
  unfolding route_to_sink
  route_to_sink-Advances new db =
      Advances-then_read _ _
        (Acts-bind-right _ _ (claim_routing-Acts new.recording_id new.selected_at)
          (route_claimed-Keeps new))
        db

  pub note_error-Keeps : (id : String) (e : Option String) → Keeps (status_of i) (note_error id e)
  unfolding note_error
  note_error-Keeps id none = search status_rules
  note_error-Keeps id (some m) =
      Keeps-modify _
        (λ db. status_in-update_where i (λ r. r.id == id) _ db.recordings (λ r. refl) (λ r. refl))

  pub complete_delivery-Advances :
      (id : String) (s : DeliveryStatus) (at : Time) (e : Option String) (db : Db)
      → Advances (status_of i db) (status_of i (complete_delivery id s at e db).1)
  unfolding complete_delivery
  complete_delivery-Advances id s at e db =
      Advances-then_read _ _ (search (move_rules, note_error-Keeps) depth 9) db

  pub succeed_delivery-Advances :
      (id did : String) (at : Time) (http : Option ℕ) (db : Db)
      → Advances (status_of i db) (status_of i (succeed_delivery id did at http db).1)
  unfolding succeed_delivery
  succeed_delivery-Advances id did at http db =
      Advances-then_read _ _ (search move_rules depth 9) db

  pub retry_delivery-Advances :
      (id did : String) (at : Time) (http : Option ℕ) (message : String) (db : Db)
      → Advances (status_of i db) (status_of i (retry_delivery id did at http message db).1)
  unfolding retry_delivery
  retry_delivery-Advances id did at http message db =
      advances _ (Acts-Keeps Advances-refl _ (search status_rules depth 9)) db

  pub fail_delivery-Advances :
      (id did : String) (at : Time) (http : Option ℕ) (message : String) (db : Db)
      → Advances (status_of i db) (status_of i (fail_delivery id did at http message db).1)
  unfolding fail_delivery
  fail_delivery-Advances id did at http message db =
      Advances-then_read _ _ (search move_rules depth 9) db
