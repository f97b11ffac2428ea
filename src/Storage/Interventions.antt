-- ===== src/Storage/Interventions.antt =====
-- The status of a Recording under the Operator's actions.
use telegraph_center.Base.{String, refl, ◌==◌}
use telegraph_center.Retry.{Time}
use telegraph_center.Storage.Rows.{Db}
use telegraph_center.Storage.View.{status_of, status_in-update_where}
use telegraph_center.Storage.Acts.{Keeps, Keeps-modify, keeps_rules}
use telegraph_center.Storage.Transition.{Advances}
use telegraph_center.Storage.Manual.{
  ManualRoute, ManualRetryTranscription, ManualRetryDelivery, manual_route,
  manual_retry_transcription, manual_retry_delivery, open_retry_window, delivery_id_for_recording,
}
use telegraph_center.Storage.Moves.{Advances-then_read, move_rules}

module _ (i : String) where
  pub manual_route-Advances :
      (json : String → String) (input : ManualRoute) (db : Db)
      → Advances (status_of i db) (status_of i (manual_route json input db).1)
  unfolding manual_route
  manual_route-Advances json input db = Advances-then_read i _ _ (search move_rules depth 9) db

  pub open_retry_window-Keeps :
      (id : String) (at : Time) → Keeps (status_of i) (open_retry_window id at)
  unfolding open_retry_window
  open_retry_window-Keeps id at =
      Keeps-modify _
        (λ db. status_in-update_where i (λ r. r.id == id) _ db.recordings (λ r. refl) (λ r. refl))

  pub manual_retry_transcription-Advances :
      (input : ManualRetryTranscription) (db : Db)
      → Advances (status_of i db) (status_of i (manual_retry_transcription input db).1)
  unfolding manual_retry_transcription
  manual_retry_transcription-Advances input db =
      Advances-then_read i _ _ (search (move_rules, open_retry_window-Keeps) depth 9) db

  pub delivery_id_for_recording-Keeps :
      (id : String) → Keeps (status_of i) (delivery_id_for_recording id)
  unfolding delivery_id_for_recording
  delivery_id_for_recording-Keeps id = search keeps_rules

  pub manual_retry_delivery-Advances :
      (input : ManualRetryDelivery) (db : Db)
      → Advances (status_of i db) (status_of i (manual_retry_delivery input db).1)
  unfolding manual_retry_delivery
  manual_retry_delivery-Advances input db =
      Advances-then_read i _ _ (search (move_rules, delivery_id_for_recording-Keeps) depth 12) db
