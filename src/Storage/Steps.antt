-- ===== src/Storage/Steps.antt =====
-- The histories of the database. An operation of src/storage/sqlite.rs is a step of a relation, so
-- that every interleaving of the workers, the uploads and the Operator is a sequence of steps, with
-- restarts of the service in between.
use telegraph_center.Base.{ℕ, String, Bool, Option}
use telegraph_center.Retry.{Time}
use telegraph_center.Domain.DeliveryStatus.{DeliveryStatus}
use telegraph_center.Domain.Entities.{Transcript}
use telegraph_center.Storage.Rows.{Db, StorageError}
use telegraph_center.Storage.Statements.{NewDelivery}
use telegraph_center.Storage.Recordings.{NewRecording, create_recording, mark_backlogged}
use telegraph_center.Storage.Transcription.{
  store_transcript, succeed_transcription, retry_transcription, fail_transcription,
  claim_received_for_transcription, start_transcription_attempt,
}
use telegraph_center.Storage.Routing.{select_sink, route_to_sink}
use telegraph_center.Storage.Deliveries.{
  complete_delivery, succeed_delivery, retry_delivery, fail_delivery, start_delivery_attempt,
}
use telegraph_center.Storage.Manual.{
  ManualRoute, ManualRetryTranscription, ManualRetryDelivery, manual_route,
  manual_retry_transcription, manual_retry_delivery,
}
use telegraph_center.Storage.Recovery.{recover_abandoned_attempts}

-- A call of an operation that writes to the tables of the Recordings, with its arguments. The last
-- one runs when the service starts, before any worker.
pub data Step (text_before : Time → Time → Bool) (sink_details : String → String) (db : Db)
    : Db → Type 0 where
  create :
      (lost : Option StorageError) (new : NewRecording)
      → Step text_before sink_details db (create_recording lost new db).1
  backlog :
      (id : String) (at : Time) → Step text_before sink_details db (mark_backlogged id at db).1
  store : (new : Transcript) → Step text_before sink_details db (store_transcript new db).1
  claim :
      (now : Time)
      → Step text_before sink_details db (claim_received_for_transcription text_before now db).1
  start :
      (id rid : String) (now : Time)
      → Step text_before sink_details db (start_transcription_attempt text_before id rid now db).1
  succeed :
      (id : String) (at : Time) (t : Transcript)
      → Step text_before sink_details db (succeed_transcription id at t db).1
  retry :
      (id rid : String) (at : Time) (code message : String)
      → Step text_before sink_details db (retry_transcription id rid at code message db).1
  fail :
      (id rid : String) (at : Time) (code message : String)
      → Step text_before sink_details db (fail_transcription id rid at code message db).1
  select : (new : NewDelivery) → Step text_before sink_details db (select_sink new db).1
  route : (new : NewDelivery) → Step text_before sink_details db (route_to_sink new db).1
  complete :
      (id : String) (s : DeliveryStatus) (at : Time) (e : Option String)
      → Step text_before sink_details db (complete_delivery id s at e db).1
  start_delivery :
      (id did : String) (now : Time)
      → Step text_before sink_details db (start_delivery_attempt id did now db).1
  succeed_deliver :
      (id did : String) (at : Time) (http : Option ℕ)
      → Step text_before sink_details db (succeed_delivery id did at http db).1
  retry_deliver :
      (id did : String) (at : Time) (http : Option ℕ) (message : String)
      → Step text_before sink_details db (retry_delivery id did at http message db).1
  fail_deliver :
      (id did : String) (at : Time) (http : Option ℕ) (message : String)
      → Step text_before sink_details db (fail_delivery id did at http message db).1
  route_manually :
      (input : ManualRoute)
      → Step text_before sink_details db (manual_route sink_details input db).1
  retry_manually :
      (input : ManualRetryTranscription)
      → Step text_before sink_details db (manual_retry_transcription input db).1
  redeliver_manually :
      (input : ManualRetryDelivery)
      → Step text_before sink_details db (manual_retry_delivery input db).1
  restart : (now : Time) → Step text_before sink_details db (recover_abandoned_attempts now db).1

-- A history: any number of steps, in any order.
pub data History (text_before : Time → Time → Bool) (sink_details : String → String) (db : Db)
    : Db → Type 0 where
  start_of : History text_before sink_details db db
  then_step :
      {mid db' : Db}
      → History text_before sink_details db mid
      → Step text_before sink_details mid db'
      → History text_before sink_details db db'
