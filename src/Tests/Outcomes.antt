-- ===== src/Tests/Outcomes.antt =====
-- The results about the ends of attempts at a database with one Recording and one Delivery.
use telegraph_center.Base.{String, ltb, ◌≡◌, refl, ap, none, some, [], ◌∷◌, ◌==◌, false}
use telegraph_center.Base.Table.{select_one, exists_row}
use telegraph_center.Domain.Status
use telegraph_center.Domain.Status.{RecordingStatus}
use telegraph_center.Domain.Status.Lifecycle
use telegraph_center.Domain.DeliveryStatus
use telegraph_center.Domain.Entities.{Transcript}
use telegraph_center.Storage.Rows.{Db, RecordingRow, DeliveryRow, empty_db}
use telegraph_center.Storage.Statements.{find_delivery}
use telegraph_center.Storage.Transcription.{succeed_transcription, claim_received_for_transcription}
use telegraph_center.Storage.Deliveries.{succeed_delivery, fail_delivery}
use telegraph_center.Storage.View.{status_of, status_in, parsed_status}
use telegraph_center.Storage.Outcomes
use telegraph_center.Storage.Claim
use telegraph_center.Base.Table.Laws.{Distinct}
use telegraph_center.Storage.Outcomes.{Moved}

abbrev row_in : RecordingStatus → RecordingRow
row_in s = record {
  id = "r1";
  client_id = "watch";
  client_recording_id = "w1";
  status = Status.as_str s;
  original_filename = none;
  blob_path = none;
  audio_size_bytes = none;
  audio_duration_ms = none;
  sample_rate_hz = none;
  channels = none;
  bits_per_sample = none;
  tags = record { values = [] };
  recorded_at = none;
  received_at = 10;
  selected_sink_name = none;
  latest_error = none;
  created_at = 10;
  updated_at = 10;
  retry_window_started_at = none;
}

abbrev delivery_1 : DeliveryRow
delivery_1 = record {
  id = "d1";
  recording_id = "r1";
  sink_name = "journal";
  status = DeliveryStatus.as_str DeliveryStatus.delivering;
  selected_at = 20;
  completed_at = none;
  retry_deadline_at = none;
  latest_error = none;
  retry_window_started_at = none;
}

abbrev db_in : RecordingStatus → Db
db_in s = record empty_db { recordings = row_in s ∷ []; deliveries = delivery_1 ∷ [] }

status_of-db_in : (s : RecordingStatus) → status_of "r1" (db_in s) ≡ some s
unfolding status_in select_one
status_of-db_in s = ap parsed_status (Lifecycle.parse-as_str s)

abbrev transcript : Transcript
transcript = record {
  recording_id = "r1";
  provider = "soniox";
  text = "hello";
  raw_json = "{}";
  provider_file_id = none;
  provider_transcription_id = none;
  created_at = 40;
}

no_transcript :
    exists_row (λ x. x.recording_id == "r1") (db_in Status.transcribing).transcripts ≡ false
unfolding exists_row
no_transcript = refl

succeed_transcription_lem_example :
    Moved "r1" Status.routing
      (db_in Status.transcribing)
      (succeed_transcription "a1" 30 transcript (db_in Status.transcribing)).1
succeed_transcription_lem_example =
    Outcomes.succeed_transcription_lem "a1" 30 transcript (db_in Status.transcribing)
      (status_of-db_in Status.transcribing) no_transcript

delivery_found : (s : RecordingStatus) → find_delivery "d1" (db_in s) ≡ some delivery_1
unfolding select_one
delivery_found s = refl

succeed_delivery_lem_example :
    Moved "r1" Status.delivered
      (db_in Status.delivering)
      (succeed_delivery "b1" "d1" 30 (some 200) (db_in Status.delivering)).1
succeed_delivery_lem_example =
    Outcomes.succeed_delivery_lem "b1" "d1" 30 (some 200) delivery_1 (db_in Status.delivering)
      (delivery_found Status.delivering) (status_of-db_in Status.delivering)

fail_delivery_lem_example :
    Moved "r1" Status.delivery_failed
      (db_in Status.delivering)
      (fail_delivery "b1" "d1" 30 (some 404) "m" (db_in Status.delivering)).1
fail_delivery_lem_example =
    Outcomes.fail_delivery_lem "b1" "d1" 30 (some 404) "m" delivery_1 (db_in Status.delivering)
      (delivery_found Status.delivering) (status_of-db_in Status.delivering)

one_row : Distinct (λ r. r.id) (db_in Status.received).recordings
unfolding exists_row
one_row = (refl, tt)

claim_progress_example :
    (id : String) × (status_of id (db_in Status.received) ≡ some Status.received)
    × Moved id Status.transcribing
        (db_in Status.received)
        (claim_received_for_transcription ltb 50 (db_in Status.received)).1
claim_progress_example =
    Claim.claim_progress ltb 50 (db_in Status.received) "r1" one_row
      (status_of-db_in Status.received)
