-- ===== src/Tests/Workers.antt =====
-- The results about the workers at concrete candidates and integrations.
use telegraph_center.Base.{
  ◌+◌, ◌≤◌, String, ◌≡◌, refl, true, none, some, [], ◌∷◌, ltb, arith, ◌⊎◌, ◌↔◌, ap, leb, ◌==◌,
  false,
}
use telegraph_center.Base.Int.{pos}
use telegraph_center.Retry.{hours, minutes, backoff, transcription_deadline}
use telegraph_center.Domain.Status
use telegraph_center.Domain.DeliveryStatus
use telegraph_center.Domain.Entities.{Recording, Delivery}
use telegraph_center.Storage.Transcription.{TranscriptionRetryCandidate}
use telegraph_center.Storage.Deliveries.{DeliveryCandidate}
use telegraph_center.Blob.{BlobStore}
use telegraph_center.Workers.{
  Call, failure, retryable, terminal, TranscriptionRequest, TranscriptionOutput, DeliveryRequest,
  RoutingDecision, sink,
}
use telegraph_center.Workers.Transcription
use telegraph_center.Workers.Delivery
use telegraph_center.Workers.Settled
use telegraph_center.Storage.Outcomes.{Moved}
use telegraph_center.Storage.View.{status_of, status_in, parsed_status}
use telegraph_center.Storage.Statements.{find_delivery}
use telegraph_center.Storage.Rows.{Db, empty_db, RecordingRow, DeliveryRow}
use telegraph_center.Base.Table.{select_one, exists_row}
use telegraph_center.Domain.Status.{RecordingStatus}
use telegraph_center.Domain.Status.Lifecycle
use telegraph_center.Workers.Due
use telegraph_center.Workers.Settle

abbrev details : String → String
details s = s

abbrev blobs : BlobStore
blobs = record { data_dir = "/srv/data" }

abbrev to_journal : Recording → RoutingDecision
to_journal r = sink "journal"

abbrev to_text : Call TranscriptionRequest TranscriptionOutput
to_text request db = (failure (retryable "soniox_transport" "timeout"), db)

abbrev webhook_down : Call DeliveryRequest (Unit {0})
webhook_down request db = (failure (retryable "webhook_http_503" "HTTP 503"), db)

abbrev recording_1 : Recording
recording_1 = record {
  id = "r1";
  client_id = "watch";
  client_recording_id = "w1";
  status = Status.transcribing;
  original_filename = none;
  blob_path = some "recordings/r1.wav";
  audio_size_bytes = none;
  audio_duration_ms = some (pos 7_200_000);
  sample_rate_hz = none;
  channels = none;
  bits_per_sample = none;
  tags = record { values = "journal" ∷ [] };
  recorded_at = none;
  received_at = 10;
  selected_sink_name = none;
  latest_error = none;
  created_at = 10;
  updated_at = 10;
}

abbrev waiting : TranscriptionRetryCandidate
waiting = record {
  recording = recording_1;
  last_attempt_number = 2;
  last_attempt_finished_at = 100;
  retry_window_started_at = none;
}

due_after_backoff_example :
    ((Transcription.is_due (100 + minutes 5) waiting ≡ true)
      ↔ (Due.IsReopened waiting ⊎ (100 + backoff (pos 2) ≤ 100 + minutes 5)))
    × (minutes 1 ≤ backoff (pos 2))
due_after_backoff_example = Due.due_after_backoff (100 + minutes 5) waiting

settle_late_example :
    Transcription.settle "a1" recording_1 50 (50 + hours 24) (failure (retryable "c" "m"))
    ≡ Transcription.settle "a1" recording_1 50 (50 + hours 24) (failure (terminal "c" "m"))
settle_late_example = Settle.settle_late "a1" recording_1 50 (50 + hours 24) "c" "m" (omega arith)

abbrev delivery_1 : Delivery
delivery_1 = record {
  id = "d1";
  recording_id = "r1";
  sink_name = "journal";
  status = DeliveryStatus.delivering;
  selected_at = 50;
  completed_at = none;
  retry_deadline_at = some 150;
  latest_error = none;
}

abbrev candidate : DeliveryCandidate
candidate = record {
  delivery = delivery_1;
  recording = recording_1;
  transcript = record {
    recording_id = "r1";
    provider = "soniox";
    text = "hello";
    raw_json = "{}";
    provider_file_id = none;
    provider_transcription_id = none;
    created_at = 40;
  };
  last_attempt_number = some 1;
  last_attempt_finished_at = some 60;
  retry_window_started_at = none;
}

abbrev row_in : RecordingStatus → RecordingRow
row_in s = record {
  id = "r1";
  client_id = "watch";
  client_recording_id = "w1";
  status = Status.as_str s;
  original_filename = none;
  blob_path = some "recordings/r1.wav";
  audio_size_bytes = none;
  audio_duration_ms = some (pos 7_200_000);
  sample_rate_hz = none;
  channels = none;
  bits_per_sample = none;
  tags = record { values = [] };
  recorded_at = none;
  received_at = 10;
  selected_sink_name = none;
  latest_error = none;
  created_at = 10;
  updated_at = 10;
  retry_window_started_at = none;
}

abbrev delivery_row : DeliveryRow
delivery_row = record {
  id = "d1";
  recording_id = "r1";
  sink_name = "journal";
  status = "delivering";
  selected_at = 50;
  completed_at = none;
  retry_deadline_at = some 150;
  latest_error = none;
  retry_window_started_at = none;
}

abbrev db_in : RecordingStatus → Db
db_in s = record empty_db { recordings = row_in s ∷ []; deliveries = delivery_row ∷ [] }

status_of-db_in : (s : RecordingStatus) → status_of "r1" (db_in s) ≡ some s
unfolding status_in select_one
status_of-db_in s = ap parsed_status (Lifecycle.parse-as_str s)

no_transcript :
    exists_row (λ t. t.recording_id == "r1") (db_in Status.transcribing).transcripts ≡ false
unfolding exists_row
no_transcript = refl

delivery_found : find_delivery "d1" (db_in Status.delivering) ≡ some delivery_row
unfolding select_one
delivery_found = refl

transcription_attempt_lem_example :
    Moved "r1"
      (Settled.transcribed
        (leb (transcription_deadline 20 (some (pos 7_200_000))) (20 + hours 1))
        (failure (retryable "soniox_transport" "timeout")))
      (db_in Status.transcribing)
      (Transcription.run_attempt ltb blobs to_text "a1" recording_1
        (20 + hours 1)
        (some (record { attempt_number = 1; first_started_at = 20 }))
        (db_in Status.transcribing)).1
transcription_attempt_lem_example =
    Settled.transcription_attempt_lem ltb blobs to_text "a1" recording_1 (20 + hours 1)
      (record { attempt_number = 1; first_started_at = 20 }) (db_in Status.transcribing)
      (status_of-db_in Status.transcribing) no_transcript

delivery_attempt_lem_example :
    Moved "r1" Status.delivery_failed
      (db_in Status.delivering)
      (Delivery.run_attempt ltb webhook_down "b1" candidate 200
        (some 2)
        (db_in Status.delivering)).1
delivery_attempt_lem_example =
    Settled.delivery_attempt_lem ltb webhook_down "b1" candidate 200 2 delivery_row
      (db_in Status.delivering) delivery_found (status_of-db_in Status.delivering)
