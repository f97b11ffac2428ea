-- ===== src/Storage/Recovery.antt =====
-- `recover_abandoned_attempts` of src/storage/sqlite.rs, which runs at startup before any worker.
use telegraph_center.Base.{ℕ, String, Bool, true, not, ◌&&◌, ◌||◌, some, ◌==◌, is_some, ltb}
use telegraph_center.Base.Table.{exists_row, count_rows, update_where}
use telegraph_center.Retry.{Time}
use telegraph_center.Domain.Status
use telegraph_center.Domain.Status.{received, transcribing}
use telegraph_center.Domain.Entities.{TranscriptionAttempt, DeliveryAttempt}
use telegraph_center.Storage.Rows.{Db, RecordingRow}
use telegraph_center.Storage.Tx.{Tx, Op, pure, gets, modify, ◌>>=◌, ◌>>◌, transaction}
use telegraph_center.Storage.Transcription
use telegraph_center.Storage.Deliveries

pub record RecoveryReport : Type 0 where
  pub transcription_attempts : ℕ
  pub reverted_recordings : ℕ
  pub delivery_attempts : ℕ

unfoldable pub has_changes : RecoveryReport → Bool
has_changes r =
    ltb 0 r.transcription_attempts || ltb 0 r.reverted_recordings || ltb 0 r.delivery_attempts

abbrev pub abandoned_message : String
abandoned_message = "attempt abandoned when the service stopped"

abbrev pub note_abandoned : Time → RecordingRow → RecordingRow
note_abandoned now r = record r { latest_error = some abandoned_message; updated_at = now }

-- finished_at IS NULL
abbrev pub is_unfinished : TranscriptionAttempt → Bool
is_unfinished a = not (is_some a.finished_at)

abbrev pub is_unfinished_delivery : DeliveryAttempt → Bool
is_unfinished_delivery a = not (is_some a.finished_at)

-- `latest_error` of the Recordings with a Transcription Attempt in flight
unfoldable pub surface_transcription : Time → Tx (Unit {0})
surface_transcription now = modify λ db. record db {
  recordings =
      update_where (λ r. exists_row (Transcription.is_open_for r.id) db.transcription_attempts)
        (note_abandoned now) db.recordings;
}

unfoldable pub close_transcription : Time → Tx ℕ
close_transcription now = do
  affected ← gets (λ db. count_rows is_unfinished db.transcription_attempts)
  modify (λ db. record db {
    transcription_attempts =
        update_where is_unfinished
          (λ a. record a {
            finished_at = some now;
            status = "failed";
            retryable = true;
            error_code = some "abandoned";
            error_message = some abandoned_message;
          })
          db.transcription_attempts;
  })
  pure affected

-- status = 'transcribing' AND NOT EXISTS (an attempt)
unfoldable pub is_stranded : Db → RecordingRow → Bool
is_stranded db r =
    r.status == Status.as_str transcribing
    && not (exists_row (λ a. a.recording_id == r.id) db.transcription_attempts)

unfoldable pub revert_stranded : Time → Tx ℕ
revert_stranded now = do
  affected ← gets (λ db. count_rows (is_stranded db) db.recordings)
  modify (λ db. record db {
    recordings =
        update_where (is_stranded db)
          (λ r. record r { status = Status.as_str received; updated_at = now }) db.recordings;
  })
  pure affected

-- the Recordings with a Delivery that has an attempt in flight
unfoldable pub surface_delivery : Time → Tx (Unit {0})
surface_delivery now = modify λ db. record db {
  recordings =
      update_where
        (λ r.
          exists_row
            (λ d.
              d.recording_id == r.id
              && exists_row (Deliveries.is_open_for d.id) db.delivery_attempts)
            db.deliveries)
        (note_abandoned now) db.recordings;
}

unfoldable pub close_delivery : Time → Tx ℕ
close_delivery now = do
  affected ← gets (λ db. count_rows is_unfinished_delivery db.delivery_attempts)
  modify (λ db. record db {
    delivery_attempts =
        update_where is_unfinished_delivery
          (λ a. record a {
            finished_at = some now;
            status = "failed";
            retryable = true;
            error_message = some abandoned_message;
          })
          db.delivery_attempts;
  })
  pure affected

-- the statements of the transaction
unfoldable pub reclaim : Time → Tx RecoveryReport
reclaim now = do
  surface_transcription now
  transcription_attempts ← close_transcription now
  reverted_recordings ← revert_stranded now
  surface_delivery now
  delivery_attempts ← close_delivery now
  pure (record {
    transcription_attempts = transcription_attempts;
    reverted_recordings = reverted_recordings;
    delivery_attempts = delivery_attempts;
  })

unfoldable pub recover_abandoned_attempts : Time → Op RecoveryReport
recover_abandoned_attempts now = transaction (reclaim now)
