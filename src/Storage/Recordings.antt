-- ===== src/Storage/Recordings.antt =====
-- The Recording operations of src/storage/sqlite.rs, and the reads that the others require.
use telegraph_center.Base.{
  String, Bool, true, false, ◌&&◌, Option, none, some, [], ◌∷◌, ◌++◌, ◌==◌, if◌then◌else◌,
}
use telegraph_center.Base.Int.{ℤ}
use telegraph_center.Base.Table.{select_one, exists_row}
use telegraph_center.Retry.{Time}
use telegraph_center.Domain.Status
use telegraph_center.Domain.Status.{RecordingStatus, received, backlogged}
use telegraph_center.Domain.Entities.{Tags, Recording, Transcript, Delivery}
use telegraph_center.Storage.Rows.{
  Db, RecordingRow, Result, ok, err, StorageError, database, primary_key, recording_not_found,
  delivery_not_found, recording_into_domain, delivery_into_domain,
}
use telegraph_center.Storage.Tx.{Op, transaction, reading, ◌then_read◌}
use telegraph_center.Storage.Statements.{find_recording, find_delivery, guarded_transition}

-- `row.map(into_domain).transpose()`
abbrev pub transpose {ℓ κ} :
    {R : Type ℓ} {A : Type κ} → (R → Result A) → Option R → Result (Option A)
transpose into_domain none = ok none
transpose into_domain (some row) = elim (into_domain row) [ ok a ↦ ok (some a) | err e ↦ err e ]

-- `.await?.ok_or_else(..)`
abbrev pub required {ℓ} : {A : Type ℓ} → StorageError → Result (Option A) → Result A
required missing (ok none) = err missing
required missing (ok (some a)) = ok a
required missing (err e) = err e

unfoldable pub get_recording : String → Db → Result (Option Recording)
get_recording id db = transpose recording_into_domain (find_recording id db)

unfoldable pub require_recording : String → Db → Result Recording
unfolding get_recording
require_recording id db = required (recording_not_found id) (get_recording id db)

unfoldable pub get_transcript : String → Db → Result (Option Transcript)
get_transcript recording_id db =
    ok (select_one (λ t. t.recording_id == recording_id) db.transcripts)

unfoldable pub require_transcript : String → Db → Result Transcript
unfolding get_transcript
require_transcript recording_id db =
    required (recording_not_found recording_id) (get_transcript recording_id db)

unfoldable pub get_delivery : String → Db → Result (Option Delivery)
get_delivery id db = transpose delivery_into_domain (find_delivery id db)

unfoldable pub get_delivery_for_recording : String → Db → Result (Option Delivery)
get_delivery_for_recording recording_id db =
    transpose delivery_into_domain (select_one (λ d. d.recording_id == recording_id) db.deliveries)

unfoldable pub require_delivery : String → Db → Result Delivery
unfolding get_delivery
require_delivery id db = required (delivery_not_found id) (get_delivery id db)

pub record NewRecording : Type 0 where
  pub id : String
  pub client_id : String
  pub client_recording_id : String
  pub original_filename : Option String
  pub blob_path : Option String
  pub audio_size_bytes : Option ℤ
  pub audio_duration_ms : Option ℤ
  pub sample_rate_hz : Option ℤ
  pub channels : Option ℤ
  pub bits_per_sample : Option ℤ
  pub tags : Tags
  pub recorded_at : Option Time
  pub received_at : Time

pub record RecordingCreation : Type 0 where
  pub recording : Recording
  pub created : Bool

-- WHERE client_id = ? AND client_recording_id = ?
abbrev pub has_key : String → String → RecordingRow → Bool
has_key client_id client_recording_id r =
    r.client_id == client_id && r.client_recording_id == client_recording_id

unfoldable pub get_recording_by_idempotency : String → String → Db → Result (Option Recording)
get_recording_by_idempotency client_id client_recording_id db =
    transpose recording_into_domain
      (select_one (has_key client_id client_recording_id) db.recordings)

abbrev pub new_recording_row : NewRecording → RecordingRow
new_recording_row new = record {
  id = new.id;
  client_id = new.client_id;
  client_recording_id = new.client_recording_id;
  status = Status.as_str received;
  original_filename = new.original_filename;
  blob_path = new.blob_path;
  audio_size_bytes = new.audio_size_bytes;
  audio_duration_ms = new.audio_duration_ms;
  sample_rate_hz = new.sample_rate_hz;
  channels = new.channels;
  bits_per_sample = new.bits_per_sample;
  tags = new.tags;
  recorded_at = new.recorded_at;
  received_at = new.received_at;
  selected_sink_name = none;
  latest_error = none;
  created_at = new.received_at;
  updated_at = new.received_at;
  retry_window_started_at = none;
}

-- INSERT ... ON CONFLICT(client_id, client_recording_id) DO NOTHING, with whether a row was added.
-- A known key comes first: where the new id is taken too, nothing is inserted.
unfoldable pub insert_recording : NewRecording → Op Bool
insert_recording new db =
    if exists_row (has_key new.client_id new.client_recording_id) db.recordings
    then (ok false, db)
    else if exists_row (λ r. r.id == new.id) db.recordings
    then (err (database primary_key), db)
    else (ok true, record db { recordings = db.recordings ++ new_recording_row new ∷ [] })

-- the result of `create_recording`, from the row that is read back
abbrev pub creation_of : String → Bool → Result (Option Recording) → Result RecordingCreation
creation_of id created (ok (some recording)) =
    ok (record { recording = recording; created = created })
creation_of id created (ok none) = err (recording_not_found id)
creation_of id created (err e) = err e

-- the read-back, where `lost` is the error of a connection that fails after the INSERT
abbrev pub read_again : Option StorageError → Result (Option Recording) → Result (Option Recording)
read_again none row = row
read_again (some e) row = err e

unfoldable pub create_recording : Option StorageError → NewRecording → Op RecordingCreation
create_recording lost new = insert_recording new then_read λ created. reading λ db.
    creation_of new.id created
      (read_again lost (get_recording_by_idempotency new.client_id new.client_recording_id db))

unfoldable pub update_recording_status : String → RecordingStatus → Time → Op Recording
update_recording_status id next at =
    transaction (guarded_transition id next at) then_read λ _. reading (require_recording id)

unfoldable pub mark_backlogged : String → Time → Op Recording
unfolding update_recording_status
mark_backlogged id at = update_recording_status id backlogged at
