-- ===== src/Http/Upload/Handler.antt =====
-- src/http/api.rs: the handler of POST /api/recordings. `meanwhile` is what the rest of the service
-- does to the database between the lookup of the key and the insertion, `lost` the error of the
-- reading after the insertion, if it fails; the files of an upload
-- bear its generated id, so that no other request touches them.
use telegraph_center.Base.{ℕ, String, Bool, true, false, Option, none, some, List, take, map_option}
use telegraph_center.Base.Int.{pos}
use telegraph_center.Base.Fallible.{Fallible, ok, err}
use telegraph_center.Retry.{Time}
use telegraph_center.Domain.Entities.{Tags, Recording}
use telegraph_center.Config.{AppConfig, client_by_fingerprint}
use telegraph_center.Wav.{WavInfo, WavError, parse_header, duration_ms}
use telegraph_center.Storage.Rows as Rows
use telegraph_center.Storage.Rows.{StorageError, Db, Result}
use telegraph_center.Storage.Recordings.{
  NewRecording, RecordingCreation, get_recording_by_idempotency, create_recording,
}
use telegraph_center.Blob.{BlobStore, relative_path, temp_path}
use telegraph_center.Blob.Files.{FileSystem, finalize, remove_temp, remove_blob}
use telegraph_center.Http.{
  ApiError, missing_fingerprint, unknown_client, missing_recording_id, missing_audio,
  unsupported_audio, internal, storage,
}
use telegraph_center.Http.Upload.{
  Multipart, Headers, trimmed_header, fingerprint_header, recording_id_header, header_scan_bytes,
  UploadResponse, new_response, duplicate_response, parse_tags, parse_recorded_at,
}
use telegraph_center.Http.Upload.Fields.{
  Seen, nothing_seen, World, Act, ◌>>=◌, ◌>>◌, attempt, from_io, from_storage, on_files,
  read_fields,
}

-- `ok_or`
abbrev pub or_error : {A : Type 0} → ApiError → Option A → Fallible ApiError A
or_error e none = err e
or_error e (some a) = ok a

abbrev pub supported : Fallible WavError WavInfo → Fallible ApiError WavInfo
supported (ok info) = ok info
supported (err e) = err unsupported_audio

-- What identifies the upload: the Client's name, its id of the Recording, and the generated id.
pub record Identity : Type 0 where
  pub client_id : String
  pub client_recording_id : String
  pub recording_id : String
  pub received_at : Time

unfoldable pub new_recording : Identity → Seen → Tags → Option Time → WavInfo → ℕ → NewRecording
unfolding duration_ms
new_recording who seen tags recorded_at info size = record {
  id = who.recording_id;
  client_id = who.client_id;
  client_recording_id = who.client_recording_id;
  original_filename = seen.original_filename;
  blob_path = some (relative_path who.recording_id);
  audio_size_bytes = some (pos size);
  audio_duration_ms = map_option pos (duration_ms info);
  sample_rate_hz = some (pos info.sample_rate_hz);
  channels = some (pos info.channels);
  bits_per_sample = some (pos info.bits_per_sample);
  tags = tags;
  recorded_at = recorded_at;
  received_at = who.received_at;
}

abbrev pub leading : ℕ → Fallible String (List ℕ) → Fallible String (List ℕ)
leading max (ok bytes) = ok (take max bytes)
leading max (err e) = err e

module _ (fs : FileSystem) where
  -- The bytes at the start of the file; reading ends at the end of the file or at `max` bytes.
  unfoldable pub read_leading_bytes : String → ℕ → Act fs.State (List ℕ)
  read_leading_bytes path max w = (from_io (leading max (fs.read path w.files)), w)

  unfoldable pub file_size : String → Act fs.State ℕ
  file_size path w = (from_io (fs.metadata path w.files), w)

  module _ (blobs : BlobStore) (meanwhile : Db → Db) (lost : Option StorageError) where
    -- The response for a row that was created or was there; a blob that no row refers to is removed.
    unfoldable pub respond :
        String
        → Recording
        → Bool
        → World fs.State
        → Fallible ApiError UploadResponse × World fs.State
    unfolding remove_blob
    respond relative recording true w = (ok (new_response recording), w)
    respond relative recording false w = (
      ok (duplicate_response recording),
      record w { files = remove_blob fs blobs relative w.files },
    )

    unfoldable pub conclude :
        String
        → Result RecordingCreation
        → World fs.State
        → Fallible ApiError UploadResponse × World fs.State
    unfolding respond remove_blob
    conclude relative (Rows.err e) w =
        (err (internal (storage e)), record w { files = remove_blob fs blobs relative w.files })
    conclude relative (Rows.ok creation) w = respond relative creation.recording creation.created w

    -- The insertion of the row, once the blob is in place.
    unfoldable pub insert_row : String → NewRecording → Act fs.State UploadResponse
    unfolding conclude
    insert_row relative new w =
        let (r, db) = create_recording lost new (meanwhile w.db) in
        conclude relative r (record w { db = db })

    -- The blob is put in place, then the row is inserted.
    unfoldable pub store_recording : String → String → NewRecording → Act fs.State UploadResponse
    unfolding finalize insert_row
    store_recording temp relative new = do
      on_files (finalize fs blobs temp relative)
      insert_row relative new

    module _ (from_utf8 : List ℕ → Option String) (from_str : String → Option (List String))
        (parse : String → Option Time) (config : AppConfig) where
      -- What follows the loop over the fields; the flag tells whether there was an audio field.
      unfoldable pub validate_and_store :
          Identity → String → Bool → Seen → Act fs.State UploadResponse
      unfolding read_leading_bytes file_size store_recording new_recording
      validate_and_store who temp false seen = attempt (err missing_audio)
      validate_and_store who temp true seen = do
        tags ← attempt (parse_tags from_str seen.tags_raw)
        recorded_at ← attempt (parse_recorded_at parse seen.recorded_at_raw who.received_at)
        header ← read_leading_bytes temp header_scan_bytes
        info ← attempt (supported (parse_header header))
        size ← file_size temp
        store_recording temp (relative_path who.recording_id)
            (new_recording who seen tags recorded_at info size)

      unfoldable pub ingest : Identity → String → Multipart → Act fs.State UploadResponse
      unfolding validate_and_store
      ingest who temp multipart = do
        seen ←
            read_fields fs from_utf8 temp multipart.fields multipart.intact
              (nothing_seen config.data_config.max_upload_bytes)
        validate_and_store who temp seen.audio_written seen

      -- Where the upload failed, the temporary file is removed.
      abbrev pub cleaned :
          String
          → Fallible ApiError UploadResponse × World fs.State
          → Fallible ApiError UploadResponse × World fs.State
      cleaned temp (ok response, w) = (ok response, w)
      cleaned temp (err e, w) = (err e, record w { files = remove_temp fs temp w.files })

      -- The answer at once for a key that is known, or else the ingestion.
      unfoldable pub unless_known :
          Identity → Multipart → Fallible ApiError (Option Recording) → Act fs.State UploadResponse
      unfolding ingest
      unless_known who multipart (err e) w = (err e, w)
      unless_known who multipart (ok (some existing)) w = (ok (duplicate_response existing), w)
      unless_known who multipart (ok none) w =
          let temp = temp_path blobs who.recording_id in cleaned temp (ingest who temp multipart w)

      -- `recording_id` is the generated id and `received_at` the reading of the clock.
      unfoldable pub upload_recording :
          String → Time → Headers → Multipart → Act fs.State UploadResponse
      unfolding unless_known
      upload_recording recording_id received_at headers multipart = do
        fingerprint ←
            attempt (or_error missing_fingerprint (trimmed_header headers fingerprint_header))
        client ← attempt (or_error unknown_client (client_by_fingerprint config fingerprint))
        client_recording_id ←
            attempt (or_error missing_recording_id (trimmed_header headers recording_id_header))
        λ w.
            unless_known
              (record {
                client_id = client.name;
                client_recording_id = client_recording_id;
                recording_id = recording_id;
                received_at = received_at;
              })
              multipart
              (from_storage (get_recording_by_idempotency client.name client_recording_id w.db)) w
