-- ===== src/Http/Upload.antt =====
-- src/http/api.rs: the upload of a Recording. The multipart body is the list of its fields, each
-- with the chunks that the parser gives. The decoding of UTF-8, JSON and RFC3339 is third-party
-- code, so that these functions are arguments, as is the file system.
pub mod Fields
pub mod Handler
pub mod Acts
pub mod Budget
pub mod Traces
pub mod Refused
pub mod Dangling
pub mod Stored
pub mod Again
pub mod Bytes
use telegraph_center.Base.{
  ℕ, ◌+◌, ◌-◌, ◌*◌, String, Bool, true, false, Option, none, some, List, [], ◌∷◌, ◌++◌, ◌==◌,
  length, take, leb, ltb, if◌then◌else◌, map_option,
}
use telegraph_center.Base.Int.{ℤ, pos}
use telegraph_center.Base.Text.{trim, is_empty_text}
use telegraph_center.Base.Fallible.{Fallible, ok, err}
use telegraph_center.Retry.{Time, Duration, hours}
use telegraph_center.Domain.Status
use telegraph_center.Domain.Entities.{Tags, Recording}
use telegraph_center.Domain.Tags as TagSet
use telegraph_center.Config.{AppConfig, ClientConfig, client_by_fingerprint}
use telegraph_center.Wav.{WavInfo, parse_header, duration_ms}
use telegraph_center.Storage.Rows as Rows
use telegraph_center.Storage.Rows.{Db, Result}
use telegraph_center.Storage.Recordings.{
  NewRecording, RecordingCreation, get_recording_by_idempotency, create_recording,
}
use telegraph_center.Blob.{BlobStore, relative_path, temp_path}
use telegraph_center.Blob.Files.{FileSystem, finalize, remove_temp, remove_blob}
use telegraph_center.Http.{
  ApiError, missing_fingerprint, unknown_client, missing_recording_id, missing_audio,
  multiple_audio, invalid_tags, invalid_recorded_at, recorded_at_in_future, payload_too_large,
  unsupported_audio, invalid_multipart, internal, storage, io,
}

abbrev pub fingerprint_header : String
fingerprint_header = "x-telegraph-client-fingerprint"

abbrev pub recording_id_header : String
recording_id_header = "x-telegraph-client-recording-id"

abbrev pub max_recorded_at_skew : Duration
max_recorded_at_skew = hours 24

abbrev pub header_scan_bytes : ℕ
header_scan_bytes = 64 * 1024

abbrev pub max_text_field_bytes : ℕ
max_text_field_bytes = 64 * 1024

-- A field of the body. `intact` tells whether the chunks end well, or in an error of the parser.
pub record Field : Type 0 where
  pub name : Option String
  pub file_name : Option String
  pub chunks : List (List ℕ)
  pub intact : Bool

-- The fields that the parser gives, and whether it ends well after them.
pub record Multipart : Type 0 where
  pub fields : List Field
  pub intact : Bool

-- The values of the headers that `to_str` accepts.
abbrev pub Headers : Type 0
Headers = String → Option String

unfoldable pub trimmed_header : Headers → String → Option String
trimmed_header headers name = elim (headers name) [
  | none ↦ none
  | some raw ↦ if is_empty_text (trim raw) then none else some (trim raw)
]

pub record UploadResponse : Type 0 where
  pub status_code : ℕ
  pub recording_id : String
  pub recording_status : String
  pub duplicate : Option Bool

unfoldable pub new_response : Recording → UploadResponse
new_response recording = record {
  status_code = 201;
  recording_id = recording.id;
  recording_status = Status.as_str recording.status;
  duplicate = none;
}

unfoldable pub duplicate_response : Recording → UploadResponse
duplicate_response recording = record {
  status_code = 200;
  recording_id = recording.id;
  recording_status = Status.as_str recording.status;
  duplicate = some true;
}

-- Subtract `len` from the byte budget.
unfoldable pub charge : ℕ → ℕ → Fallible ApiError ℕ
charge remaining len = if leb len remaining then ok (remaining - len) else err payload_too_large

-- the chunks of an ignored field
unfoldable pub discard_field : List (List ℕ) → Bool → ℕ → Fallible ApiError ℕ
unfolding charge
discard_field [] true remaining = ok remaining
discard_field [] false remaining = err invalid_multipart
discard_field (chunk ∷ chunks) intact remaining = elim (charge remaining (length chunk)) [
  | ok left ↦ discard_field chunks intact left
  | err e ↦ err e
]

-- The bytes of a text field, after those in `buffer`, with the budget that is left.
unfoldable pub read_chunks : List (List ℕ) → Bool → List ℕ → ℕ → Fallible ApiError (List ℕ × ℕ)
unfolding charge
read_chunks [] true buffer remaining = ok (buffer, remaining)
read_chunks [] false buffer remaining = err invalid_multipart
read_chunks (chunk ∷ chunks) intact buffer remaining = elim (charge remaining (length chunk)) [
  | ok left ↦ elim (ltb max_text_field_bytes (length buffer + length chunk)) [
    | true ↦ err payload_too_large
    | false ↦ read_chunks chunks intact (buffer ++ chunk) left
  ]
  | err e ↦ err e
]

module _ (from_utf8 : List ℕ → Option String) where
  abbrev pub decoded : Fallible ApiError (List ℕ × ℕ) → Fallible ApiError (String × ℕ)
  decoded (err e) = err e
  decoded (ok (bytes, left)) = elim (from_utf8 bytes) [
    | none ↦ err invalid_multipart
    | some text ↦ ok (text, left)
  ]

  unfoldable pub read_text_field : Field → ℕ → Fallible ApiError (String × ℕ)
  unfolding read_chunks
  read_text_field field remaining = decoded (read_chunks field.chunks field.intact [] remaining)

-- `serde_json::from_str`, then `Tags::new`
unfoldable pub parse_tags : (String → Option (List String)) → Option String → Fallible ApiError Tags
parse_tags from_str none = ok (record { values = [] })
parse_tags from_str (some raw) = elim (from_str raw) [
  | none ↦ err invalid_tags
  | some values ↦ elim (TagSet.new values) [ ok tags ↦ ok tags | err e ↦ err invalid_tags ]
]

unfoldable pub parse_recorded_at :
    (String → Option Time) → Option String → Time → Fallible ApiError (Option Time)
parse_recorded_at parse none received_at = ok none
parse_recorded_at parse (some raw) received_at = elim (parse (trim raw)) [
  | none ↦ err invalid_recorded_at
  | some recorded ↦
      if ltb (received_at + max_recorded_at_skew) recorded
      then err recorded_at_in_future
      else ok (some recorded)
]
