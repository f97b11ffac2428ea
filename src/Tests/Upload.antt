-- ===== src/Tests/Upload.antt =====
-- The results about the upload on a file system in memory.
use Prim.Native.String.{◌++◌ as ◌<>◌}
use telegraph_center.Base.{
  ℕ, ◌≤◌, String, ◌≡◌, refl, ap, ◌∙◌, true, false, Option, none, some, List, [], ◌∷◌, ◌++◌, ◌==◌,
  eq_refl, length, if◌then◌else◌, arith, inr,
}
use telegraph_center.Base.Fallible.{Fallible, ok, err}
use telegraph_center.Blob.{BlobStore, relative_path, temp_path, full_path}
use telegraph_center.Blob.Startup as Startup
use telegraph_center.Blob.Startup.{Directories}
use telegraph_center.Blob.Swept as Swept
use telegraph_center.Blob.Files.{FileSystem, IsLawful, IsRemovable}
use telegraph_center.Retry.{Time}
use telegraph_center.Config.{AppConfig}
use telegraph_center.Storage.Rows.{Db, empty_db, recording_into_domain}
use telegraph_center.Wav.Laws.{pcm_wav}
use telegraph_center.Base.Table.{select_one, exists_row}
use telegraph_center.Base.Text.{trim, is_whitespace}
use telegraph_center.Domain.Status
use telegraph_center.Config.{client_by_fingerprint}
use telegraph_center.Wav.{parse_header}
use telegraph_center.Storage.Tx.{◌then_read◌, reading}
use telegraph_center.Storage.Recordings.{
  get_recording_by_idempotency, create_recording, insert_recording,
}
use telegraph_center.Http.Upload.{
  Headers, Multipart, UploadResponse, trimmed_header, new_response, charge, discard_field,
  parse_tags, parse_recorded_at,
}
use telegraph_center.Http.Upload.Budget.{body_size}
use telegraph_center.Http.Upload.Bytes.{audio_of}
use telegraph_center.Http.Upload.Stored.{Stored}
use telegraph_center.Http.Upload.Again.{IsUploader}
use telegraph_center.Http.Upload.Refused.{NotCreated, Untouched}
use telegraph_center.Http.Upload.Fields.{World, Act, ◌>>=◌, read_fields, kind_of}
use telegraph_center.Http.Upload.Handler.{Identity, upload_recording}
use telegraph_center.Http.Upload.Refused
use telegraph_center.Http.Upload.Dangling
use telegraph_center.Http.Upload.Handler.{insert_row}
use telegraph_center.Storage.Creation.{fresh}
use telegraph_center.Storage.Recordings.{NewRecording, has_key}
use telegraph_center.Http.{ApiError, internal, storage}
use telegraph_center.Storage.Rows as Rows
use telegraph_center.Storage.Rows.{StorageError}
use telegraph_center.Http.Upload.Again

abbrev Disk : Type 0
Disk = String → Option (List ℕ)

abbrev put : String → Option (List ℕ) → Disk → Disk
put p v s q = if q == p then v else s q

abbrev or_nothing : Option (List ℕ) → List ℕ
or_nothing none = []
or_nothing (some bytes) = bytes

abbrev memory : FileSystem
memory = record {
  State = Disk;
  contents = λ p s. s p;
  create = λ p s. (ok tt, put p (some []) s);
  write_all = λ p bytes s. (ok tt, put p (some (or_nothing (s p) ++ bytes)) s);
  flush = λ p s. (ok tt, s);
  read = λ p s. ok (or_nothing (s p));
  metadata = λ p s. ok (length (or_nothing (s p)));
  rename = λ from to s. (ok tt, put to (s from) (put from none s));
  remove_file = λ p s. (ok tt, put p none s);
}

value_of : (a b : ℕ) → ◌≡◌ {A = Fallible String ℕ} (ok a) (ok b) → b ≡ a
value_of a b e = ground (arith, e)

lawful : IsLawful memory
lawful = record {
  create_ok = λ p s e. rw (eq_refl p) refl;
  create_other = λ p q s e. rw e refl;
  write_ok = λ p bytes old s e h. rw (eq_refl p, h) refl;
  write_other = λ p q bytes s e. rw e refl;
  flush_same = λ p q s. refl;
  metadata_len = λ p n bytes s e h. value_of _ n e ∙ ap (λ o. length (or_nothing o)) h;
  rename_ok = λ from to q s e. refl;
  rename_failed = λ from to q e s f. absurd (cc);
  remove_ok = λ p q s e. refl;
  remove_failed = λ p q e s f. absurd (cc);
}

removable : IsRemovable memory
removable = record { removal = λ p s. inr refl }

abbrev disk : Disk
disk p = none

abbrev blobs : BlobStore
blobs = record { data_dir = "/srv/data" }

abbrev nothing_else : Db → Db
nothing_else db = db

abbrev from_utf8 : List ℕ → Option String
from_utf8 bytes = some ""

abbrev from_str : String → Option (List String)
from_str text = none

abbrev parse : String → Option Time
parse text = none

abbrev config : AppConfig
config = record {
  server = record { listen = "127.0.0.1:8080"; public_base_path = "" };
  data_config = record { dir = "/srv/data"; max_upload_bytes = 100 };
  clients = record { name = "watch"; certificate_fingerprint = "aaa" } ∷ [];
  operator = record { username = "op"; password_hash_env = "HASH" };
  soniox = record {
    api_key_env = "KEY";
    model = "stt-async-v5";
    language_hints = [];
    enable_speaker_diarization = true;
    enable_language_identification = false;
  };
  sinks = [];
}

abbrev headers : Headers
headers name = if name == "x-telegraph-client-fingerprint" then some "aaa" else some " w1 "

abbrev audio : List ℕ
audio = pcm_wav 38 16000 1 16 32000 2 2 (7 ∷ 0 ∷ [])

-- The audio in one chunk, and a field that is ignored.
abbrev body : Multipart
body = record {
  fields =
      record { name = some "audio"; file_name = some "a.wav"; chunks = audio ∷ []; intact = true }
      ∷ record { name = some "note"; file_name = none; chunks = (1 ∷ []) ∷ []; intact = true }
      ∷ [];
  intact = true;
}

abbrev start : World Disk
start = record { db = empty_db; files = disk }

abbrev upload : String → Headers → Multipart → Act Disk UploadResponse
upload id headers body =
    upload_recording memory blobs nothing_else none from_utf8 from_str parse config id 10 headers
      body

abbrev reply : UploadResponse
reply = record {
  status_code = 201;
  recording_id = "r1";
  recording_status = "received";
  duplicate = none;
}

upload_1 : (upload "r1" headers body start).0 ≡ ok reply
unfolding upload_recording ◌>>=◌ trimmed_header trim is_whitespace client_by_fingerprint select_one
    get_recording_by_idempotency read_fields kind_of charge discard_field parse_tags
    parse_recorded_at parse_header temp_path relative_path full_path create_recording ◌then_read◌
    exists_row Status.as_str Status.parse insert_recording reading recording_into_domain
    new_response
upload_1 = refl

upload_recording-Stored_example :
    (who : Identity) × (who.recording_id ≡ "r1")
    × IsUploader config headers who
    × Stored memory blobs who (audio_of body.fields) reply (upload "r1" headers body start).1
    × (body_size body.fields ≤ 100)
upload_recording-Stored_example =
    Again.upload_recording-Stored memory blobs nothing_else none from_utf8 from_str parse config
      lawful "r1" 10 headers body start reply upload_1 refl

uploaded_again_example : upload "r2" headers body (upload "r1" headers body start).1 ≡ (
  ok (record reply { status_code = 200; duplicate = some true }),
  (upload "r1" headers body start).1,
)
uploaded_again_example =
    Again.uploaded_again memory blobs nothing_else none from_utf8 from_str parse config lawful "r1"
      "r2" 10 10 headers body body start reply upload_1 refl

-- The body breaks off after the audio.
abbrev broken : Multipart
broken = record { fields = body.fields; intact = false }

refused_1 : NotCreated (upload "r1" headers broken start).0
unfolding upload_recording ◌>>=◌ trimmed_header trim is_whitespace client_by_fingerprint select_one
    get_recording_by_idempotency read_fields kind_of charge discard_field parse_tags
    parse_recorded_at parse_header temp_path relative_path full_path create_recording ◌then_read◌
    exists_row Status.as_str Status.parse
refused_1 = tt

refused_leaves_nothing_example :
    Untouched memory nothing_else none
      (relative_path "r1")
      start
      (upload "r1" headers broken start).1
refused_leaves_nothing_example =
    Refused.refused_leaves_nothing memory lawful removable blobs nothing_else none from_utf8
      from_str parse config "r1" 10 headers broken start refl refl refused_1

abbrev directories : Directories Disk
directories = record {
  create_dir_all = λ p s. (ok tt, s);
  read_dir = λ p s. ok ("upload-r9.part" ∷ "notes.txt" ∷ [], none);
}

abbrev interrupted : Disk
interrupted =
    put "/srv/data/tmp/upload-r9.part" (some (1 ∷ []))
      (put "/srv/data/tmp/notes.txt" (some (2 ∷ [])) disk)

store_made : (Startup.new memory directories "/srv/data" interrupted).0 ≡ ok blobs
unfolding Startup.new
store_made = refl

new-IsSwept_example :
    (names : List String) × (directories.read_dir "/srv/data/tmp" interrupted ≡ ok (names, none))
    × Swept.IsSwept memory directories "/srv/data/tmp" names interrupted
        (Startup.new memory directories "/srv/data" interrupted).1
    × ((id : String)
        → exists_row (λ n. n == ("upload-" <> id <> ".part")) names ≡ true
        → (Startup.new memory directories "/srv/data" interrupted).1 (temp_path blobs id) ≡ none)
new-IsSwept_example =
    Swept.new-IsSwept memory directories lawful removable (λ p q s. refl) "/srv/data" interrupted
      blobs store_made

-- The blob is in place when the connection fails.
abbrev in_place : World Disk
in_place = record { db = empty_db; files = put "/srv/data/recordings/r1.wav" (some (1 ∷ [])) disk }

abbrev new_row : NewRecording
new_row = record {
  id = "r1";
  client_id = "watch";
  client_recording_id = "w1";
  original_filename = none;
  blob_path = some (relative_path "r1");
  audio_size_bytes = none;
  audio_duration_ms = none;
  sample_rate_hz = none;
  channels = none;
  bits_per_sample = none;
  tags = record { values = [] };
  recorded_at = none;
  received_at = 10;
}

no_key : exists_row (has_key "watch" "w1") empty_db.recordings ≡ false
unfolding exists_row
no_key = refl

no_id : exists_row (λ r. r.id == "r1") empty_db.recordings ≡ false
unfolding exists_row
no_id = refl

abbrev lost_connection : StorageError
lost_connection = Rows.database Rows.io

abbrev gone_away : Fallible ApiError UploadResponse × World Disk
gone_away =
    insert_row memory blobs nothing_else (some lost_connection) (relative_path "r1") new_row
      in_place

row_without_blob_example :
    (gone_away.0 ≡ err (internal (storage lost_connection)))
    × (get_recording_by_idempotency "watch" "w1" gone_away.1.db ≡ Rows.ok (some (fresh new_row)))
    × ((fresh new_row).blob_path ≡ some (relative_path "r1"))
    × (gone_away.1.files (full_path blobs (relative_path "r1")) ≡ none)
row_without_blob_example =
    Dangling.row_without_blob memory lawful removable blobs nothing_else lost_connection
      (relative_path "r1") new_row in_place refl no_key no_id
