-- ===== src/Http/Upload/Fields.antt =====
-- src/http/api.rs: the loop over the fields of the multipart body. A computation of the handler
-- has the database and the files as its state, and keeps them where it ends in an error.
use telegraph_center.Base.{
  ℕ, String, Bool, true, false, Option, none, some, List, [], ◌∷◌, length, ◌==◌, if◌then◌else◌,
}
use telegraph_center.Base.Fallible.{Fallible, ok, err}
use telegraph_center.Storage.Rows as Rows
use telegraph_center.Storage.Rows.{Db, Result}
use telegraph_center.Blob.Files.{FileSystem}
use telegraph_center.Http.{ApiError, multiple_audio, invalid_multipart, internal, storage, io}
use telegraph_center.Http.Upload.{Field, charge, discard_field, read_text_field}

-- The variables that the loop assigns.
pub record Seen : Type 0 where
  pub audio_written : Bool
  pub original_filename : Option String
  pub tags_raw : Option String
  pub recorded_at_raw : Option String
  pub remaining : ℕ

abbrev pub nothing_seen : ℕ → Seen
nothing_seen budget = record {
  audio_written = false;
  original_filename = none;
  tags_raw = none;
  recorded_at_raw = none;
  remaining = budget;
}

-- What a field is to the handler, by its name.
pub data Kind : Type 0 where
  audio tags recorded_at unknown : Kind

unfoldable pub kind_of : Option String → Kind
kind_of none = unknown
kind_of (some name) =
    if name == "audio"
    then audio
    else if name == "tags"
    then tags
    else if name == "recorded_at"
    then recorded_at
    else unknown

-- `S` is what the files are.
pub record World (S : Type 0) : Type 0 where
  pub db : Db
  pub files : S

abbrev pub Act : Type 0 → Type 0 → Type 0
Act S A = World S → Fallible ApiError A × World S

module _ {S : Type 0} where
  infixl 5 ◌>>=◌ ◌>>◌
  unfoldable pub ◌>>=◌ : {A B : Type 0} → Act S A → (A → Act S B) → Act S B
  ◌>>=◌ m f w = let (r, w') = m w in elim r [ ok a ↦ f a w' | err e ↦ (err e, w') ]

  abbrev pub ◌>>◌ : {A B : Type 0} → Act S A → Act S B → Act S B
  m >> k = m >>= λ _. k

  abbrev pub done : {A : Type 0} → A → Act S A
  done a w = (ok a, w)

  abbrev pub attempt : {A : Type 0} → Fallible ApiError A → Act S A
  attempt r w = (r, w)

-- `From<io::Error>` and `From<StorageError>`
abbrev pub from_io : {A : Type 0} → Fallible String A → Fallible ApiError A
from_io (ok a) = ok a
from_io (err e) = err (internal (io e))

abbrev pub from_storage : {A : Type 0} → Result A → Fallible ApiError A
from_storage (Rows.ok a) = ok a
from_storage (Rows.err e) = err (internal (storage e))

unfoldable pub on_files : {S A : Type 0} → (S → Fallible String A × S) → Act S A
on_files call w = let (r, files) = call w.files in (from_io r, record { db = w.db; files = files })

module _ (fs : FileSystem) where
  unfoldable pub write_chunks : String → List (List ℕ) → Bool → ℕ → Act fs.State ℕ
  unfolding on_files
  write_chunks path [] true remaining = do on_files (fs.flush path); done remaining
  write_chunks path [] false remaining = attempt (err invalid_multipart)
  write_chunks path (chunk ∷ chunks) intact remaining = do
    left ← attempt (charge remaining (length chunk))
    on_files (fs.write_all path chunk)
    write_chunks path chunks intact left

  unfoldable pub stream_to_file : Field → String → ℕ → Act fs.State ℕ
  unfolding on_files write_chunks
  stream_to_file field path remaining = do
    on_files (fs.create path)
    write_chunks path field.chunks field.intact remaining

  module _ (from_utf8 : List ℕ → Option String) where
    -- The field `audio`, where `true` tells that there was one before.
    unfoldable pub read_audio : String → Field → Bool → Seen → Act fs.State Seen
    unfolding stream_to_file
    read_audio temp_path field true seen = attempt (err multiple_audio)
    read_audio temp_path field false seen = do
      left ← stream_to_file field temp_path seen.remaining
      done (record seen {
        audio_written = true;
        original_filename = field.file_name;
        remaining = left;
      })

    -- One turn of the loop.
    unfoldable pub read_field : String → Field → Kind → Seen → Act fs.State Seen
    unfolding read_audio
    read_field temp_path field audio seen = read_audio temp_path field seen.audio_written seen
    read_field temp_path field tags seen = do
      (text, left) ← attempt (read_text_field from_utf8 field seen.remaining)
      done (record seen { tags_raw = some text; remaining = left })
    read_field temp_path field recorded_at seen = do
      (text, left) ← attempt (read_text_field from_utf8 field seen.remaining)
      done (record seen { recorded_at_raw = some text; remaining = left })
    read_field temp_path field unknown seen = do
      left ← attempt (discard_field field.chunks field.intact seen.remaining)
      done (record seen { remaining = left })

    unfoldable pub read_fields : String → List Field → Bool → Seen → Act fs.State Seen
    unfolding read_field
    read_fields temp_path [] true seen = done seen
    read_fields temp_path [] false seen = attempt (err invalid_multipart)
    read_fields temp_path (field ∷ fields) intact seen = do
      seen' ← read_field temp_path field (kind_of field.name) seen
      read_fields temp_path fields intact seen'
