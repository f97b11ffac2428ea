-- ===== src/Http/Upload/Refused.antt =====
-- src/http/api.rs: what an upload that creates no Recording leaves behind.
use telegraph_center.Base.{
  ℕ, String, ◌≡◌, ◌≢◌, refl, sym, ◌∙◌, ap, subst, Bool, true, false, Option, none, some, List,
  arith, ◌==◌, eq_iff, Bool-cases, inl, inr,
}
use telegraph_center.Base.Fallible.{Fallible, ok, err}
use telegraph_center.Retry.{Time}
use telegraph_center.Config.{AppConfig}
use telegraph_center.Domain.Entities.{Recording}
use telegraph_center.Storage.Rows.{StorageError, Db}
use telegraph_center.Blob.{BlobStore, relative_path, temp_path, full_path}
use telegraph_center.Blob.Files.{FileSystem, IsLawful, IsRemovable, remove_file_lem, remove_temp}
use telegraph_center.Http.{ApiError}
use telegraph_center.Http.Upload.{Multipart, Headers, UploadResponse, header_scan_bytes}
use telegraph_center.Http.Upload.Fields.{Seen, World, Act, ◌>>=◌}
use telegraph_center.Http.Upload.Handler.{
  Identity, validate_and_store, ingest, cleaned, unless_known, upload_recording, read_leading_bytes,
  file_size,
}
use telegraph_center.Http.Upload.Traces.{
  Left, same, NoTrace, Ends, Ends-error, Ends-bind, store_recording-Ends,
}
use telegraph_center.Http.Upload.Acts.{attempt_then, Touches, Touches-attempt, Touches-read_fields}

-- An error, or a reply other than 201.
abbrev pub NotCreated : Fallible ApiError UploadResponse → Type 0
NotCreated (err e) = Unit {0}
NotCreated (ok r) = r.status_code ≢ 201

-- The files are the same, and so is the database, but for what other requests did and for the row
-- whose reading failed.
abbrev pub Untouched :
    (fs : FileSystem)
    → (Db → Db)
    → Option StorageError
    → String
    → World fs.State
    → World fs.State
    → Type 0
Untouched fs meanwhile lost relative start w =
    Left meanwhile lost relative start.db w.db
    × ((q : String) → fs.contents q w.files ≡ fs.contents q start.files)

module _ (fs : FileSystem) (lawful : IsLawful fs) (removable : IsRemovable fs) (blobs : BlobStore)
    (meanwhile : Db → Db) (lost : Option StorageError) (from_utf8 : List ℕ → Option String)
    (from_str : String → Option (List String)) (parse : String → Option Time)
    (config : AppConfig) where
  module _ (who : Identity) (start : World fs.State)
      (new_blob : fs.contents (full_path blobs (relative_path who.recording_id)) start.files
        ≡ none) where
    abbrev temp : String
    temp = temp_path blobs who.recording_id

    abbrev relative : String
    relative = relative_path who.recording_id

    Touches-read : (path : String) (n : ℕ) → Touches fs temp (read_leading_bytes fs path n)
    unfolding read_leading_bytes
    Touches-read path n = record { at = λ w. record { db = refl; files = λ q h. refl } }

    Touches-size : (path : String) → Touches fs temp (file_size fs path)
    unfolding file_size
    Touches-size path = record { at = λ w. record { db = refl; files = λ q h. refl } }

    validate_and_store-Ends :
        (flag : Bool) (seen : Seen)
        → Ends fs blobs meanwhile lost temp relative start (
            validate_and_store fs blobs meanwhile lost from_utf8 from_str parse config who temp flag
              seen)
    unfolding validate_and_store
    validate_and_store-Ends false seen =
        Ends-error fs blobs meanwhile lost temp relative lawful removable start _
    validate_and_store-Ends true seen = bind (Touches-attempt _) λ tags.
        bind (Touches-attempt _) λ recorded_at. bind (Touches-read temp header_scan_bytes) λ header.
          bind (Touches-attempt _) λ info. bind (Touches-size temp) λ size.
            store_recording-Ends fs blobs meanwhile lost temp relative lawful removable start
              new_blob _ refl
      where
        bind :
            {A : Type 0} {m : Act fs.State A} {f : A → Act fs.State UploadResponse}
            → Touches fs temp m
            → ((a : A) → Ends fs blobs meanwhile lost temp relative start (f a))
            → Ends fs blobs meanwhile lost temp relative start (m >>= f)
        bind tm ef =
            Ends-bind fs blobs meanwhile lost temp relative lawful removable start _ _ tm ef

    ingest-Ends :
        (multipart : Multipart)
        → Ends fs blobs meanwhile lost temp relative start
            (ingest fs blobs meanwhile lost from_utf8 from_str parse config who temp multipart)
    unfolding ingest
    ingest-Ends multipart =
        Ends-bind fs blobs meanwhile lost temp relative lawful removable start _ _
          (Touches-read_fields fs lawful temp from_utf8 multipart.fields multipart.intact _)
          λ seen. validate_and_store-Ends seen.audio_written seen

    cleaned-Untouched :
        (q : Fallible ApiError UploadResponse × World fs.State)
        → fs.contents temp start.files ≡ none
        → NoTrace fs blobs meanwhile lost temp relative start q
        → let c = cleaned fs blobs meanwhile lost from_utf8 from_str parse config temp q in
          NotCreated c.0 → Untouched fs meanwhile lost relative start c.1
    unfolding remove_temp
    cleaned-Untouched (err e, w) new_temp h n = (
      h.db,
      λ q. elim (Bool-cases (q == temp)) [
        | inl e ↦
            let gone =
              subst (λ x. fs.contents x start.files ≡ none) (sym ((eq_iff q temp).0 e)) new_temp in
            ground (arith, remove_file_lem fs lawful removable temp q w.files)
        | inr ne ↦ ground (arith, remove_file_lem fs lawful removable temp q w.files, h.files q ne)
      ],
    )
    cleaned-Untouched (ok r, w) new_temp (inl made) n = absurd (n made)
    cleaned-Untouched (ok r, w) new_temp (inr (kept, gone)) n = (
      kept.db,
      λ q. elim (Bool-cases (q == temp)) [
        | inl e ↦
            let same : q ≡ temp = (eq_iff q temp).0 e in
            ap (λ x. fs.contents x w.files) same
            ∙ gone
            ∙ sym (ap (λ x. fs.contents x start.files) same ∙ new_temp)
        | inr ne ↦ kept.files q ne
      ],
    )

    unless_known-Untouched :
        (multipart : Multipart) (r : Fallible ApiError (Option Recording))
        → fs.contents temp start.files ≡ none
        → let q =
            unless_known fs blobs meanwhile lost from_utf8 from_str parse config who multipart r
              start in
          NotCreated q.0 → Untouched fs meanwhile lost relative start q.1
    unfolding unless_known remove_temp
    unless_known-Untouched multipart (err e) new_temp n = (same refl, λ q. refl)
    unless_known-Untouched multipart (ok (some existing)) new_temp n = (same refl, λ q. refl)
    unless_known-Untouched multipart (ok none) new_temp n =
        cleaned-Untouched _ new_temp
          ((ingest-Ends multipart).at start (record { db = refl; files = λ q h. refl })) n

  -- An upload that is refused, or answered as a duplicate, leaves every file as it was, whether it
  -- ends before, within or after the transfer of the audio; and the database as it was, or as the
  -- other requests left it meanwhile, but for one case: where the reading after the INSERT fails,
  -- the new row stays, with the path of the blob that is removed. The two file names of the
  -- generated id are new, the file system does what its documentation says, and nothing keeps a
  -- file from being removed.
  pub refused_leaves_nothing :
      (recording_id : String) (received_at : Time) (headers : Headers) (multipart : Multipart)
      (start : World fs.State)
      → fs.contents (temp_path blobs recording_id) start.files ≡ none
      → fs.contents (full_path blobs (relative_path recording_id)) start.files ≡ none
      → let q =
          upload_recording fs blobs meanwhile lost from_utf8 from_str parse config recording_id
            received_at headers multipart start in
        NotCreated q.0 → Untouched fs meanwhile lost (relative_path recording_id) start q.1
  unfolding upload_recording
  refused_leaves_nothing recording_id received_at headers multipart start new_temp new_blob =
      attempt_then P _ _ start unchanged λ fingerprint e.
        attempt_then P _ _ start unchanged λ client e.
          attempt_then P _ _ start unchanged
            λ client_recording_id e. unless_known-Untouched _ start new_blob multipart _ new_temp
    where
      P : Fallible ApiError UploadResponse × World fs.State → Type 0
      P q = NotCreated q.0 → Untouched fs meanwhile lost (relative_path recording_id) start q.1

      unchanged : (e : ApiError) → P (err e, start)
      unchanged e n = (same refl, λ q. refl)
