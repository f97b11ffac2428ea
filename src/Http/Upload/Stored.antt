-- ===== src/Http/Upload/Stored.antt =====
-- src/http/api.rs: what an upload that creates a Recording has stored.
use telegraph_center.Base.{
  ℕ, ◌≤◌, String, ◌≡◌, refl, sym, ◌∙◌, ap, subst, Bool, true, false, Option, some, List, arith,
  length, eq_refl, inl, inr,
}
use telegraph_center.Base.Int.{pos}
use telegraph_center.Base.Fallible.{Fallible, ok, err}
use telegraph_center.Retry.{Time}
use telegraph_center.Config.{AppConfig}
use telegraph_center.Domain.Entities.{Recording}
use telegraph_center.Storage.Rows as Rows
use telegraph_center.Storage.Rows.{StorageError, Db, Result}
use telegraph_center.Storage.Recordings.{
  NewRecording, RecordingCreation, get_recording_by_idempotency,
}
use telegraph_center.Storage.Creation.{create_recording_cases, fresh, inserted}
use telegraph_center.Blob.{BlobStore, relative_path, full_path}
use telegraph_center.Blob.Files.{FileSystem, IsLawful, finalize}
use telegraph_center.Http.{ApiError}
use telegraph_center.Http.Upload.{UploadResponse, new_response, duplicate_response, Multipart}
use telegraph_center.Http.Upload.Fields.{Seen, World, on_files, from_io}
use telegraph_center.Http.Upload.Handler.{
  Identity, conclude, respond, insert_row, store_recording, validate_and_store, ingest,
  read_leading_bytes, file_size, new_recording,
}
use telegraph_center.Http.Upload.Acts.{bind_ok}
use telegraph_center.Http.Upload.Bytes.{read_fields-audio, audio_of, from_io_ok}
use telegraph_center.Http.Upload.Budget.{read_fields_ok, body_size}

from_io_value : {A : Type 0} (r : Fallible String A) (a : A) → from_io r ≡ ok a → r ≡ ok a
from_io_value (ok b) a h = ground (arith, h)
from_io_value (err e) a h = cc

module _ (fs : FileSystem) (blobs : BlobStore) where
  -- The Recording of the response is in the database under the Client's key, and its blob path leads
  -- to the bytes, whose number it tells.
  pub record Stored (who : Identity) (bytes : List ℕ) (r : UploadResponse) (w : World fs.State)
      : Type 0 where
    pub recording : Recording
    pub found :
        get_recording_by_idempotency who.client_id who.client_recording_id w.db
        ≡ Rows.ok (some recording)
    pub response : r ≡ new_response recording
    pub id : recording.id ≡ who.recording_id
    pub blob_path : recording.blob_path ≡ some (relative_path who.recording_id)
    pub size : recording.audio_size_bytes ≡ some (pos (length bytes))
    pub audio : fs.contents (full_path blobs (relative_path who.recording_id)) w.files ≡ some bytes

  module _ (meanwhile : Db → Db) (lost : Option StorageError) where
    -- A row that was not created gives no reply 201.
    not_201 :
        (relative : String) (q : Result RecordingCreation) (w : World fs.State) (r : UploadResponse)
        → ((c : RecordingCreation) → q ≡ Rows.ok c → c.created ≡ false)
        → (conclude fs blobs meanwhile lost relative q w).0 ≡ ok r
        → r.status_code ≡ 201
        → ⊥
    unfolding conclude respond duplicate_response
    not_201 relative (Rows.err e) w r h e1 e2 = cc
    not_201 relative (Rows.ok c) w r h e1 e2 = go c.created (h c refl) e1
      where
        go :
            (b : Bool)
            → b ≡ false
            → (respond fs blobs meanwhile lost relative c.recording b w).0 ≡ ok r
            → ⊥
        go true f g = cc
        go false f g = ground (arith, g, e2)

    insert_row_created :
        (relative : String) (new : NewRecording) (w : World fs.State) (r : UploadResponse)
        → (insert_row fs blobs meanwhile lost relative new w).0 ≡ ok r
        → r.status_code ≡ 201
        → (r ≡ new_response (fresh new))
          × ((insert_row fs blobs meanwhile lost relative new w).1.files ≡ w.files)
          × (get_recording_by_idempotency new.client_id new.client_recording_id
                (insert_row fs blobs meanwhile lost relative new w).1.db
              ≡ Rows.ok (some (fresh new)))
    unfolding insert_row conclude respond
    insert_row_created relative new w r e made =
        elim (create_recording_cases lost new (meanwhile w.db)) [
          | inl (created, found) ↦
              let same : insert_row fs blobs meanwhile lost relative new w ≡ (
                ok (new_response (fresh new)),
                record w { db = inserted new (meanwhile w.db) },
              ) =
                ap (λ q. conclude fs blobs meanwhile lost relative q.0 (record w { db = q.1 }))
                  created in
              (
                replied r (ap (λ q. q.0) same) e,
                ap (λ q. q.1.files) same,
                ap (λ q. get_recording_by_idempotency new.client_id new.client_recording_id q.1.db)
                      same
                    ∙ found,
              )
          | inr (inl (lost_error, gone, refused)) ↦ absurd (
              no_reply r
                (ap (λ q. (conclude fs blobs meanwhile lost relative q.0 (record w { db = q.1 })).0)
                  refused)
                e)
          | inr (inr (kept, not_new)) ↦ absurd (not_201 relative _ _ r not_new e made)
        ]
      where
        replied :
            (r : UploadResponse) {x : Fallible ApiError UploadResponse}
            → x ≡ ok (new_response (fresh new))
            → x ≡ ok r
            → r ≡ new_response (fresh new)
        replied r f g = cc

        no_reply :
            (r : UploadResponse) {x : Fallible ApiError UploadResponse} {c : ApiError}
            → x ≡ err c
            → x ≡ ok r
            → ⊥
        no_reply r f g = cc

    store_recording_created :
        (temp relative : String) (new : NewRecording) (w : World fs.State) (r : UploadResponse)
        → IsLawful fs
        → (store_recording fs blobs meanwhile lost temp relative new w).0 ≡ ok r
        → r.status_code ≡ 201
        → (r ≡ new_response (fresh new))
          × (fs.contents
                (full_path blobs relative)
                (store_recording fs blobs meanwhile lost temp relative new w).1.files
              ≡ fs.contents temp w.files)
          × (get_recording_by_idempotency new.client_id new.client_recording_id
                (store_recording fs blobs meanwhile lost temp relative new w).1.db
              ≡ Rows.ok (some (fresh new)))
    unfolding store_recording on_files finalize
    store_recording_created temp relative new w r lawful e made =
        let blob = full_path blobs relative in
        let (u, renamed, rest, same) = bind_ok _ _ w r e in
        let (reply, files, found) = insert_row_created relative new _ r rest made in
        let moved = lawful.rename_ok temp blob blob w.files (from_io_ok _ u renamed) in
        (
          reply,
          ap (λ q. fs.contents blob q.1.files) same
              ∙ ap (fs.contents blob) files
              ∙ ground (arith, moved, eq_refl blob),
          ap (λ q. get_recording_by_idempotency new.client_id new.client_recording_id q.1.db) same
              ∙ found,
        )

    module _ (lawful : IsLawful fs) (from_utf8 : List ℕ → Option String)
        (from_str : String → Option (List String)) (parse : String → Option Time)
        (config : AppConfig) where
      validate_and_store_created :
          (who : Identity) (temp : String) (flag : Bool) (seen : Seen) (bytes : List ℕ)
          (w : World fs.State) (r : UploadResponse)
          → (flag ≡ true → fs.contents temp w.files ≡ some bytes)
          → (validate_and_store fs blobs meanwhile lost from_utf8 from_str parse config who temp
              flag seen w).0
            ≡ ok r
          → r.status_code ≡ 201
          → Stored who bytes r
              (validate_and_store fs blobs meanwhile lost from_utf8 from_str parse config who temp
                flag seen w).1
      unfolding validate_and_store read_leading_bytes file_size new_recording
      validate_and_store_created who temp false seen bytes w r held e made = cc
      validate_and_store_created who temp true seen bytes w r held e made =
          let (tags, _, rest1, same1) = bind_ok _ _ w r e in
          let (at, _, rest2, same2) = bind_ok _ _ w r rest1 in
          let (header, _, rest3, same3) = bind_ok _ _ w r rest2 in
          let (info, _, rest4, same4) = bind_ok _ _ w r rest3 in
          let (size, measured, rest5, same5) = bind_ok _ _ w r rest4 in
          let new = new_recording who seen tags at info size in
          let (reply, moved, found) =
            store_recording_created temp (relative_path who.recording_id) new w r lawful rest5
              made in
          let same = same1 ∙ same2 ∙ same3 ∙ same4 ∙ same5 in
          let counted =
            lawful.metadata_len temp size bytes w.files (from_io_value _ size measured)
              (held refl) in
          record {
            recording = fresh new;
            found =
                ap (λ q. get_recording_by_idempotency who.client_id who.client_recording_id q.1.db)
                  same
                ∙ found;
            response = reply;
            id = refl;
            blob_path = refl;
            size = ap (λ n. some (pos n)) counted;
            audio =
                ap (λ q. fs.contents (full_path blobs (relative_path who.recording_id)) q.1.files)
                  same
                ∙ moved
                ∙ held refl;
          }

      pub ingest_created :
          (who : Identity) (temp : String) (multipart : Multipart) (w : World fs.State)
          (r : UploadResponse)
          → (ingest fs blobs meanwhile lost from_utf8 from_str parse config who temp multipart w).0
            ≡ ok r
          → r.status_code ≡ 201
          → Stored who
              (audio_of multipart.fields)
              r
              (ingest fs blobs meanwhile lost from_utf8 from_str parse config who temp multipart
                w).1
            × (body_size multipart.fields ≤ config.data_config.max_upload_bytes)
      unfolding ingest
      ingest_created who temp multipart w r e made =
          let (seen, read, rest, same) = bind_ok _ _ w r e in
          let sum =
            read_fields_ok fs from_utf8 temp multipart.fields multipart.intact _ seen w read in
          (
            subst (λ q. Stored who (audio_of multipart.fields) r q.1) (sym same)
                (validate_and_store_created who temp seen.audio_written seen
                  (audio_of multipart.fields) _ r
                  (read_fields-audio fs lawful temp from_utf8 multipart.fields multipart.intact
                    config.data_config.max_upload_bytes seen w read)
                  rest made),
            omega (arith, sum),
          )
