-- ===== src/Http/Upload/Dangling.antt =====
-- src/http/api.rs: the insertion of the row, where the connection fails after the INSERT.
use telegraph_center.Base.{String, refl, ◌≡◌, ◌∙◌, ap, false, some, none, ◌==◌, eq_refl}
use telegraph_center.Base.Fallible.{err}
use telegraph_center.Base.Table.{exists_row}
use telegraph_center.Storage.Rows as Rows
use telegraph_center.Storage.Rows.{StorageError, Db}
use telegraph_center.Storage.Recordings.{NewRecording, has_key, get_recording_by_idempotency}
use telegraph_center.Storage.Creation.{create_recording_lost, fresh}
use telegraph_center.Blob.{BlobStore, full_path}
use telegraph_center.Blob.Files.{FileSystem, IsLawful, IsRemovable, remove_file_lem, remove_blob}
use telegraph_center.Http.{internal, storage}
use telegraph_center.Http.Upload.Fields.{World}
use telegraph_center.Http.Upload.Handler.{insert_row, conclude}

module _ (fs : FileSystem) (lawful : IsLawful fs) (removable : IsRemovable fs) (blobs : BlobStore)
    (meanwhile : Db → Db) where
  -- Where the reading after a committed INSERT fails, the answer is an internal error and the blob is
  -- removed, but the Recording is stored under the Client's key, with the path of that blob, which
  -- leads to no file. Its key and id were new, the file system does what its documentation says, and
  -- nothing keeps a file from being removed.
  pub row_without_blob :
      (e : StorageError) (relative : String) (new : NewRecording) (w : World fs.State)
      → new.blob_path ≡ some relative
      → exists_row (has_key new.client_id new.client_recording_id) (meanwhile w.db).recordings
        ≡ false
      → exists_row (λ r. r.id == new.id) (meanwhile w.db).recordings ≡ false
      → let q = insert_row fs blobs meanwhile (some e) relative new w in
        (q.0 ≡ err (internal (storage e)))
        × (get_recording_by_idempotency new.client_id new.client_recording_id q.1.db
            ≡ Rows.ok (some (fresh new)))
        × ((fresh new).blob_path ≡ some relative)
        × (fs.contents (full_path blobs relative) q.1.files ≡ none)
  unfolding insert_row conclude remove_blob
  row_without_blob e relative new w at new_key free =
      let (lost, found) = create_recording_lost e new (meanwhile w.db) new_key free in
      let same =
        ap (λ q. conclude fs blobs meanwhile (some e) relative q.0 (record w { db = q.1 })) lost in
      let blob = full_path blobs relative in
      (
        ap (λ q. q.0) same,
        ap (λ q. get_recording_by_idempotency new.client_id new.client_recording_id q.1.db) same
            ∙ found,
        at,
        ap (λ q. fs.contents blob q.1.files) same
            ∙ remove_file_lem fs lawful removable blob blob w.files
            ∙ rw (eq_refl blob) refl,
      )
