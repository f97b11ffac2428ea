-- ===== src/Http/Upload/Again.antt =====
-- src/http/api.rs: the whole handler, where it creates a Recording and where it is called again.
use telegraph_center.Base.{
  ◌≤◌, ℕ, String, ◌≡◌, refl, sym, ◌∙◌, ap, true, Option, none, some, List, arith,
}
use telegraph_center.Base.Fallible.{Fallible, ok, err}
use telegraph_center.Retry.{Time}
use telegraph_center.Config.{AppConfig, ClientConfig, client_by_fingerprint}
use telegraph_center.Domain.Entities.{Recording}
use telegraph_center.Storage.Rows as Rows
use telegraph_center.Storage.Rows.{StorageError, Db}
use telegraph_center.Storage.Recordings.{get_recording_by_idempotency}
use telegraph_center.Blob.{BlobStore, temp_path}
use telegraph_center.Blob.Files.{FileSystem, IsLawful}
use telegraph_center.Http.{ApiError, missing_fingerprint, unknown_client, missing_recording_id}
use telegraph_center.Http.Upload.{
  Multipart, Headers, trimmed_header, fingerprint_header, recording_id_header, UploadResponse,
  new_response, duplicate_response,
}
use telegraph_center.Http.Upload.Fields.{World, ◌>>=◌}
use telegraph_center.Http.Upload.Handler.{
  Identity, or_error, ingest, cleaned, unless_known, upload_recording,
}
use telegraph_center.Http.Upload.Acts.{attempt_then}
use telegraph_center.Http.Upload.Bytes.{audio_of}
use telegraph_center.Http.Upload.Budget.{body_size}
use telegraph_center.Http.Upload.Stored.{Stored, ingest_created}

-- The headers name the Client and its id of the Recording.
pub record IsUploader (config : AppConfig) (headers : Headers) (who : Identity) : Type 0 where
  pub fingerprint : String
  pub client : ClientConfig
  pub sent : trimmed_header headers fingerprint_header ≡ some fingerprint
  pub known : client_by_fingerprint config fingerprint ≡ some client
  pub named : client.name ≡ who.client_id
  pub key : trimmed_header headers recording_id_header ≡ some who.client_recording_id

or_error-some :
    {A : Type 0} (e : ApiError) (o : Option A) (a : A) → or_error e o ≡ ok a → o ≡ some a
or_error-some e (some b) a h = ground (arith, h)
or_error-some e none a h = cc

module _ (fs : FileSystem) (blobs : BlobStore) (meanwhile : Db → Db) (lost : Option StorageError)
    (from_utf8 : List ℕ → Option String) (from_str : String → Option (List String))
    (parse : String → Option Time) (config : AppConfig) where
  -- The key of a Recording that is there is answered at once, and nothing changes.
  known_again :
      (who : Identity) (recording_id : String) (received_at : Time) (headers : Headers)
      (multipart : Multipart) (w : World fs.State) (recording : Recording)
      → IsUploader config headers who
      → get_recording_by_idempotency who.client_id who.client_recording_id w.db
        ≡ Rows.ok (some recording)
      → upload_recording fs blobs meanwhile lost from_utf8 from_str parse config recording_id
          received_at headers multipart w
        ≡ (ok (duplicate_response recording), w)
  unfolding upload_recording ◌>>=◌ unless_known
  known_again who recording_id received_at headers multipart w recording u found =
      rw (u.sent, u.known, u.key, u.named, found) refl

  module _ (lawful : IsLawful fs) where
    unless_known_created :
        (who : Identity) (multipart : Multipart) (q : Fallible ApiError (Option Recording))
        (w : World fs.State) (r : UploadResponse)
        → (unless_known fs blobs meanwhile lost from_utf8 from_str parse config who multipart q w).0
          ≡ ok r
        → r.status_code ≡ 201
        → Stored fs blobs who
            (audio_of multipart.fields)
            r
            (unless_known fs blobs meanwhile lost from_utf8 from_str parse config who multipart q
              w).1
          × (body_size multipart.fields ≤ config.data_config.max_upload_bytes)
    unfolding unless_known duplicate_response
    unless_known_created who multipart (err e) w r h made = cc
    unless_known_created who multipart (ok (some x)) w r h made = ground (arith, h, made)
    unless_known_created who multipart (ok none) w r h made =
        go
          (ingest fs blobs meanwhile lost from_utf8 from_str parse config who
            (temp_path blobs who.recording_id) multipart w)
          (λ e.
            ingest_created fs blobs meanwhile lost lawful from_utf8 from_str parse config who
              (temp_path blobs who.recording_id) multipart w r e made)
          h
      where
        go :
            (q : Fallible ApiError UploadResponse × World fs.State)
            → (q.0 ≡ ok r
                → Stored fs blobs who (audio_of multipart.fields) r q.1
                  × (body_size multipart.fields ≤ config.data_config.max_upload_bytes))
            → (cleaned fs blobs meanwhile lost from_utf8 from_str parse config
                (temp_path blobs who.recording_id)
                q).0
              ≡ ok r
            → Stored fs blobs who
                (audio_of multipart.fields)
                r
                (cleaned fs blobs meanwhile lost from_utf8 from_str parse config
                  (temp_path blobs who.recording_id)
                  q).1
              × (body_size multipart.fields ≤ config.data_config.max_upload_bytes)
        go (ok x, v) f g = f g
        go (err e, v) f g = cc

    -- Where an upload is answered with 201, the headers name a configured Client, the Recording of
    -- the answer is found under that Client's key, it has the generated id and the path of a file
    -- that holds exactly the bytes of the audio field, whose number it tells, and all fields of the
    -- body together were no larger than the configured limit. The file system does what its
    -- documentation says.
    pub upload_recording-Stored :
        (recording_id : String) (received_at : Time) (headers : Headers) (multipart : Multipart)
        (w : World fs.State) (r : UploadResponse)
        → let q =
            upload_recording fs blobs meanwhile lost from_utf8 from_str parse config recording_id
              received_at headers multipart w in
          q.0 ≡ ok r
          → r.status_code ≡ 201
          → (who : Identity) × (who.recording_id ≡ recording_id)
            × IsUploader config headers who
            × Stored fs blobs who (audio_of multipart.fields) r q.1
            × (body_size multipart.fields ≤ config.data_config.max_upload_bytes)
    unfolding upload_recording
    upload_recording-Stored recording_id received_at headers multipart w r =
        attempt_then P _ _ w (λ e h made. cc)
          λ fingerprint sent.
            attempt_then P _ _ w (λ e h made. cc)
              λ client known.
                attempt_then P _ _ w (λ e h made. cc)
                  λ key named h made.
                    let who : Identity = record {
                      client_id = client.name;
                      client_recording_id = key;
                      recording_id = recording_id;
                      received_at = received_at;
                    } in
                    let (stored, fits) = unless_known_created who multipart _ w r h made in
                    (
                      who,
                      refl,
                      record {
                        fingerprint = fingerprint;
                        client = client;
                        sent = or_error-some missing_fingerprint _ fingerprint sent;
                        known = or_error-some unknown_client _ client known;
                        named = refl;
                        key = or_error-some missing_recording_id _ key named;
                      },
                      stored,
                      fits,
                    )
      where
        P : Fallible ApiError UploadResponse × World fs.State → Type 0
        P q =
            q.0 ≡ ok r
            → r.status_code ≡ 201
            → (who : Identity) × (who.recording_id ≡ recording_id)
              × IsUploader config headers who
              × Stored fs blobs who (audio_of multipart.fields) r q.1
              × (body_size multipart.fields ≤ config.data_config.max_upload_bytes)

    -- An upload that was answered with 201 and is sent again with the same headers, whatever its
    -- body is then, before anything else changes the database or the files that the first one left,
    -- is answered with 200 as a duplicate, with the same id and status, and changes neither.
    pub uploaded_again :
        (id id' : String) (at at' : Time) (headers : Headers) (body body' : Multipart)
        (w : World fs.State) (r : UploadResponse)
        → let upload = upload_recording fs blobs meanwhile lost from_utf8 from_str parse config in
          let q = upload id at headers body w in
          q.0 ≡ ok r
          → r.status_code ≡ 201
          → upload id' at' headers body' q.1
            ≡ (ok (record r { status_code = 200; duplicate = some true }), q.1)
    unfolding new_response duplicate_response
    uploaded_again id id' at at' headers body body' w r e made =
        let (who, _, uploader, stored, _) = upload_recording-Stored id at headers body w r e made in
        known_again who id' at' headers body' _ stored.recording uploader stored.found
        ∙ ap
            (λ x. (
              ok (record x { status_code = 200; duplicate = some true }),
              (upload_recording fs blobs meanwhile lost from_utf8 from_str parse config id at
                  headers body w).1,
            ))
            (sym stored.response)
