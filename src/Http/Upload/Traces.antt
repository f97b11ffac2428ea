-- ===== src/Http/Upload/Traces.antt =====
-- src/http/api.rs: the traces of the last part of an upload, the renaming and the insertion.
use telegraph_center.Base.{
  ℕ, String, ◌≡◌, refl, sym, ◌∙◌, ap, subst, Bool, true, false, Option, none, some, List, arith,
  ◌==◌, eq_iff, eq_refl, if◌then◌else◌, Bool-cases, inl, inr, ◌⊎◌,
}
use telegraph_center.Base.Fallible.{Fallible, ok, err}
use telegraph_center.Storage.Rows as Rows
use telegraph_center.Storage.Rows.{StorageError, Db, Result}
use telegraph_center.Storage.Recordings.{NewRecording, RecordingCreation}
use telegraph_center.Storage.Creation.{create_recording_cases, inserted}
use telegraph_center.Blob.{BlobStore, full_path}
use telegraph_center.Blob.Files.{
  FileSystem, IsLawful, IsRemovable, remove_file_lem, finalize, remove_blob,
}
use telegraph_center.Http.{ApiError}
use telegraph_center.Http.Upload.{UploadResponse, new_response}
use telegraph_center.Http.Upload.Fields.{World, Act, ◌>>=◌, attempt, on_files, from_io}
use telegraph_center.Http.Upload.Handler.{conclude, respond, insert_row, store_recording}
use telegraph_center.Http.Upload.Acts.{Only, Only-trans, Touches}

-- What an upload that creates no Recording leaves of the database: that of the start, or what the
-- other requests made of it, or this with the new row, where the reading after the INSERT failed.
pub data Left (meanwhile : Db → Db) (lost : Option StorageError) (relative : String)
    (before after : Db) : Type 0 where
  same : after ≡ before → Left meanwhile lost relative before after
  others : after ≡ meanwhile before → Left meanwhile lost relative before after
  row_stays :
      (e : StorageError) (new : NewRecording)
      → lost ≡ some e
      → new.blob_path ≡ some relative
      → after ≡ inserted new (meanwhile before)
      → Left meanwhile lost relative before after

module _ (fs : FileSystem) (blobs : BlobStore) (meanwhile : Db → Db) (lost : Option StorageError)
    (p relative : String) where
  -- Another database than at the start only by what other requests did, and no other files but
  -- perhaps the temporary one.
  pub record Kept (start w : World fs.State) : Type 0 where
    pub db : Left meanwhile lost relative start.db w.db
    pub files : (q : String) → (q == p) ≡ false → fs.contents q w.files ≡ fs.contents q start.files

  -- A reply that did not create a Recording keeps these; a reply to the Client that is no error has
  -- no temporary file.
  abbrev pub NoTrace : World fs.State → Fallible ApiError UploadResponse × World fs.State → Type 0
  NoTrace start (err e, w) = Kept start w
  NoTrace start (ok r, w) = (r.status_code ≡ 201) ⊎ (Kept start w × (fs.contents p w.files ≡ none))

  pub record Ends (start : World fs.State) (m : Act fs.State UploadResponse) : Type 0 where
    pub at : (w : World fs.State) → Only fs p start w → NoTrace start (m w)

  module _ (lawful : IsLawful fs) (removable : IsRemovable fs) (start : World fs.State) where
    Only-Kept : (w : World fs.State) → Only fs p start w → Kept start w
    Only-Kept w h = record { db = same h.db; files = h.files }

    pub Ends-error : (e : ApiError) → Ends start (attempt (err e))
    Ends-error e = record { at = λ w h. Only-Kept w h }

    pub Ends-bind :
        {A : Type 0} (m : Act fs.State A) (f : A → Act fs.State UploadResponse)
        → Touches fs p m
        → ((a : A) → Ends start (f a))
        → Ends start (m >>= f)
    unfolding ◌>>=◌
    Ends-bind m f tm ef = record { at = λ w h. go (m w).0 (m w).1 (after w h) }
      where
        after : (w : World fs.State) → Only fs p start w → Only fs p start (m w).1
        after w h = Only-trans h (tm.at w)

        go :
            (r : Fallible ApiError _) (w' : World fs.State)
            → Only fs p start w'
            → NoTrace start (
                let s : Fallible ApiError UploadResponse × World fs.State = elim r [
                  | ok a ↦ f a w'
                  | err c ↦ (err c, w')
                ] in
                s)
        go (ok a) w' h = (ef a).at w' h
        go (err c) w' h = Only-Kept w' h

    -- The file of the blob is new.
    module _ (new_blob : fs.contents (full_path blobs relative) start.files ≡ none) where
      abbrev renamed : String → fs.State → Option (List ℕ)
      renamed q s =
          if q == full_path blobs relative
          then fs.contents p s
          else if q == p
          then none
          else fs.contents q s

      -- Where the blob is removed again, the files are those of the start, without the temporary one.
      module _ (w : World fs.State) (s : fs.State) (only : Only fs p start w)
          (moved : (q : String) → fs.contents q s ≡ renamed q w.files) where
        removed_other :
            (q : String)
            → (q == p) ≡ false
            → fs.contents q (remove_blob fs blobs relative s) ≡ fs.contents q start.files
        unfolding remove_blob
        removed_other q other = elim (Bool-cases (q == full_path blobs relative)) [
          | inl e ↦
              let gone =
                subst (λ x. fs.contents x start.files ≡ none)
                  (sym ((eq_iff q (full_path blobs relative)).0 e)) new_blob in
              ground (arith, remove_file_lem fs lawful removable (full_path blobs relative) q s)
          | inr ne ↦ ground (
            arith,
            remove_file_lem fs lawful removable (full_path blobs relative) q s,
            moved q,
            only.files q other,
          )
        ]

        removed_temp : fs.contents p (remove_blob fs blobs relative s) ≡ none
        unfolding remove_blob
        removed_temp = ground (
          arith,
          remove_file_lem fs lawful removable (full_path blobs relative) p s,
          moved p,
          eq_refl p,
        )

        removed :
            (db : Db)
            → Left meanwhile lost relative start.db db
            → Kept start (record { db = db; files = remove_blob fs blobs relative s })
        removed db h = record { db = h; files = removed_other }

        respond-NoTrace :
            (recording : _) (created : Bool) (db : Db)
            → (created ≡ false → Left meanwhile lost relative start.db db)
            → NoTrace start (
                respond fs blobs meanwhile lost relative recording created
                  (record { db = db; files = s }))
        unfolding respond new_response
        respond-NoTrace recording true db h = inl refl
        respond-NoTrace recording false db h = inr (removed db (h refl), removed_temp)

        conclude-NoTrace :
            (r : Result RecordingCreation) (db : Db)
            → ((c : RecordingCreation) → r ≡ Rows.ok c → c.created ≡ false)
            → Left meanwhile lost relative start.db db
            → NoTrace start
                (conclude fs blobs meanwhile lost relative r (record { db = db; files = s }))
        unfolding conclude
        conclude-NoTrace (Rows.err e) db h k = removed db k
        conclude-NoTrace (Rows.ok c) db h k = respond-NoTrace c.recording c.created db (λ x. k)

        insert_row-NoTrace :
            (new : NewRecording)
            → new.blob_path ≡ some relative
            → NoTrace start
                (insert_row fs blobs meanwhile lost relative new (record { db = w.db; files = s }))
        unfolding insert_row conclude respond new_response
        insert_row-NoTrace new at = elim (create_recording_cases lost new (meanwhile w.db)) [
          | inl (made, _) ↦
              subst
                (λ q.
                  NoTrace start (
                    conclude fs blobs meanwhile lost relative q.0 (record { db = q.1; files = s })))
                (sym made) (inl refl)
          | inr (inl (e, gone, refused)) ↦
              subst
                (λ q.
                  NoTrace start (
                    conclude fs blobs meanwhile lost relative q.0 (record { db = q.1; files = s })))
                (sym refused)
                (removed _ (row_stays e new gone at (ap (λ d. inserted new (meanwhile d)) only.db)))
          | inr (inr (kept, not_new)) ↦
              conclude-NoTrace _ _ not_new (others (kept ∙ ap meanwhile only.db))
        ]

      pub store_recording-Ends :
          (new : NewRecording)
          → new.blob_path ≡ some relative
          → Ends start (store_recording fs blobs meanwhile lost p relative new)
      unfolding store_recording ◌>>=◌ on_files finalize
      store_recording-Ends new at_blob = record {
        at = λ w h.
            let blob = full_path blobs relative in
            go w h (fs.rename p blob w.files).0 (fs.rename p blob w.files).1
              (λ q e. lawful.rename_ok p blob q w.files e)
              (λ q e f. lawful.rename_failed p blob q e w.files f);
      }
        where
          go :
              (w : World fs.State)
              → Only fs p start w
              → (r : Fallible String (Unit {0})) (s : fs.State)
              → ((q : String) → r ≡ ok tt → fs.contents q s ≡ renamed q w.files)
              → ((q e : String) → r ≡ err e → fs.contents q s ≡ fs.contents q w.files)
              → NoTrace start (
                  let t : Fallible ApiError UploadResponse × World fs.State = elim (from_io r) [
                    | ok a ↦
                        insert_row fs blobs meanwhile lost relative new
                          (record { db = w.db; files = s })
                    | err c ↦ (err c, record { db = w.db; files = s })
                  ] in
                  t)
          go w h (ok u) s moved failed = insert_row-NoTrace w s h (λ q. moved q refl) new at_blob
          go w h (err e) s moved failed = record {
            db = same h.db;
            files = λ q o. failed q e refl ∙ h.files q o;
          }
