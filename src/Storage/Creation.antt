-- ===== src/Storage/Creation.antt =====
-- `create_recording` of src/storage/sqlite.rs on each of its outcomes.
use telegraph_center.Base.{
  Option-cases, ◌≡◌, refl, sym, ◌∙◌, ap, Bool, true, false, Option, none, some, [], ◌∷◌, ◌++◌,
  arith, subst, ◌==◌, Bool-cases, inl, inr, ◌⊎◌, eq_refl,
}
use telegraph_center.Base.Table.{exists_row}
use telegraph_center.Base.Table.Laws.{select_one-append, select_one-exists_row}
use telegraph_center.Domain.Status
use telegraph_center.Domain.Status.{received}
use telegraph_center.Domain.Entities.{Recording}
use telegraph_center.Storage.Rows.{
  StorageError, Db, Result, ok, err, recording_into_domain, recording_of, database, primary_key,
}
use telegraph_center.Storage.Tx.{reading, ◌then_read◌}
use telegraph_center.Storage.Recordings.{
  read_again, NewRecording, RecordingCreation, create_recording, insert_recording, has_key,
  new_recording_row, get_recording_by_idempotency, creation_of,
}

abbrev pub inserted : NewRecording → Db → Db
inserted new db = record db { recordings = db.recordings ++ new_recording_row new ∷ [] }

-- the Recording of a row that was just inserted
abbrev pub fresh : NewRecording → Recording
fresh new = recording_of (new_recording_row new) received

module _ (lost : Option StorageError) (new : NewRecording) (db : Db) where
  read_back : Result Bool × Db → Result RecordingCreation × Db
  read_back (ok created, d) = (
    creation_of new.id created
        (read_again lost (get_recording_by_idempotency new.client_id new.client_recording_id d)),
    d,
  )
  read_back (err e, d) = (err e, d)

  create-read_back : create_recording lost new db ≡ read_back (insert_recording new db)
  unfolding create_recording ◌then_read◌ reading read_back
  create-read_back = go (insert_recording new db).0 (insert_recording new db).1
    where
      go :
          (r : Result Bool) (d : Db)
          → (let s : Result RecordingCreation × Db = elim r [
            | ok created ↦ (
              creation_of new.id created (
                  read_again lost
                    (get_recording_by_idempotency new.client_id new.client_recording_id d)),
              d,
            )
            | err e ↦ (err e, d)
          ] in
              s)
            ≡ read_back (r, d)
      go (ok created) d = refl
      go (err e) d = refl

  found_again :
      exists_row (has_key new.client_id new.client_recording_id) db.recordings ≡ false
      → get_recording_by_idempotency new.client_id new.client_recording_id (inserted new db)
        ≡ ok (some (fresh new))
  unfolding get_recording_by_idempotency recording_into_domain Status.parse Status.as_str
  found_again h =
      let key = has_key new.client_id new.client_recording_id in
      rw
        (
          select_one-append key db.recordings (new_recording_row new),
          select_one-exists_row key db.recordings h,
          eq_refl new.client_id,
          eq_refl new.client_recording_id,
        )
        refl

  abbrev Unchanged : Result RecordingCreation × Db → Type 0
  Unchanged q = (q.1 ≡ db) × ((c : RecordingCreation) → q.0 ≡ ok c → c.created ≡ false)

  not_created : (r : Result (Option Recording)) → Unchanged (creation_of new.id false r, db)
  not_created (ok (some recording)) = (refl, λ c e. ground (arith, e))
  not_created (ok none) = (refl, λ c e. cc)
  not_created (err x) = (refl, λ c e. cc)

  unchanged :
      (q : Result Bool × Db)
      → insert_recording new db ≡ q
      → Unchanged (read_back q)
      → Unchanged (create_recording lost new db)
  unchanged q e h = subst Unchanged (sym (create-read_back ∙ ap read_back e)) h

  -- Either a new row was inserted, and read back, or it was inserted and the reading failed, or the
  -- database is as it was and the answer is no new Recording.
  pub create_recording_cases :
      ((create_recording lost new db
          ≡ (ok (record { recording = fresh new; created = true }), inserted new db))
        × (get_recording_by_idempotency new.client_id new.client_recording_id (inserted new db)
            ≡ ok (some (fresh new))))
      ⊎ (((e : StorageError) × (lost ≡ some e)
            × (create_recording lost new db ≡ (err e, inserted new db)))
          ⊎ Unchanged (create_recording lost new db))
  unfolding read_back insert_recording
  create_recording_cases =
      elim (Bool-cases (exists_row (has_key new.client_id new.client_recording_id) db.recordings)) [
        | inl known ↦
            let kept : insert_recording new db ≡ (ok false, db) = rw known refl in
            inr (inr (unchanged _ kept (not_created _)))
        | inr new_key ↦ elim (Bool-cases (exists_row (λ r. r.id == new.id) db.recordings)) [
          | inl taken ↦
              let kept : insert_recording new db ≡ (err (database primary_key), db) =
                rw (new_key, taken) refl in
              inr (inr (unchanged _ kept (refl, λ c e. cc)))
          | inr free ↦
              let added : insert_recording new db ≡ (ok true, inserted new db) =
                rw (new_key, free) refl in
              let back = found_again new_key in
              elim (Option-cases lost) [
                | inl kept ↦ inl (
                  create-read_back
                      ∙ ap read_back added
                      ∙ ap (λ r. (creation_of new.id true (read_again lost r), inserted new db))
                          back
                      ∙ ap
                          (λ l. (
                            creation_of new.id true (read_again l (ok (some (fresh new)))),
                            inserted new db,
                          ))
                          kept,
                  back,
                )
                | inr (e, gone) ↦ inr (
                    inl (
                      e,
                      gone,
                      create-read_back
                          ∙ ap read_back added
                          ∙ ap
                              (λ l. (
                                creation_of new.id true (
                                    read_again l (
                                      get_recording_by_idempotency new.client_id
                                        new.client_recording_id (inserted new db))),
                                inserted new db,
                              ))
                              gone,
                    ))
              ]
        ]
      ]

-- Where the key and the id are new and the reading fails, the row is there and the answer an error.
pub create_recording_lost :
    (e : StorageError) (new : NewRecording) (db : Db)
    → exists_row (has_key new.client_id new.client_recording_id) db.recordings ≡ false
    → exists_row (λ r. r.id == new.id) db.recordings ≡ false
    → (create_recording (some e) new db ≡ (err e, inserted new db))
      × (get_recording_by_idempotency new.client_id new.client_recording_id (inserted new db)
          ≡ ok (some (fresh new)))
unfolding read_back insert_recording
create_recording_lost e new db new_key free =
    let added : insert_recording new db ≡ (ok true, inserted new db) = rw (new_key, free) refl in
    (
      create-read_back (some e) new db ∙ ap (read_back (some e) new db) added,
      found_again (some e) new db new_key,
    )
