-- ===== src/Storage/Guarded.antt =====
-- `guarded_transition` of src/storage/sqlite.rs on every column of every table.
use telegraph_center.Base.{
  String, ◌≡◌, refl, true, false, Option, none, some, arith, ◌==◌, eq_iff, ◌⊎◌, inl, inr,
  Bool-cases, map_option, ◌∙◌, ap,
}
use telegraph_center.Base.Table.Laws.{select_one-update_where, select_one_fits, updated}
use telegraph_center.Retry.{Time}
use telegraph_center.Domain.Status
use telegraph_center.Domain.Status.{RecordingStatus, Parsed, can_transition_to}
use telegraph_center.Storage.Rows.{Db, RecordingRow, ok, err, invalid_transition}
use telegraph_center.Storage.Statements.{
  find_recording, update_recording, set_status, guarded_transition,
}
use telegraph_center.Storage.View.{status_of, status_in}
use telegraph_center.Storage.Transition.{guarded_transition_lem, guarded_transition_refused}

-- Of one row the status and the time are new, and nothing else in the database is.
pub record OnlyStatus (id : String) (row : RecordingRow) (next : RecordingStatus) (at : Time)
    (db db' : Db) : Type 0 where
  pub row_set :
      find_recording id db' ≡ some (record row { status = Status.as_str next; updated_at = at })
  pub other_rows : (i : String) → (id == i) ≡ false → find_recording i db' ≡ find_recording i db
  pub other_tables : db' ≡ record db { recordings = db'.recordings }

module _ (id : String) (row : RecordingRow) (next : RecordingStatus) (at : Time) (db : Db)
    (found : find_recording id db ≡ some row) where
  looked_up :
      (i : String)
      → find_recording i (update_recording id (set_status next at) db)
        ≡ map_option (updated (λ r. r.id == id) (set_status next at)) (find_recording i db)
  looked_up i =
      select_one-update_where (λ r. r.id) (λ r. r.id == id) (set_status next at) (λ r. refl) i
        db.recordings

  other_row :
      (i : String)
      → (id == i) ≡ false
      → (o : Option RecordingRow) → ((r : RecordingRow) → o ≡ some r → (r.id == i) ≡ true)
      → map_option (updated (λ r. r.id == id) (set_status next at)) o ≡ o
  other_row i ne none fits = refl
  other_row i ne (some r) fits =
      ground (arith, fits r refl, eq_iff r.id i, eq_iff id i, eq_iff r.id id)

  updated-OnlyStatus : OnlyStatus id row next at db (update_recording id (set_status next at) db)
  updated-OnlyStatus = record {
    row_set =
        looked_up id
        ∙ ap (map_option (updated (λ r. r.id == id) (set_status next at))) found
        ∙ rw (select_one_fits (λ r. r.id == id) db.recordings row found) refl;
    other_rows = λ i ne.
        looked_up i
        ∙ other_row i ne (find_recording i db)
            (λ r e. select_one_fits (λ x. x.id == i) db.recordings r e);
    other_tables = refl;
  }

  -- The transition of a Recording with a readable status: where the table permits it, it commits,
  -- the row has the new status and the new time of update, and every other column, row and table is
  -- as it was; where not, it fails with both ends of it in the error.
  pub guarded_transition_cases :
      (s : RecordingStatus)
      → Status.parse row.status ≡ Parsed.ok s
      → ((can_transition_to s next ≡ true)
          × (db' : Db) × (guarded_transition id next at db ≡ ok (tt, db'))
          × OnlyStatus id row next at db db')
        ⊎ ((can_transition_to s next ≡ false)
            × (guarded_transition id next at db
                ≡ err (invalid_transition (record { source = s; target = next }))))
  unfolding status_in
  guarded_transition_cases s readable =
      let seen : status_of id db ≡ some s = ground (arith, found, readable) in
      elim (Bool-cases (can_transition_to s next)) [
        | inl allowed ↦ inl (
          allowed,
          update_recording id (set_status next at) db,
          guarded_transition_lem id s next at db seen allowed,
          updated-OnlyStatus,
        )
        | inr refused ↦ inr (refused, guarded_transition_refused id s next at db seen refused)
      ]
