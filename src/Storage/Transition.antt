-- ===== src/Storage/Transition.antt =====
-- `guarded_transition` of src/storage/sqlite.rs against the transition table of src/domain.rs.
use telegraph_center.Base.{
  String, ◌≡◌, refl, true, false, Option, none, some, arith, ◌==◌, ◌⊎◌, inl, eq_iff, if◌then◌else◌,
}
use telegraph_center.Retry.{Time}
use telegraph_center.Domain.Status.{RecordingStatus, can_transition_to, transition_to}
use telegraph_center.Storage.Rows.{Db, ok, err, recording_not_found, invalid_transition}
use telegraph_center.Storage.Tx.{◌>>=◌}
use telegraph_center.Storage.Statements.{
  find_recording, update_recording, set_status, current_status, guarded_transition,
  check_transition,
}
use telegraph_center.Storage.View.{status_of, status_in, status_in-set}
use telegraph_center.Storage.Acts.{Acts, >>=-inverts}

-- The view decides what `current_status` answers, when the stored text is a status.
pub current_status_lem :
    (id : String) (s : RecordingStatus) (db : Db)
    → status_of id db ≡ some s
    → current_status id db ≡ ok (s, db)
unfolding current_status status_in ◌>>=◌
current_status_lem id s db h = ground arith

pub current_status_missing :
    (id : String) (db : Db)
    → find_recording id db ≡ none
    → current_status id db ≡ err (recording_not_found id)
unfolding current_status ◌>>=◌
current_status_missing id db h = ground arith

pub current_status_inverts :
    (id : String) (s : RecordingStatus) (db db' : Db)
    → current_status id db ≡ ok (s, db')
    → (status_of id db ≡ some s) × (db' ≡ db)
unfolding current_status status_in ◌>>=◌
current_status_inverts id s db db' h = ground arith

-- Where the Recording has a status from which the next one is permitted, the transition commits,
-- and changes only the status and the time of that row.
pub guarded_transition_lem :
    (id : String) (s next : RecordingStatus) (at : Time) (db : Db)
    → status_of id db ≡ some s
    → can_transition_to s next ≡ true
    → guarded_transition id next at db ≡ ok (tt, update_recording id (set_status next at) db)
unfolding guarded_transition transition_to ◌>>=◌
guarded_transition_lem id s next at db h allowed = ground (arith, current_status_lem id s db h)

-- Where the Recording has a status from which the next one is not permitted, the transition fails,
-- with both ends of it in the error.
pub guarded_transition_refused :
    (id : String) (s next : RecordingStatus) (at : Time) (db : Db)
    → status_of id db ≡ some s
    → can_transition_to s next ≡ false
    → guarded_transition id next at db
      ≡ err (invalid_transition (record { source = s; target = next }))
unfolding guarded_transition transition_to ◌>>=◌
guarded_transition_refused id s next at db h refused = ground (arith, current_status_lem id s db h)

-- Whatever commits was permitted.
pub guarded_transition_inverts :
    (id : String) (next : RecordingStatus) (at : Time) (db db' : Db) (u : Unit {0})
    → guarded_transition id next at db ≡ ok (u, db')
    → (s : RecordingStatus) × (status_of id db ≡ some s)
      × (can_transition_to s next ≡ true)
      × (db' ≡ update_recording id (set_status next at) db)
unfolding guarded_transition transition_to
guarded_transition_inverts id next at db db' u h =
    let (s, mid, p, q) = >>=-inverts (current_status id) _ db u db' h in
    let (before, same) = current_status_inverts id s db mid p in
    let (w, mid', p', q') = >>=-inverts (check_transition (transition_to s next)) _ mid u db' q in
    (s, before, ground arith, ground arith)

-- How far a status may move in one operation: it stays, or takes one permitted transition.
abbrev pub Advances : Option RecordingStatus → Option RecordingStatus → Type 0
Advances none t = t ≡ none
Advances (some a) none = ⊥
Advances (some a) (some b) = (b ≡ a) ⊎ (can_transition_to a b ≡ true)

pub Advances-refl : (s : Option RecordingStatus) → Advances s s
Advances-refl none = refl
Advances-refl (some a) = inl refl

-- The row that the transition sets, seen through the view.
pub status_of-set_status :
    (i id : String) (s next : RecordingStatus) (at : Time) (db : Db)
    → status_of id db ≡ some s
    → status_of i (update_recording id (set_status next at) db)
      ≡ (if id == i then some next else status_of i db)
unfolding status_in
status_of-set_status i id s next at db h =
    let e = status_in-set i id next (set_status next at) db.recordings (λ r. refl) (λ r. refl) in
    ground (arith, eq_iff id i)

pub guarded_transition-Acts :
    (i id : String) (next : RecordingStatus) (at : Time)
    → Acts (status_of i) Advances (guarded_transition id next at)
guarded_transition-Acts i id next at = record {
  at = λ db u db' e.
      let (s, before, allowed, after) = guarded_transition_inverts id next at db db' u e in
      rw (after, status_of-set_status i id s next at db before)
        (ground (arith, eq_iff id i, Advances-refl (status_of i db)));
}
