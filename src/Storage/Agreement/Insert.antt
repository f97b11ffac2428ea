-- ===== src/Storage/Agreement/Insert.antt =====
-- The operations that insert a Delivery in the same transaction as a guarded transition: the
-- selection of a Sink and Manual Routing.
use telegraph_center.Base.{
  String, ◌≡◌, refl, Bool, true, false, [], ◌∷◌, ◌++◌, arith, ◌==◌, ◌∙◌, sym, subst,
}
use telegraph_center.Base.Table.{exists_row}
use telegraph_center.Domain.Status
use telegraph_center.Domain.Status.{RecordingStatus}
use telegraph_center.Storage.Rows.{Db, ok, StorageError}
use telegraph_center.Storage.Tx.{Tx, guard, ◌>>=◌}
use telegraph_center.Storage.Statements.{
  NewDelivery, insert_delivery, new_delivery_row, current_status,
}
use telegraph_center.Storage.DeliveryFrames.{deliveries_of, delivery_rules}
use telegraph_center.Storage.IdFrames.{ids_of, id_rules}
use telegraph_center.Storage.View.{status_of}
use telegraph_center.Storage.Acts.{
  Acts, Keeps, Keeps-modify, Keeps-bind, Keeps-gets, Keeps-pure, Acts-modify, Acts-bind-left,
  Acts-bind-right, >>=-inverts, keeps_rules, then_read-preserves,
}
use telegraph_center.Storage.Frames.{status_rules}
use telegraph_center.Storage.Routing.{select_sink}
use telegraph_center.Storage.Manual.{ManualRoute, manual_route}
use telegraph_center.Storage.Agreement.{IsConsistent}
use telegraph_center.Storage.Agreement.Rules.{
  Sets, set-IsConsistent, insert-IsConsistent, guarded_transition-Sets, transaction-preserves,
}

-- An INSERT that commits has met no constraint.
pub insert_delivery_inverts :
    (new : NewDelivery) (db db' : Db) (u : Unit {0})
    → insert_delivery new db ≡ ok (u, db')
    → (exists_row (λ d. d.id == new.id) db.deliveries ≡ false)
      × (exists_row (λ d. d.recording_id == new.recording_id) db.deliveries ≡ false)
      × (db'.deliveries ≡ db.deliveries ++ new_delivery_row new ∷ [])
unfolding insert_delivery ◌>>=◌
insert_delivery_inverts new db db' u e = ground arith

-- A run that inserts the Delivery and moves its Recording along.
insert_run-IsConsistent :
    {A : Type 0} (new : NewDelivery) (rest : Unit {0} → Tx A)
    → ((u : Unit {0}) → Keeps deliveries_of (rest u))
    → ((u : Unit {0}) → Keeps ids_of (rest u))
    → ((u : Unit {0}) (i : String)
        → Acts (status_of i) (Sets (new.recording_id == i) Status.delivering) (rest u))
    → (db : Db) (a : A) (db' : Db) → (insert_delivery new >>= rest) db ≡ ok (a, db')
    → IsConsistent db
    → IsConsistent db'
insert_run-IsConsistent new rest rows ids statuses db a db' e h =
    let (u, mid, p, q) = >>=-inverts (insert_delivery new) rest db a db' e in
    let (new_id, new_recording, inserted) = insert_delivery_inverts new db mid u p in
    let insert_ids : Keeps ids_of (insert_delivery new) = search id_rules in
    let insert_statuses : (i : String) → Keeps (status_of i) (insert_delivery new) =
      λ i. search status_rules in
    insert-IsConsistent db db' (new_delivery_row new) refl new_id new_recording
      ((rows u).at mid a db' q ∙ inserted)
      (λ i.
        subst (λ x. Sets (new.recording_id == i) Status.delivering x (status_of i db'))
          ((insert_statuses i).at db u mid p) ((statuses u i).at mid a db' q))
      (sym ((ids u).at mid a db' q ∙ insert_ids.at db u mid p)) h

pub ruleset set_rules = (Acts-bind-left, Acts-bind-right, guarded_transition-Sets, status_rules)

pub select_sink-IsConsistent :
    (new : NewDelivery) (db : Db) → IsConsistent db → IsConsistent (select_sink new db).1
unfolding select_sink
select_sink-IsConsistent new db h = then_read-preserves IsConsistent _ _ db (
    transaction-preserves IsConsistent _ db h λ a db' e.
      insert_run-IsConsistent new _ (λ u. search delivery_rules) (λ u. search id_rules)
        (λ u i. search set_rules) db a db' e h)

abbrev whole : Db → Db
whole db = db

-- The reads and tests before the first write leave the database as it was.
pub current_status-whole : (id : String) → Keeps whole (current_status id)
unfolding current_status
current_status-whole id = search keeps_rules

pub guard_same :
    (b : Bool) (c : StorageError) (db db' : Db) (u : Unit {0})
    → guard b c db ≡ ok (u, db')
    → db' ≡ db
guard_same true c db db' u e = ground arith
guard_same false c db db' u e = cc

pub manual_route-IsConsistent :
    (json : String → String) (input : ManualRoute) (db : Db)
    → IsConsistent db
    → IsConsistent (manual_route json input db).1
unfolding manual_route
manual_route-IsConsistent json input db h = then_read-preserves IsConsistent _ _ db (
    transaction-preserves IsConsistent _ db h λ a db' e.
      let (s, mid, p, q) = >>=-inverts _ _ db a db' e in
      let (u, mid', p', q') = >>=-inverts _ _ mid a db' q in
      let guarded : mid' ≡ db =
        guard_same _ _ mid mid' u p' ∙ (current_status-whole _).at db s mid p in
      insert_run-IsConsistent _ _ (λ v. search delivery_rules) (λ v. search id_rules)
        (λ v i. search set_rules) mid' a db' q' (subst IsConsistent (sym guarded) h))
