-- ===== src/Storage/Agreement/Deliver.antt =====
-- The operations of src/storage/sqlite.rs that change a Delivery.
use telegraph_center.Base.{
  ℕ, String, ◌≡◌, refl, Option, none, some, List, arith, ◌==◌, sym, subst, inl, inr, Option-cases,
}
use telegraph_center.Base.Table.{update_where}
use telegraph_center.Retry.{Time}
use telegraph_center.Domain.DeliveryStatus
use telegraph_center.Domain.DeliveryStatus.{DeliveryStatus}
use telegraph_center.Storage.Rows.{Db, DeliveryRow, ok}
use telegraph_center.Storage.Tx.{Tx, modify, transaction, ◌>>=◌}
use telegraph_center.Storage.Statements.{find_delivery, update_delivery, recording_id_for_delivery}
use telegraph_center.Storage.DeliveryFrames.{deliveries_of, delivery_rules}
use telegraph_center.Storage.IdFrames.{ids_of, id_rules, update_recording-Keeps}
use telegraph_center.Storage.View.{status_of}
use telegraph_center.Storage.Acts.{
  Acts, Keeps, Keeps-modify, Acts-modify, Acts-bind-left, Acts-bind-right, >>=-inverts,
  then_read-preserves,
}
use telegraph_center.Storage.Frames.{status_rules}
use telegraph_center.Storage.Moves.{note_error-Keeps}
use telegraph_center.Storage.Deliveries.{
  recording_status, complete_delivery, complete_row, note_error, succeed_delivery, fail_delivery,
  delivered_row,
}
use telegraph_center.Storage.Agreement.{IsConsistent}
use telegraph_center.Storage.Agreement.Rules.{
  Sets, set-IsConsistent, guarded_transition-Sets, transaction-preserves,
}

-- The Recording that a Delivery names.
recording_id_for_delivery_inverts :
    (k rid : String) (db mid : Db)
    → recording_id_for_delivery k db ≡ ok (rid, mid)
    → (d : DeliveryRow) × (find_delivery k db ≡ some d) × (rid ≡ d.recording_id) × (mid ≡ db)
unfolding recording_id_for_delivery ◌>>=◌
recording_id_for_delivery_inverts k rid db mid e = elim (Option-cases (find_delivery k db)) [
  | inl missing ↦ absurd (ground arith)
  | inr (d, found) ↦ (d, found, ground arith, ground arith)
]

abbrev RowsSet : String → (DeliveryRow → DeliveryRow) → List DeliveryRow → List DeliveryRow → Type 0
RowsSet k f x y = y ≡ update_where (λ r. r.id == k) f x

update_delivery-RowsSet :
    (k : String) (f : DeliveryRow → DeliveryRow)
    → Acts deliveries_of (RowsSet k f) (modify (update_delivery k f))
update_delivery-RowsSet k f = Acts-modify (update_delivery k f) (λ db. refl)

-- A method that looks its Delivery up, sets the row, and moves the Recording along with it.
set_method-IsConsistent :
    {A : Type 0} (k : String) (s : DeliveryStatus) (f : DeliveryRow → DeliveryRow)
    (rest : String → Tx A)
    → ((r : DeliveryRow) → (f r).id ≡ r.id)
    → ((r : DeliveryRow) → (f r).recording_id ≡ r.recording_id)
    → ((r : DeliveryRow) → (f r).status ≡ DeliveryStatus.as_str s)
    → ((rid : String) → Acts deliveries_of (RowsSet k f) (rest rid))
    → ((rid i : String) → Acts (status_of i) (Sets (rid == i) (recording_status s)) (rest rid))
    → ((rid : String) → Keeps ids_of (rest rid))
    → (db : Db) → IsConsistent db
    → IsConsistent (transaction (recording_id_for_delivery k >>= rest) db).1
set_method-IsConsistent k s f rest ids rids sets rows statuses kept db h =
    transaction-preserves IsConsistent _ db h λ a db' e.
      let (rid, mid, p, q) = >>=-inverts (recording_id_for_delivery k) rest db a db' e in
      let (d, found, named, same) = recording_id_for_delivery_inverts k rid db mid p in
      set-IsConsistent db db' k d s f ids rids sets found
        (subst (λ x. db'.deliveries ≡ update_where (λ r. r.id == k) f x.deliveries) same
          ((rows rid).at mid a db' q))
        (λ i.
          subst (λ x. Sets (x == i) (recording_status s) (status_of i db) (status_of i db')) named
            (subst (λ x. Sets (rid == i) (recording_status s) (status_of i x) (status_of i db'))
              same ((statuses rid i).at mid a db' q)))
        (subst (λ x. ids_of x ≡ ids_of db') same (sym ((kept rid).at mid a db' q))) h

ruleset set_rules = (Acts-bind-left, Acts-bind-right, update_delivery-RowsSet, delivery_rules)

ruleset move_rules = (Acts-bind-left, Acts-bind-right, guarded_transition-Sets, status_rules)

note_error-rows : (id : String) (e : Option String) → Keeps deliveries_of (note_error id e)
unfolding note_error
note_error-rows id none = search delivery_rules
note_error-rows id (some m) = search Keeps-modify

note_error-ids : (id : String) (e : Option String) → Keeps ids_of (note_error id e)
unfolding note_error
note_error-ids id none = search id_rules
note_error-ids id (some m) = update_recording-Keeps id _ (λ r. refl)

pub complete_delivery-IsConsistent :
    (k : String) (s : DeliveryStatus) (at : Time) (e : Option String) (db : Db)
    → IsConsistent db
    → IsConsistent (complete_delivery k s at e db).1
unfolding complete_delivery
complete_delivery-IsConsistent k s at e db h = then_read-preserves IsConsistent _ _ db (
    set_method-IsConsistent k s (complete_row s at e) _ (λ r. refl) (λ r. refl) (λ r. refl)
      (λ rid. search (set_rules, note_error-rows)) (λ rid i. search (move_rules, note_error-Keeps))
      (λ rid. search (id_rules, note_error-ids)) db h)

pub succeed_delivery-IsConsistent :
    (id k : String) (at : Time) (http : Option ℕ) (db : Db)
    → IsConsistent db
    → IsConsistent (succeed_delivery id k at http db).1
unfolding succeed_delivery
succeed_delivery-IsConsistent id k at http db h = then_read-preserves IsConsistent _ _ db (
    set_method-IsConsistent k DeliveryStatus.delivered (delivered_row at) _ (λ r. refl) (λ r. refl)
      (λ r. refl) (λ rid. search set_rules) (λ rid i. search move_rules)
      (λ rid. search id_rules depth 8) db h)

pub fail_delivery-IsConsistent :
    (id k : String) (at : Time) (http : Option ℕ) (m : String) (db : Db)
    → IsConsistent db
    → IsConsistent (fail_delivery id k at http m db).1
unfolding fail_delivery
fail_delivery-IsConsistent id k at http m db h = then_read-preserves IsConsistent _ _ db (
    set_method-IsConsistent k DeliveryStatus.delivery_failed
      (complete_row DeliveryStatus.delivery_failed at (some m)) _ (λ r. refl) (λ r. refl)
      (λ r. refl) (λ rid. search set_rules depth 8) (λ rid i. search move_rules depth 8)
      (λ rid. search id_rules depth 8) db h)
