-- ===== src/Storage/Agreement/Redeliver.antt =====
-- The Manual Retry of a Delivery, which opens the Delivery again.
use telegraph_center.Base.{
  String, ◌≡◌, refl, some, arith, ◌==◌, eq_iff, ◌∙◌, sym, subst, inl, inr, Option-cases,
}
use telegraph_center.Base.Table.{select_one, update_where}
use telegraph_center.Base.Table.Laws.{Distinct-found, select_one_fits}
use telegraph_center.Domain.Status
use telegraph_center.Domain.Status.{RecordingStatus}
use telegraph_center.Domain.DeliveryStatus.{DeliveryStatus}
use telegraph_center.Storage.Rows.{Db, DeliveryRow, ok}
use telegraph_center.Storage.Tx.{Tx, pure, modify, ◌>>=◌, ◌>>◌}
use telegraph_center.Storage.Statements.{
  guarded_transition, update_delivery, clear_recording_error, insert_audit_event_tx,
}
use telegraph_center.Storage.DeliveryFrames.{deliveries_of, delivery_rules}
use telegraph_center.Storage.IdFrames.{ids_of, id_rules}
use telegraph_center.Storage.View.{status_of}
use telegraph_center.Storage.Acts.{
  Acts, Keeps, Acts-modify, Acts-bind-right, >>=-inverts, then_read-preserves,
}
use telegraph_center.Storage.Manual.{
  ManualRetryDelivery, manual_retry_delivery, reset_row, delivery_id_for_recording, operator_event,
}
use telegraph_center.Storage.Agreement.{IsConsistent}
use telegraph_center.Storage.Agreement.Rules.{Sets, set-IsConsistent, transaction-preserves}
use telegraph_center.Storage.Agreement.Insert.{current_status-whole, guard_same, set_rules}

delivery_id_for_recording_inverts :
    (rid k : String) (db mid : Db)
    → delivery_id_for_recording rid db ≡ ok (k, mid)
    → (d : DeliveryRow) × (select_one (λ x. x.recording_id == rid) db.deliveries ≡ some d)
      × (k ≡ d.id)
      × (mid ≡ db)
unfolding delivery_id_for_recording ◌>>=◌
delivery_id_for_recording_inverts rid k db mid e =
    elim (Option-cases (select_one (λ x. x.recording_id == rid) db.deliveries)) [
      | inl missing ↦ absurd (ground arith)
      | inr (d, found) ↦ (d, found, ground arith, ground arith)
    ]

-- The rest of the Manual Retry, once the Delivery is known.
redeliver : ManualRetryDelivery → String → Tx String
redeliver input k = do
  modify (update_delivery k (reset_row input.at input.retry_deadline_at))
  guarded_transition input.recording_id Status.delivering input.at
  clear_recording_error input.recording_id
  insert_audit_event_tx (
      operator_event input.audit_event_id input.at input.actor_id "manual_retry_delivery"
        input.recording_id "{}")
  pure k

redeliver-IsConsistent :
    (input : ManualRetryDelivery) (k : String) (db mid db' : Db) (a : String)
    → delivery_id_for_recording input.recording_id db ≡ ok (k, mid)
    → redeliver input k mid ≡ ok (a, db')
    → IsConsistent db
    → IsConsistent db'
unfolding redeliver
redeliver-IsConsistent input k db mid db' a p q h =
    let (d, found, named, same) = delivery_id_for_recording_inverts input.recording_id k db mid p in
    let by_id = Distinct-found (λ x. x.id) _ db.deliveries d h.ids found in
    let rid =
      (eq_iff d.recording_id input.recording_id).0
        (select_one_fits (λ x. x.recording_id == input.recording_id) db.deliveries d found) in
    let f = reset_row input.at input.retry_deadline_at in
    let rows : Acts deliveries_of (λ x y. y ≡ update_where (λ r. r.id == k) f x)
        (redeliver input k) =
      Acts-bind-right _ _ (Acts-modify (update_delivery k f) (λ x. refl))
        (λ u. search delivery_rules) in
    let ids : Keeps ids_of (redeliver input k) = search id_rules depth 9 in
    let statuses : (i : String)
        → Acts (status_of i) (Sets (input.recording_id == i) Status.delivering)
            (redeliver input k) =
      λ i. search set_rules depth 9 in
    set-IsConsistent db db' d.id d DeliveryStatus.delivering f (λ r. refl) (λ r. refl) (λ r. refl)
      by_id
      (subst (λ x. db'.deliveries ≡ update_where (λ r. r.id == x) f db.deliveries) named
        (subst (λ x. db'.deliveries ≡ update_where (λ r. r.id == k) f x.deliveries) same
          (rows.at mid a db' q)))
      (λ i.
        subst (λ x. Sets (x == i) Status.delivering (status_of i db) (status_of i db')) (sym rid)
          (subst
            (λ x.
              Sets (input.recording_id == i) Status.delivering (status_of i x) (status_of i db'))
            same ((statuses i).at mid a db' q)))
      (subst (λ x. ids_of x ≡ ids_of db') same (sym (ids.at mid a db' q))) h

pub manual_retry_delivery-IsConsistent :
    (input : ManualRetryDelivery) (db : Db)
    → IsConsistent db
    → IsConsistent (manual_retry_delivery input db).1
unfolding manual_retry_delivery redeliver
manual_retry_delivery-IsConsistent input db h = then_read-preserves IsConsistent _ _ db (
    transaction-preserves IsConsistent _ db h λ a db' e.
      let (s, mid, p, q) = >>=-inverts _ _ db a db' e in
      let (u, mid', p', q') = >>=-inverts _ _ mid a db' q in
      let (k, mid'', p'', q'') = >>=-inverts _ _ mid' a db' q' in
      let guarded : mid' ≡ db =
        guard_same _ _ mid mid' u p' ∙ (current_status-whole _).at db s mid p in
      redeliver-IsConsistent input k mid' mid'' db' a p'' q'' (subst IsConsistent (sym guarded) h))
