-- ===== src/Storage/Agreement/Route.antt =====
-- `route_to_sink`, which claims the Recording by an UPDATE of its own.
use telegraph_center.Base.{
  String, ◌≡◌, refl, Bool, true, false, Option, none, some, List, [], ◌∷◌, ◌++◌, arith, ◌==◌,
  eq_iff, if◌then◌else◌, ap, ◌∙◌, sym, subst, map_option,
}
use telegraph_center.Base.Table.{select_one, exists_row, update_where}
use telegraph_center.Base.Table.Laws.{
  update_where_none, Distinct, exists_row_witness, exists_row-select_one, select_one-update_where,
  map-update_where, updated, Distinct-select_one, select_one_fits, exists_row_found,
}
use telegraph_center.Retry.{Time}
use telegraph_center.Domain.Status
use telegraph_center.Domain.Status.{RecordingStatus}
use telegraph_center.Domain.Status.Lifecycle.{parse-as_str}
use telegraph_center.Storage.Rows.{Db, RecordingRow, ok}
use telegraph_center.Storage.Tx.{◌>>=◌}
use telegraph_center.Storage.Statements.{NewDelivery, insert_delivery, new_delivery_row, set_status}
use telegraph_center.Storage.DeliveryFrames.{deliveries_of}
use telegraph_center.Storage.IdFrames.{ids_of, id_rules}
use telegraph_center.Storage.View.{status_of, status_in, row_status}
use telegraph_center.Storage.Acts.{
  Keeps, Keeps-modify, Keeps-bind, Keeps-gets, Keeps-pure, >>=-inverts, keeps_rules,
  then_read-preserves,
}
use telegraph_center.Storage.Frames.{status_rules}
use telegraph_center.Storage.Routing.{route_to_sink, claim_routing, route_claimed, is_routing}
use telegraph_center.Storage.Agreement.{IsConsistent}
use telegraph_center.Storage.Agreement.Rules.{insert-IsConsistent, transaction-preserves}
use telegraph_center.Storage.Agreement.Insert.{insert_delivery_inverts}

claim_routing_inverts :
    (id : String) (at : Time) (db mid : Db) (found : Bool)
    → claim_routing id at db ≡ ok (found, mid)
    → (found ≡ exists_row (is_routing id) db.recordings)
      × (mid ≡ record db {
        recordings = update_where (is_routing id) (set_status Status.delivering at) db.recordings;
      })
unfolding claim_routing ◌>>=◌
claim_routing_inverts id at db mid found e = ground arith

-- The claim moves one Recording, since no two rows have its id.
claimed_statuses :
    (i id : String) (at : Time) (rows : List RecordingRow)
    → Distinct (λ r. r.id) rows
    → exists_row (is_routing id) rows ≡ true
    → status_in i (update_where (is_routing id) (set_status Status.delivering at) rows)
      ≡ (if id == i then some Status.delivering else status_in i rows)
unfolding status_in
claimed_statuses i id at rows distinct claimed =
    let (c, found) = exists_row_witness (is_routing id) rows claimed in
    rw
      (select_one-update_where (λ r. r.id) (is_routing id) (set_status Status.delivering at)
        (λ r. refl) i rows)
      (go c found (select_one (λ r. r.id == i) rows) refl)
  where
    go :
        (c : RecordingRow)
        → select_one (is_routing id) rows ≡ some c
        → (o : Option RecordingRow) → select_one (λ r. r.id == i) rows ≡ o
        → row_status (map_option (updated (is_routing id) (set_status Status.delivering at)) o)
          ≡ (if id == i then some Status.delivering else row_status o)
    go c found none e = ground (
      arith,
      select_one_fits (is_routing id) rows c found,
      exists_row-select_one (λ r. r.id == i) rows e,
      exists_row_found (is_routing id) (λ r. r.id == i) rows c found,
      eq_iff id i,
      eq_iff c.id id,
    )
    go c found (some r) e = ground (
      arith,
      select_one_fits (is_routing id) rows c found,
      select_one_fits (λ x. x.id == i) rows r e,
      Distinct-select_one (λ x. x.id) _ _ rows r c distinct e found,
      parse-as_str Status.delivering,
      eq_iff id i,
      eq_iff c.id id,
      eq_iff r.id i,
      eq_iff r.id id,
    )

claim_routing-ids : (id : String) (at : Time) → Keeps ids_of (claim_routing id at)
unfolding claim_routing
claim_routing-ids id at = Keeps-bind _ _ (Keeps-gets _) λ found.
    Keeps-bind _ _
      (Keeps-modify _ (λ db.
        map-update_where (λ r. r.id) (is_routing id) (set_status Status.delivering at) db.recordings
          (λ r. refl)))
      (λ u. Keeps-pure found)

claim_routing-rows : (id : String) (at : Time) → Keeps deliveries_of (claim_routing id at)
unfolding claim_routing
claim_routing-rows id at = search (keeps_rules, Keeps-modify)

-- The claimed Recording gets its Delivery in the same transaction.
routed-IsConsistent :
    (new : NewDelivery) (db mid db' : Db) (found a : Bool)
    → claim_routing new.recording_id new.selected_at db ≡ ok (found, mid)
    → route_claimed new found mid ≡ ok (a, db')
    → IsConsistent db
    → IsConsistent db'
unfolding route_claimed
routed-IsConsistent new db mid db' false a p q h =
    let (none_found, mid_is) =
      claim_routing_inverts new.recording_id new.selected_at db mid false p in
    let same =
      update_where_none (is_routing new.recording_id) (set_status Status.delivering new.selected_at)
        db.recordings (sym none_found) in
    let unchanged : mid ≡ db = mid_is ∙ ap (λ x. record db { recordings = x }) same in
    let last : db' ≡ mid = ground arith in subst IsConsistent (sym (last ∙ unchanged)) h
routed-IsConsistent new db mid db' true a p q h =
    let (some_found, mid_is) =
      claim_routing_inverts new.recording_id new.selected_at db mid true p in
    let (u, after, p', q') = >>=-inverts (insert_delivery new) _ mid a db' q in
    let (new_id, new_recording, inserted) = insert_delivery_inverts new mid after u p' in
    let insert_ids : Keeps ids_of (insert_delivery new) = search id_rules in
    let insert_statuses : (i : String) → Keeps (status_of i) (insert_delivery new) =
      λ i. search status_rules in
    let last : db' ≡ after = ground arith in
    let rows = (claim_routing-rows new.recording_id new.selected_at).at db true mid p in
    let ids = (claim_routing-ids new.recording_id new.selected_at).at db true mid p in
    insert-IsConsistent db db' (new_delivery_row new) refl
      (subst (λ x. exists_row (λ d. d.id == new.id) x ≡ false) rows new_id)
      (subst (λ x. exists_row (λ d. d.recording_id == new.recording_id) x ≡ false) rows
        new_recording)
      (ap deliveries_of last ∙ inserted ∙ ap (λ x. x ++ new_delivery_row new ∷ []) rows)
      (λ i.
        ap (status_of i) last
        ∙ (insert_statuses i).at mid u after p'
        ∙ ap (status_of i) mid_is
        ∙ claimed_statuses i new.recording_id new.selected_at db.recordings h.recordings
            (sym some_found))
      (sym (ap ids_of last ∙ insert_ids.at mid u after p' ∙ ids)) h

pub route_to_sink-IsConsistent :
    (new : NewDelivery) (db : Db) → IsConsistent db → IsConsistent (route_to_sink new db).1
unfolding route_to_sink
route_to_sink-IsConsistent new db h = then_read-preserves IsConsistent _ _ db (
    transaction-preserves IsConsistent _ db h λ a db' e.
      let (found, mid, p, q) = >>=-inverts _ _ db a db' e in
      routed-IsConsistent new db mid db' found a p q h)
