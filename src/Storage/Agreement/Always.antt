-- ===== src/Storage/Agreement/Always.antt =====
-- The agreement of Recordings and Deliveries over creation, startup and whole histories.
use telegraph_center.Base.{
  Option, String, ◌≡◌, refl, Bool, true, false, [], ◌∷◌, ◌++◌, arith, ◌==◌, eq_iff, ap, ◌∙◌, sym,
  inl, inr, Bool-cases,
}
use telegraph_center.Base.Table.{select_one, exists_row}
use telegraph_center.Base.Table.Laws.{Distinct-append, map-update_where}
use telegraph_center.Retry.{Time}
use telegraph_center.Domain.Status
use telegraph_center.Domain.Status.{RecordingStatus}
use telegraph_center.Domain.Status.Lifecycle.{parse-as_str}
use telegraph_center.Storage.Rows.{StorageError, Db, RecordingRow, empty_db}
use telegraph_center.Storage.DeliveryFrames.{deliveries_of}
use telegraph_center.Storage.IdFrames.{ids_of}
use telegraph_center.Storage.View.{
  status_of, status_in, status_in-append, status_in-fresh, status_in-update_related, seen,
  parsed_status,
}
use telegraph_center.Storage.Acts.{
  Acts, Keeps, Keeps-modify, Keeps-bind, Keeps-gets, Keeps-pure, Acts-modify, Acts-bind-left,
  Acts-bind-right, Acts-Keeps, keeps_rules, then_read-preserves,
}
use telegraph_center.Storage.Recordings.{
  NewRecording, create_recording, insert_recording, new_recording_row, has_key,
}
use telegraph_center.Storage.Recovery.{
  recover_abandoned_attempts, reclaim, surface_transcription, close_transcription, revert_stranded,
  surface_delivery, close_delivery, is_stranded,
}
use telegraph_center.Storage.Steps.{Step, History}
use telegraph_center.Storage.Life.{
  surface_transcription-Keeps, surface_delivery-Keeps, close_transcription-Keeps,
  close_delivery-Keeps,
}
use telegraph_center.Storage.Agreement.{IsConsistent, promised, state_in}
use telegraph_center.Storage.Agreement.Rules.{SamePromise, SameStates-refl, quiet-IsConsistent}
use telegraph_center.Storage.Agreement.Deliver.{
  complete_delivery-IsConsistent, succeed_delivery-IsConsistent, fail_delivery-IsConsistent,
}
use telegraph_center.Storage.Agreement.Insert.{select_sink-IsConsistent, manual_route-IsConsistent}
use telegraph_center.Storage.Agreement.Route.{route_to_sink-IsConsistent}
use telegraph_center.Storage.Agreement.Redeliver.{manual_retry_delivery-IsConsistent}
use telegraph_center.Storage.Agreement.Quiet.{
  mark_backlogged-IsConsistent, store_transcript-IsConsistent, succeed_transcription-IsConsistent,
  retry_transcription-IsConsistent, fail_transcription-IsConsistent,
  claim_received_for_transcription-IsConsistent, start_transcription_attempt-IsConsistent,
  start_delivery_attempt-IsConsistent, retry_delivery-IsConsistent,
  manual_retry_transcription-IsConsistent,
}

-- A new Recording has no Delivery, and promises none.
appended-IsConsistent :
    (new : NewRecording) (db : Db)
    → exists_row (λ r. r.id == new.id) db.recordings ≡ false
    → IsConsistent db
    → IsConsistent (record db { recordings = db.recordings ++ new_recording_row new ∷ [] })
appended-IsConsistent new db fresh h = record {
  agrees = λ i.
      let e = status_in-append i db.recordings (new_recording_row new) fresh in
      let none_before = status_in-fresh new.id db.recordings fresh in
      let parsed = parse-as_str Status.received in ground (arith, h.agrees i, eq_iff new.id i);
  recordings = Distinct-append (λ r. r.id) db.recordings (new_recording_row new) h.recordings fresh;
  ids = h.ids;
  recording_ids = h.recording_ids;
}

insert_recording-IsConsistent :
    (new : NewRecording) (db : Db) → IsConsistent db → IsConsistent (insert_recording new db).1
unfolding insert_recording
insert_recording-IsConsistent new db h =
    elim (Bool-cases (exists_row (has_key new.client_id new.client_recording_id) db.recordings)) [
      | inl known ↦ rw known h
      | inr unknown ↦
          rw unknown (elim (Bool-cases (exists_row (λ r. r.id == new.id) db.recordings)) [
            | inl taken ↦ rw taken h
            | inr fresh ↦ rw fresh (appended-IsConsistent new db fresh h)
          ])
    ]

create_recording-IsConsistent :
    (lost : Option StorageError) (new : NewRecording) (db : Db)
    → IsConsistent db
    → IsConsistent (create_recording lost new db).1
unfolding create_recording
create_recording-IsConsistent lost new db h =
    then_read-preserves IsConsistent _ _ db (insert_recording-IsConsistent new db h)

module _ (now : Time) where
  stranded-SamePromise :
      (db : Db) (r : RecordingRow)
      → is_stranded db r ≡ true
      → SamePromise
          (seen r)
          (seen (record r { status = Status.as_str Status.received; updated_at = now }))
  unfolding is_stranded
  stranded-SamePromise db r h =
      let text : r.status ≡ Status.as_str Status.transcribing =
        ground (arith, eq_iff r.status (Status.as_str Status.transcribing)) in
      ap promised (ap parsed_status (parse-as_str Status.received))
      ∙ sym
          (ap promised (ap parsed_status (ap Status.parse text ∙ parse-as_str Status.transcribing)))

  revert_stranded-SamePromise : (i : String) → Acts (status_of i) SamePromise (revert_stranded now)
  unfolding revert_stranded
  revert_stranded-SamePromise i = Acts-bind-left _ _ (Keeps-gets _) λ affected.
      Acts-bind-right _ _
        (Acts-modify _ λ db.
          status_in-update_related SamePromise i (is_stranded db) _ db.recordings (λ s. refl)
            (λ r. refl) (stranded-SamePromise db))
        (λ _. search keeps_rules)

  revert_stranded-ids : Keeps ids_of (revert_stranded now)
  unfolding revert_stranded
  revert_stranded-ids = Keeps-bind _ _ (Keeps-gets _) λ affected.
      Keeps-bind _ _
        (Keeps-modify _ (λ db. map-update_where (λ r. r.id) _ _ db.recordings (λ r. refl)))
        (λ u. Keeps-pure affected)

  surface_transcription-ids : Keeps ids_of (surface_transcription now)
  unfolding surface_transcription
  surface_transcription-ids =
      Keeps-modify _ (λ db. map-update_where (λ r. r.id) _ _ db.recordings (λ r. refl))

  surface_delivery-ids : Keeps ids_of (surface_delivery now)
  unfolding surface_delivery
  surface_delivery-ids =
      Keeps-modify _ (λ db. map-update_where (λ r. r.id) _ _ db.recordings (λ r. refl))

  reclaim-promises : (i : String) → Acts (status_of i) SamePromise (reclaim now)
  unfolding reclaim
  reclaim-promises i = Acts-bind-left _ _ (surface_transcription-Keeps i now) λ _.
      Acts-bind-left _ _ (close_transcription-Keeps i now) λ _.
        Acts-bind-right _ _ (revert_stranded-SamePromise i)
          λ _. search (keeps_rules, surface_delivery-Keeps, close_delivery-Keeps)

  reclaim-ids : Keeps ids_of (reclaim now)
  unfolding reclaim close_transcription close_delivery
  reclaim-ids =
      search
        (
          keeps_rules, surface_transcription-ids, surface_delivery-ids, revert_stranded-ids,
          Keeps-modify,
        )
        depth 12

  reclaim-rows : Keeps deliveries_of (reclaim now)
  unfolding reclaim close_transcription close_delivery surface_transcription surface_delivery
      revert_stranded
  reclaim-rows = search (keeps_rules, Keeps-modify) depth 12

  recover-IsConsistent :
      (db : Db) → IsConsistent db → IsConsistent (recover_abandoned_attempts now db).1
  unfolding recover_abandoned_attempts
  recover-IsConsistent db h =
      quiet-IsConsistent (reclaim now) reclaim-promises reclaim-ids
        (Acts-Keeps SameStates-refl _ reclaim-rows) db h

module _ {text_before : Time → Time → Bool} {sink_details : String → String} where
  -- Every operation of the repository, committed or rolled back, keeps the agreement.
  pub Step-IsConsistent :
      {db db' : Db} → Step text_before sink_details db db' → IsConsistent db → IsConsistent db'
  Step-IsConsistent {db} (Step.create lost new) h = create_recording-IsConsistent lost new db h
  Step-IsConsistent {db} (Step.backlog id at) h = mark_backlogged-IsConsistent id at db h
  Step-IsConsistent {db} (Step.store new) h = store_transcript-IsConsistent new db h
  Step-IsConsistent {db} (Step.claim now) h =
      claim_received_for_transcription-IsConsistent text_before now db h
  Step-IsConsistent {db} (Step.start id rid now) h =
      start_transcription_attempt-IsConsistent text_before id rid now db h
  Step-IsConsistent {db} (Step.succeed id at t) h = succeed_transcription-IsConsistent id at t db h
  Step-IsConsistent {db} (Step.retry id rid at code m) h =
      retry_transcription-IsConsistent id rid at code m db h
  Step-IsConsistent {db} (Step.fail id rid at code m) h =
      fail_transcription-IsConsistent id rid at code m db h
  Step-IsConsistent {db} (Step.select new) h = select_sink-IsConsistent new db h
  Step-IsConsistent {db} (Step.route new) h = route_to_sink-IsConsistent new db h
  Step-IsConsistent {db} (Step.complete id s at e) h = complete_delivery-IsConsistent id s at e db h
  Step-IsConsistent {db} (Step.start_delivery id did now) h =
      start_delivery_attempt-IsConsistent id did now db h
  Step-IsConsistent {db} (Step.succeed_deliver id did at http) h =
      succeed_delivery-IsConsistent id did at http db h
  Step-IsConsistent {db} (Step.retry_deliver id did at http m) h =
      retry_delivery-IsConsistent id did at http m db h
  Step-IsConsistent {db} (Step.fail_deliver id did at http m) h =
      fail_delivery-IsConsistent id did at http m db h
  Step-IsConsistent {db} (Step.route_manually input) h =
      manual_route-IsConsistent sink_details input db h
  Step-IsConsistent {db} (Step.retry_manually input) h =
      manual_retry_transcription-IsConsistent input db h
  Step-IsConsistent {db} (Step.redeliver_manually input) h =
      manual_retry_delivery-IsConsistent input db h
  Step-IsConsistent {db} (Step.restart now) h = recover-IsConsistent now db h

  history-IsConsistent :
      {db db' : Db} → History text_before sink_details db db' → IsConsistent db → IsConsistent db'
  history-IsConsistent History.start_of h = h
  history-IsConsistent (History.then_step hist st) h =
      Step-IsConsistent st (history-IsConsistent hist h)

empty_db-IsConsistent : IsConsistent empty_db
unfolding select_one state_in status_in
empty_db-IsConsistent = record { agrees = λ i. refl; recordings = tt; ids = tt; recording_ids = tt }

-- From the empty database, after any interleaving of the operations and restarts: a Recording is
-- `delivering`, `delivered` or `delivery_failed` exactly when it has a Delivery, the Delivery is in
-- the state of that name, no Recording has two Deliveries, and neither two Recordings nor two
-- Deliveries share an id.
pub reachable-IsConsistent :
    {text_before : Time → Time → Bool} {sink_details : String → String} {db : Db}
    → History text_before sink_details empty_db db
    → IsConsistent db
reachable-IsConsistent hist = history-IsConsistent hist empty_db-IsConsistent
