-- ===== src/Storage/Life.antt =====
-- The life of a Recording over a history: the statuses that one step, or any number, may lead to.
use telegraph_center.Base.{
  String, ◌≡◌, ◌≢◌, refl, Bool, true, false, Option, none, some, arith, inl, inr, ◌==◌, eq_iff,
  Bool-cases, subst, ap, List, ◌∷◌, [], ◌++◌,
}
use telegraph_center.Base.Table.{exists_row}
use telegraph_center.Retry.{Time}
use telegraph_center.Domain.Status
use telegraph_center.Domain.Status.{
  RecordingStatus, received, transcribing, delivered, can_transition_to,
}
use telegraph_center.Domain.Status.Lifecycle.{parse-as_str}
use telegraph_center.Storage.Rows.{StorageError, Db, RecordingRow}
use telegraph_center.Storage.View.{
  status_of, status_in, status_in-append, status_in-fresh, parsed_status, status_in-update_where,
  status_in-update_related, seen,
}
use telegraph_center.Storage.Acts.{
  Acts, Keeps, Keeps-modify, Acts-modify, Acts-bind-left, Acts-bind-right, transaction-Acts,
  then_read_state, keeps_rules,
}
use telegraph_center.Storage.Transition.{Advances, Advances-refl}
use telegraph_center.Storage.Recordings.{
  read_again, NewRecording, create_recording, insert_recording, new_recording_row, has_key,
  creation_of, get_recording_by_idempotency,
}
use telegraph_center.Storage.Recovery.{
  recover_abandoned_attempts, reclaim, surface_transcription, close_transcription, revert_stranded,
  surface_delivery, close_delivery, is_stranded,
}
use telegraph_center.Storage.Moves.{
  mark_backlogged-Advances, store_transcript-Advances, succeed_transcription-Advances,
  retry_transcription-Advances, fail_transcription-Advances, select_sink-Advances,
  route_to_sink-Advances, complete_delivery-Advances, succeed_delivery-Advances,
  retry_delivery-Advances, fail_delivery-Advances,
}
use telegraph_center.Storage.Interventions.{
  manual_route-Advances, manual_retry_transcription-Advances, manual_retry_delivery-Advances,
}
use telegraph_center.Storage.Starts.{
  start_delivery_attempt-Advances, claim_received_for_transcription-Advances,
  start_transcription_attempt-Advances,
}
use telegraph_center.Storage.Steps.{
  Step, History, backlog, claim, complete, create, fail, fail_deliver, redeliver_manually, restart,
  retry, retry_deliver, retry_manually, route, route_manually, select, start, start_delivery,
  start_of, store, succeed, succeed_deliver, then_step,
}

-- What a step may do to the status of one id: nothing or one permitted transition; where it is the
-- upload of that id, the creation as `received`; and where it is a restart, the return of a claimed
-- Recording from `transcribing` to `received`.
pub data Evolves (is_upload is_restart : Bool) (s t : Option RecordingStatus) : Type 0 where
  advances : Advances s t → Evolves is_upload is_restart s t
  created : is_upload ≡ true → s ≡ none → t ≡ some received → Evolves is_upload is_restart s t
  reverted :
      is_restart ≡ true
      → s ≡ some transcribing
      → t ≡ some received
      → Evolves is_upload is_restart s t

Evolves-refl : {u r : Bool} (s : Option RecordingStatus) → Evolves u r s s
Evolves-refl s = advances (Advances-refl s)

-- The row that is appended is seen as `received` under its own id, which was not there before.
appended-Evolves :
    (i : String) (new : NewRecording) (rows : List RecordingRow)
    → exists_row (λ r. r.id == new.id) rows ≡ false
    → Evolves
        (new.id == i)
        false
        (status_in i rows)
        (status_in i (rows ++ new_recording_row new ∷ []))
appended-Evolves i new rows fresh =
    rw (status_in-append i rows (new_recording_row new) fresh) (elim (Bool-cases (new.id == i)) [
      | inl same ↦ rw same (
          created refl
            (status_in-fresh i rows (
              subst (λ k. exists_row (λ r. r.id == k) rows ≡ false) ((eq_iff new.id i).0 same)
                fresh))
            (ap parsed_status (parse-as_str received)))
      | inr other ↦ rw other (Evolves-refl (status_in i rows))
    ])

insert_recording-Evolves :
    (i : String) (new : NewRecording) (db : Db)
    → Evolves (new.id == i) false (status_of i db) (status_of i (insert_recording new db).1)
unfolding insert_recording
insert_recording-Evolves i new db =
    elim (Bool-cases (exists_row (has_key new.client_id new.client_recording_id) db.recordings)) [
      | inl known ↦ rw known (Evolves-refl (status_of i db))
      | inr unknown ↦
          rw unknown (elim (Bool-cases (exists_row (λ r. r.id == new.id) db.recordings)) [
            | inl taken ↦ rw taken (Evolves-refl (status_of i db))
            | inr fresh ↦ rw fresh (appended-Evolves i new db.recordings fresh)
          ])
    ]

create_recording-Evolves :
    (i : String) (lost : Option StorageError) (new : NewRecording) (db : Db)
    → Evolves (new.id == i) false (status_of i db) (status_of i (create_recording lost new db).1)
unfolding create_recording
create_recording-Evolves i lost new db =
    rw
      (then_read_state (insert_recording new)
        (λ c x.
          creation_of new.id c (
            read_again lost (get_recording_by_idempotency new.client_id new.client_recording_id x)))
        db)
      (insert_recording-Evolves i new db)

-- The rows that a restart reverts were in `transcribing`.
module _ (i : String) (now : Time) where
  stranded_row :
      (db : Db) (r : RecordingRow)
      → is_stranded db r ≡ true
      → Evolves false true
          (seen r)
          (seen (record r { status = Status.as_str received; updated_at = now }))
  unfolding is_stranded
  stranded_row db r h =
      let text : r.status ≡ Status.as_str transcribing =
        ground (arith, eq_iff r.status (Status.as_str transcribing)) in
      reverted refl (rw text (ap parsed_status (parse-as_str transcribing)))
        (ap parsed_status (parse-as_str received))

  revert_stranded-Acts : Acts (status_of i) (Evolves false true) (revert_stranded now)
  unfolding revert_stranded
  revert_stranded-Acts = Acts-bind-left _ _ (search keeps_rules) λ affected.
      Acts-bind-right _ _
        (Acts-modify _ λ db.
          status_in-update_related (Evolves false true) i (is_stranded db)
            (λ r. record r { status = Status.as_str received; updated_at = now }) db.recordings
            Evolves-refl (λ r. refl) (stranded_row db))
        (λ _. search keeps_rules)

  pub surface_transcription-Keeps : Keeps (status_of i) (surface_transcription now)
  unfolding surface_transcription
  surface_transcription-Keeps =
      Keeps-modify _ (λ db. status_in-update_where i _ _ db.recordings (λ r. refl) (λ r. refl))

  pub surface_delivery-Keeps : Keeps (status_of i) (surface_delivery now)
  unfolding surface_delivery
  surface_delivery-Keeps =
      Keeps-modify _ (λ db. status_in-update_where i _ _ db.recordings (λ r. refl) (λ r. refl))

  pub close_transcription-Keeps : Keeps (status_of i) (close_transcription now)
  unfolding close_transcription
  close_transcription-Keeps = search (keeps_rules, Keeps-modify)

  pub close_delivery-Keeps : Keeps (status_of i) (close_delivery now)
  unfolding close_delivery
  close_delivery-Keeps = search (keeps_rules, Keeps-modify)

  reclaim-Acts : Acts (status_of i) (Evolves false true) (reclaim now)
  unfolding reclaim
  reclaim-Acts = Acts-bind-left _ _ surface_transcription-Keeps λ _.
      Acts-bind-left _ _ close_transcription-Keeps λ _.
        Acts-bind-right _ _ revert_stranded-Acts
          λ _. search (keeps_rules, surface_delivery-Keeps, close_delivery-Keeps)

  recover-Evolves :
      (db : Db)
      → Evolves false true (status_of i db) (status_of i (recover_abandoned_attempts now db).1)
  unfolding recover_abandoned_attempts
  recover-Evolves db = transaction-Acts (reclaim now) Evolves-refl reclaim-Acts db

module _ {text_before : Time → Time → Bool} {sink_details : String → String} where
  abbrev pub is_upload_of : {db db' : Db} → String → Step text_before sink_details db db' → Bool
  is_upload_of i (create lost new) = new.id == i
  is_upload_of i other = false

  abbrev pub is_restart : {db db' : Db} → Step text_before sink_details db db' → Bool
  is_restart (restart now) = true
  is_restart other = false

  -- Any step of a history, whether its operation succeeds or fails, leaves the status of a
  -- Recording alone or moves it along one transition that `can_transition_to` permits; only an
  -- upload of its id may create it, as `received`, and only a restart may return it from
  -- `transcribing` to `received`.
  pub Step-Evolves :
      {db db' : Db} (i : String)
      → (step : Step text_before sink_details db db')
      → Evolves (is_upload_of i step) (is_restart step) (status_of i db) (status_of i db')
  Step-Evolves {db} i (create lost new) = create_recording-Evolves i lost new db
  Step-Evolves {db} i (backlog id at) = advances (mark_backlogged-Advances i id at db)
  Step-Evolves {db} i (store new) = advances (store_transcript-Advances i new db)
  Step-Evolves {db} i (claim now) =
      advances (claim_received_for_transcription-Advances i text_before now db)
  Step-Evolves {db} i (start id rid now) =
      advances (start_transcription_attempt-Advances i text_before id rid now db)
  Step-Evolves {db} i (succeed id at t) = advances (succeed_transcription-Advances i id at t db)
  Step-Evolves {db} i (retry id rid at code message) =
      advances (retry_transcription-Advances i id rid at code message db)
  Step-Evolves {db} i (fail id rid at code message) =
      advances (fail_transcription-Advances i id rid at code message db)
  Step-Evolves {db} i (select new) = advances (select_sink-Advances i new db)
  Step-Evolves {db} i (route new) = advances (route_to_sink-Advances i new db)
  Step-Evolves {db} i (complete id s at e) = advances (complete_delivery-Advances i id s at e db)
  Step-Evolves {db} i (start_delivery id did now) =
      advances (start_delivery_attempt-Advances i id did now db)
  Step-Evolves {db} i (succeed_deliver id did at http) =
      advances (succeed_delivery-Advances i id did at http db)
  Step-Evolves {db} i (retry_deliver id did at http message) =
      advances (retry_delivery-Advances i id did at http message db)
  Step-Evolves {db} i (fail_deliver id did at http message) =
      advances (fail_delivery-Advances i id did at http message db)
  Step-Evolves {db} i (route_manually input) =
      advances (manual_route-Advances i sink_details input db)
  Step-Evolves {db} i (retry_manually input) =
      advances (manual_retry_transcription-Advances i input db)
  Step-Evolves {db} i (redeliver_manually input) =
      advances (manual_retry_delivery-Advances i input db)
  Step-Evolves {db} i (restart now) = recover-Evolves i now db

final_Evolves :
    {u r : Bool} {s t : Option RecordingStatus}
    → Evolves u r s t
    → s ≡ some delivered
    → t ≡ some delivered
final_Evolves {s = s} {t = t} (advances h) e = ground arith
final_Evolves (created c p q) e = cc
final_Evolves (reverted c p q) e = cc

known_Evolves : {u r : Bool} {s t : Option RecordingStatus} → Evolves u r s t → s ≢ none → t ≢ none
known_Evolves {s = s} {t = t} (advances h) e = ground arith
known_Evolves (created c p q) e = cc
known_Evolves (reverted c p q) e = cc

module _ {text_before : Time → Time → Bool} {sink_details : String → String} where
  -- A Recording that is `delivered` stays delivered through every further history, restarts included.
  pub delivered_final :
      {db db' : Db} (i : String)
      → History text_before sink_details db db'
      → status_of i db ≡ some delivered
      → status_of i db' ≡ some delivered
  delivered_final i start_of e = e
  delivered_final i (then_step h st) e = final_Evolves (Step-Evolves i st) (delivered_final i h e)

  -- A Recording with a status is never lost: it has a status after every further history.
  pub never_lost :
      {db db' : Db} (i : String)
      → History text_before sink_details db db'
      → status_of i db ≢ none
      → status_of i db' ≢ none
  never_lost i start_of e = e
  never_lost i (then_step h st) e = known_Evolves (Step-Evolves i st) (never_lost i h e)
