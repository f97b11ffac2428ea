-- ===== src/Storage/Outcomes.antt =====
-- The operations of src/storage/sqlite.rs that finish an attempt or give up on a Recording, from
-- the status that they expect.
use telegraph_center.Base.{
  ℕ, String, ◌≡◌, refl, true, false, Option, none, some, arith, ◌==◌, if◌then◌else◌, sym, ap, ◌∙◌,
  subst, Option-cases, inl, inr, [], ◌∷◌, ◌++◌,
}
use telegraph_center.Base.Table.{exists_row, select_one}
use telegraph_center.Base.Table.Laws.{exists_row_found, select_one_fits}
use telegraph_center.Retry.{Time}
use telegraph_center.Domain.Status
use telegraph_center.Domain.Status.{RecordingStatus, can_transition_to}
use telegraph_center.Domain.DeliveryStatus
use telegraph_center.Domain.Entities.{Transcript}
use telegraph_center.Storage.Rows.{Db, DeliveryRow, Result, ok, err}
use telegraph_center.Storage.Tx.{
  Tx, Op, pure, modify, transaction, reading, ◌then_read◌, ◌>>=◌, ◌>>◌,
}
use telegraph_center.Storage.Statements.{
  guarded_transition, set_recording_error, finish_transcription_attempt, finish_delivery_attempt,
  insert_transcript, recording_id_for_delivery, find_delivery, update_delivery,
}
use telegraph_center.Storage.Recordings.{update_recording_status, mark_backlogged}
use telegraph_center.Storage.Transcription.{succeed_transcription, fail_transcription}
use telegraph_center.Storage.Deliveries.{
  succeed_delivery, fail_delivery, delivered_row, complete_row,
}
use telegraph_center.Storage.View.{status_of, status_in}
use telegraph_center.Storage.Acts.{Keeps, then_read_state}
use telegraph_center.Storage.Frames.{status_rules}
use telegraph_center.Storage.Transition.{guarded_transition_lem, status_of-set_status}

-- One Recording is in a new status, and every other is as it was.
pub record Moved (id : String) (next : RecordingStatus) (db db' : Db) : Type 0 where
  pub at : (i : String) → status_of i db' ≡ (if id == i then some next else status_of i db)

-- How a run goes on where its first part commits.
module _ {A B : Type 0} where
  pub >>=-runs :
      (m : Tx A) (f : A → Tx B) (db : Db) (a : A) (mid : Db)
      → m db ≡ ok (a, mid)
      → (m >>= f) db ≡ f a mid
  unfolding ◌>>=◌
  >>=-runs m f db a mid e =
      ap (λ r. (let s : Result (B × Db) = elim r [ ok (x, y) ↦ f x y | err c ↦ err c ] in s)) e

pub transaction_state :
    {A : Type 0} (m : Tx A) (db : Db) (a : A) (db' : Db)
    → m db ≡ ok (a, db')
    → (transaction m db).1 ≡ db'
unfolding transaction
transaction_state {A} m db a db' e =
    ap
      (λ r. (let s : Result A × Db = elim r [ ok (x, y) ↦ (ok x, y) | err c ↦ (err c, db) ] in s.1))
      e

-- A transaction that does some work and ends with the transition.
module _ (id : String) (s next : RecordingStatus) (at : Time) (db mid : Db) where
  transaction-Moved :
      (pre m : Tx (Unit {0}))
      → ((i : String) → Keeps (status_of i) pre)
      → pre db ≡ ok (tt, mid)
      → m db ≡ guarded_transition id next at mid
      → status_of id db ≡ some s
      → can_transition_to s next ≡ true
      → Moved id next db (transaction m db).1
  transaction-Moved pre m keeps run last before allowed =
      let seen_before = (keeps id).at db tt mid run ∙ before in
      subst (Moved id next db)
        (sym (
          transaction_state m db tt _
            (last ∙ guarded_transition_lem id s next at mid seen_before allowed)))
        (record {
          at = λ i.
              status_of-set_status i id s next at mid seen_before
              ∙ ap (λ x. if id == i then some next else x) ((keeps i).at db tt mid run);
        })

pub then_read-Moved :
    {A B : Type 0} (id : String) (next : RecordingStatus) (m : Op A) (f : A → Db → Result B)
    (db : Db)
    → Moved id next db (m db).1
    → Moved id next db ((m then_read λ a. reading (f a)) db).1
then_read-Moved id next m f db h = subst (Moved id next db) (sym (then_read_state m f db)) h

-- To record a terminal failure of a Transcription commits where the Recording is `transcribing`: it
-- is `transcription_failed` after it, and every other keeps its status.
pub fail_transcription_lem :
    (attempt_id id : String) (at : Time) (code message : String) (db : Db)
    → status_of id db ≡ some Status.transcribing
    → Moved id Status.transcription_failed db
        (fail_transcription attempt_id id at code message db).1
unfolding fail_transcription finish_transcription_attempt set_recording_error ◌>>=◌
fail_transcription_lem attempt_id id at code message db before = then_read-Moved id _ _ _ db (
    transaction-Moved id Status.transcribing _ at db _
      (do
        finish_transcription_attempt attempt_id at "failed" false (some code) (some message)
        set_recording_error id at message)
      _ (λ i. search status_rules) refl refl before refl)

-- To send a Recording to the Backlog commits where it is `routing`: it is `backlogged` after it,
-- and every other keeps its status.
pub mark_backlogged_lem :
    (id : String) (at : Time) (db : Db)
    → status_of id db ≡ some Status.routing
    → Moved id Status.backlogged db (mark_backlogged id at db).1
unfolding mark_backlogged update_recording_status
mark_backlogged_lem id at db before = then_read-Moved id _ _ _ db (
    transaction-Moved id Status.routing _ at db db (pure tt) _ (λ i. search status_rules) refl refl
      before refl)

recording_exists :
    (id : String) (s : RecordingStatus) (db : Db)
    → status_of id db ≡ some s
    → exists_row (λ r. r.id == id) db.recordings ≡ true
unfolding status_in
recording_exists id s db h = elim (Option-cases (select_one (λ r. r.id == id) db.recordings)) [
  | inl missing ↦ absurd (ground arith)
  | inr (r, found) ↦
      exists_row_found (λ x. x.id == id) (λ x. x.id == id) db.recordings r found
        (select_one_fits (λ x. x.id == id) db.recordings r found)
]

insert_transcript_lem :
    (t : Transcript) (db : Db)
    → exists_row (λ x. x.recording_id == t.recording_id) db.transcripts ≡ false
    → exists_row (λ r. r.id == t.recording_id) db.recordings ≡ true
    → insert_transcript t db ≡ ok (tt, record db { transcripts = db.transcripts ++ t ∷ [] })
unfolding insert_transcript ◌>>=◌
insert_transcript_lem t db fresh known = ground (arith, fresh, known)

recording_id_for_delivery_lem :
    (id : String) (d : DeliveryRow) (db : Db)
    → find_delivery id db ≡ some d
    → recording_id_for_delivery id db ≡ ok (d.recording_id, db)
unfolding recording_id_for_delivery ◌>>=◌
recording_id_for_delivery_lem id d db found = ground (arith, found)

-- To record the success of an attempt commits where the Recording is `transcribing` and has no
-- Transcript yet: the Recording is `routing` after it, and every other keeps its status.
pub succeed_transcription_lem :
    (attempt_id : String) (at : Time) (t : Transcript) (db : Db)
    → status_of t.recording_id db ≡ some Status.transcribing
    → exists_row (λ x. x.recording_id == t.recording_id) db.transcripts ≡ false
    → Moved t.recording_id Status.routing db (succeed_transcription attempt_id at t db).1
unfolding succeed_transcription finish_transcription_attempt ◌>>=◌
succeed_transcription_lem attempt_id at t db before fresh =
    let known = recording_exists t.recording_id Status.transcribing db before in
    then_read-Moved t.recording_id _ _ _ db (
      transaction-Moved t.recording_id Status.transcribing _ at db _
        (do
          finish_transcription_attempt attempt_id at "succeeded" false none none
          insert_transcript t)
        _ (λ i. search status_rules) (insert_transcript_lem t _ fresh known)
        (>>=-runs (insert_transcript t) _ _ tt _ (insert_transcript_lem t _ fresh known)) before
        refl)

-- To record the success of a Delivery commits where the Delivery exists and its Recording is
-- `delivering`: the Recording is `delivered` after it, and every other keeps its status.
pub succeed_delivery_lem :
    (attempt_id id : String) (at : Time) (http : Option ℕ) (d : DeliveryRow) (db : Db)
    → find_delivery id db ≡ some d
    → status_of d.recording_id db ≡ some Status.delivering
    → Moved d.recording_id Status.delivered db (succeed_delivery attempt_id id at http db).1
unfolding succeed_delivery finish_delivery_attempt ◌>>=◌
succeed_delivery_lem attempt_id id at http d db found before =
    then_read-Moved d.recording_id _ _ _ db (
      transaction-Moved d.recording_id Status.delivering _ at db _
        (do
          finish_delivery_attempt attempt_id at "succeeded" false http none
          modify (update_delivery id (delivered_row at)))
        _ (λ i. search status_rules) refl
        (>>=-runs (recording_id_for_delivery id) _ db _ db
          (recording_id_for_delivery_lem id d db found))
        before refl)

-- To record a terminal failure of a Delivery commits where the Delivery exists and its Recording is
-- `delivering`: the Recording is `delivery_failed` after it, and every other keeps its status.
pub fail_delivery_lem :
    (attempt_id id : String) (at : Time) (http : Option ℕ) (message : String) (d : DeliveryRow)
    (db : Db)
    → find_delivery id db ≡ some d
    → status_of d.recording_id db ≡ some Status.delivering
    → Moved d.recording_id Status.delivery_failed db
        (fail_delivery attempt_id id at http message db).1
unfolding fail_delivery finish_delivery_attempt set_recording_error ◌>>=◌
fail_delivery_lem attempt_id id at http message d db found before =
    then_read-Moved d.recording_id _ _ _ db (
      transaction-Moved d.recording_id Status.delivering _ at db _
        (do
          finish_delivery_attempt attempt_id at "failed" false http (some message)
          modify
              (update_delivery id (complete_row DeliveryStatus.delivery_failed at (some message)))
          set_recording_error d.recording_id at message)
        _ (λ i. search status_rules) refl
        (>>=-runs (recording_id_for_delivery id) _ db _ db
          (recording_id_for_delivery_lem id d db found))
        before refl)
