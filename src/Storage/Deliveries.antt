-- ===== src/Storage/Deliveries.antt =====
-- The Delivery operations of src/storage/sqlite.rs: attempts, their claims and their outcomes.
use telegraph_center.Base.{
  ℕ, ◌+◌, String, Bool, true, false, not, ◌&&◌, Option, none, some, List, [], ◌∷◌, ◌==◌, ltb,
  if◌then◌else◌, is_some, max,
}
use telegraph_center.Base.Table.{select, exists_row, first_by, sort_by}
use telegraph_center.Retry.{Time}
use telegraph_center.Domain.Status
use telegraph_center.Domain.Status.{RecordingStatus}
use telegraph_center.Domain.DeliveryStatus
use telegraph_center.Domain.DeliveryStatus.{DeliveryStatus, delivering, delivered, delivery_failed}
use telegraph_center.Domain.Entities.{Recording, Transcript, Delivery, DeliveryAttempt}
use telegraph_center.Storage.Rows.{Db, DeliveryRow, Result, ok, err}
use telegraph_center.Storage.Tx.{
  Tx, Op, pure, gets, modify, ◌>>=◌, ◌>>◌, transaction, reading, ◌then_read◌,
}
use telegraph_center.Storage.Statements.{
  update_recording, update_delivery, guarded_transition, set_recording_error,
  finish_delivery_attempt, insert_delivery_attempt_row, recording_id_for_delivery,
}
use telegraph_center.Storage.Recordings.{require_recording, require_transcript, require_delivery}

-- the Recording status that goes with a Delivery status
abbrev pub recording_status : DeliveryStatus → RecordingStatus
recording_status delivered = Status.delivered
recording_status delivery_failed = Status.delivery_failed
recording_status delivering = Status.delivering

-- SET status = ?, completed_at = ?, latest_error = ?
abbrev pub complete_row : DeliveryStatus → Time → Option String → DeliveryRow → DeliveryRow
complete_row status at error d = record d {
  status = DeliveryStatus.as_str status;
  completed_at = some at;
  latest_error = error;
}

-- `if let Some(message) = error`: only the message, not the time of the update
unfoldable pub note_error : String → Option String → Tx (Unit {0})
note_error recording_id none = pure tt
note_error recording_id (some message) =
    modify (update_recording recording_id (λ r. record r { latest_error = some message }))

unfoldable pub complete_delivery : String → DeliveryStatus → Time → Option String → Op Delivery
complete_delivery delivery_id status at error =
    transaction (do
      recording_id ← recording_id_for_delivery delivery_id
      modify (update_delivery delivery_id (complete_row status at error))
      note_error recording_id error
      guarded_transition recording_id (recording_status status) at)
    then_read λ _. reading (require_delivery delivery_id)

unfoldable pub mark_delivery_delivered : String → Time → Op Delivery
unfolding complete_delivery
mark_delivery_delivered delivery_id at = complete_delivery delivery_id delivered at none

unfoldable pub mark_delivery_failed : String → Time → String → Op Delivery
unfolding complete_delivery
mark_delivery_failed delivery_id at error =
    complete_delivery delivery_id delivery_failed at (some error)

-- `NewDeliveryAttempt` has the fields of `DeliveryAttempt`.
unfoldable pub insert_delivery_attempt : DeliveryAttempt → Op DeliveryAttempt
insert_delivery_attempt new = transaction (do insert_delivery_attempt_row new; pure new)

-- WHERE delivery_id = ?
abbrev pub attempts_of : String → Db → List DeliveryAttempt
attempts_of delivery_id db = select (λ a. a.delivery_id == delivery_id) db.delivery_attempts

unfoldable pub list_delivery_attempts : String → Db → List DeliveryAttempt
list_delivery_attempts delivery_id db =
    sort_by (λ a b. ltb a.attempt_number b.attempt_number) (attempts_of delivery_id db)

-- WHERE delivery_id = ? AND finished_at IS NULL
abbrev pub is_open_for : String → DeliveryAttempt → Bool
is_open_for delivery_id a = a.delivery_id == delivery_id && not (is_some a.finished_at)

-- COALESCE(MAX(attempt_number), 0)
unfoldable pub max_attempt_number : List DeliveryAttempt → ℕ
max_attempt_number [] = 0
max_attempt_number (a ∷ l) = max a.attempt_number (max_attempt_number l)

-- the row that `start_delivery_attempt` inserts
abbrev pub in_progress_attempt : String → String → ℕ → Time → DeliveryAttempt
in_progress_attempt attempt_id delivery_id attempt_number now = record {
  id = attempt_id;
  delivery_id = delivery_id;
  attempt_number = attempt_number;
  started_at = now;
  finished_at = none;
  status = "in_progress";
  http_status = none;
  retryable = false;
  error_message = none;
}

unfoldable pub insert_started : String → String → Time → Tx (Option ℕ)
insert_started attempt_id delivery_id now = do
  last ← gets (λ db. max_attempt_number (attempts_of delivery_id db))
  insert_delivery_attempt_row (in_progress_attempt attempt_id delivery_id (last + 1) now)
  pure (some (last + 1))

unfoldable pub start_delivery_attempt : String → String → Time → Op (Option ℕ)
start_delivery_attempt attempt_id delivery_id now = transaction (do
  in_flight ← gets (λ db. exists_row (is_open_for delivery_id) db.delivery_attempts)
  (if in_flight then pure none else insert_started attempt_id delivery_id now))

-- SET status = 'delivered', completed_at = ?
abbrev pub delivered_row : Time → DeliveryRow → DeliveryRow
delivered_row at d = record d { status = DeliveryStatus.as_str delivered; completed_at = some at }

unfoldable pub succeed_delivery : String → String → Time → Option ℕ → Op Delivery
succeed_delivery attempt_id delivery_id finished_at http_status =
    transaction (do
      recording_id ← recording_id_for_delivery delivery_id
      finish_delivery_attempt attempt_id finished_at "succeeded" false http_status none
      modify (update_delivery delivery_id (delivered_row finished_at))
      guarded_transition recording_id Status.delivered finished_at)
    then_read λ _. reading (require_delivery delivery_id)

unfoldable pub retry_delivery : String → String → Time → Option ℕ → String → Op (Unit {0})
retry_delivery attempt_id delivery_id finished_at http_status message = transaction (do
  recording_id ← recording_id_for_delivery delivery_id
  finish_delivery_attempt attempt_id finished_at "failed" true http_status (some message)
  modify (update_delivery delivery_id (λ d. record d { latest_error = some message }))
  set_recording_error recording_id finished_at message)

unfoldable pub fail_delivery : String → String → Time → Option ℕ → String → Op Delivery
fail_delivery attempt_id delivery_id finished_at http_status message =
    transaction (do
      recording_id ← recording_id_for_delivery delivery_id
      finish_delivery_attempt attempt_id finished_at "failed" false http_status (some message)
      modify (update_delivery delivery_id (complete_row delivery_failed finished_at (some message)))
      set_recording_error recording_id finished_at message
      guarded_transition recording_id Status.delivery_failed finished_at)
    then_read λ _. reading (require_delivery delivery_id)

pub record DeliveryCandidate : Type 0 where
  pub delivery : Delivery
  pub recording : Recording
  pub transcript : Transcript
  pub last_attempt_number : Option ℕ
  pub last_attempt_finished_at : Option Time
  pub retry_window_started_at : Option Time

-- The latest attempt: ORDER BY attempt_number DESC LIMIT 1.
unfoldable pub last_attempt : List DeliveryAttempt → Option DeliveryAttempt
last_attempt = first_by (λ a b. ltb b.attempt_number a.attempt_number)

-- MAX(attempt_number), which is NULL over no rows
unfoldable pub last_number : List DeliveryAttempt → Option ℕ
unfolding max_attempt_number
last_number [] = none
last_number (a ∷ l) = some (max_attempt_number (a ∷ l))

-- `finished_at` of the latest attempt, NULL where there is none
unfoldable pub last_finished : Option DeliveryAttempt → Option Time
last_finished none = none
last_finished (some a) = a.finished_at

-- WHERE status = 'delivering' AND NOT EXISTS (an attempt in flight)
unfoldable pub awaits_attempt : Db → DeliveryRow → Bool
awaits_attempt db d =
    d.status == DeliveryStatus.as_str delivering
    && not (exists_row (is_open_for d.id) db.delivery_attempts)

unfoldable pub candidate_of : DeliveryRow → Db → Result DeliveryCandidate
candidate_of row db = elim (require_delivery row.id db) [
  | err e ↦ err e
  | ok delivery ↦ elim (require_recording delivery.recording_id db) [
    | err e ↦ err e
    | ok recording ↦ elim (require_transcript delivery.recording_id db) [
      | err e ↦ err e
      | ok transcript ↦ ok (record {
        delivery = delivery;
        recording = recording;
        transcript = transcript;
        last_attempt_number = last_number (attempts_of row.id db);
        last_attempt_finished_at = last_finished (last_attempt (attempts_of row.id db));
        retry_window_started_at = row.retry_window_started_at;
      })
    ]
  ]
]

unfoldable pub candidates_of : List DeliveryRow → Db → Result (List DeliveryCandidate)
unfolding candidate_of
candidates_of [] db = ok []
candidates_of (row ∷ rows) db =
    let rest = candidates_of rows db in
    elim (candidate_of row db) [
      | err e ↦ err e
      | ok c ↦ elim rest [ ok cs ↦ ok (c ∷ cs) | err e ↦ err e ]
    ]

-- ORDER BY selected_at, by the order of the texts
unfoldable pub delivery_candidates : (Time → Time → Bool) → Op (List DeliveryCandidate)
delivery_candidates text_before = reading λ db.
    candidates_of
      (sort_by (λ a b. text_before a.selected_at b.selected_at)
        (select (awaits_attempt db) db.deliveries))
      db
