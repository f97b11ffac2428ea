-- ===== src/Storage/Transcription.antt =====
-- The Transcription operations of src/storage/sqlite.rs: the work queue, its claims and their
-- outcomes. The instants of a table are ordered by their RFC3339 texts, whose order the section's
-- parameter `text_before` is: SQLite's comparison of the texts of two instants.
use telegraph_center.Base.{
  ℕ, ◌+◌, String, Bool, true, false, not, ◌&&◌, ◌||◌, Option, none, some, List, [], ◌∷◌, ◌==◌, ltb,
  if◌then◌else◌, is_some, max,
}
use telegraph_center.Base.Table.{select, exists_row, first_by, sort_by}
use telegraph_center.Retry.{Time}
use telegraph_center.Domain.Status
use telegraph_center.Domain.Status.{received, transcribing, routing, transcription_failed}
use telegraph_center.Domain.Entities.{Recording, Transcript, TranscriptionAttempt}
use telegraph_center.Storage.Rows.{
  Db, RecordingRow, Result, ok, err, database, null_column, row_not_found,
}
use telegraph_center.Storage.Tx.{
  Tx, Op, pure, require, gets, ◌>>=◌, ◌>>◌, transaction, reading, ◌then_read◌,
}
use telegraph_center.Storage.Statements.{
  find_recording, guarded_transition, set_recording_error, finish_transcription_attempt,
  insert_transcript, insert_transcription_attempt_row,
}
use telegraph_center.Storage.Recordings.{require_recording, require_transcript}

-- `NewTranscriptionAttempt` has the fields of `TranscriptionAttempt`.
unfoldable pub insert_transcription_attempt : TranscriptionAttempt → Op TranscriptionAttempt
insert_transcription_attempt new = transaction (do insert_transcription_attempt_row new; pure new)

-- WHERE recording_id = ?
abbrev pub attempts_of : String → Db → List TranscriptionAttempt
attempts_of recording_id db = select (λ a. a.recording_id == recording_id) db.transcription_attempts

unfoldable pub list_transcription_attempts : String → Db → List TranscriptionAttempt
list_transcription_attempts recording_id db =
    sort_by (λ a b. ltb a.attempt_number b.attempt_number) (attempts_of recording_id db)

-- WHERE recording_id = ? AND finished_at IS NULL
abbrev pub is_open_for : String → TranscriptionAttempt → Bool
is_open_for recording_id a = a.recording_id == recording_id && not (is_some a.finished_at)

-- COALESCE(MAX(attempt_number), 0)
unfoldable pub max_attempt_number : List TranscriptionAttempt → ℕ
max_attempt_number [] = 0
max_attempt_number (a ∷ l) = max a.attempt_number (max_attempt_number l)

unfoldable pub store_transcript : Transcript → Op Transcript
store_transcript new =
    transaction
      (do insert_transcript new; guarded_transition new.recording_id routing new.created_at)
    then_read λ _. reading (require_transcript new.recording_id)

unfoldable pub succeed_transcription : String → Time → Transcript → Op Transcript
succeed_transcription attempt_id finished_at transcript =
    transaction (do
      finish_transcription_attempt attempt_id finished_at "succeeded" false none none
      insert_transcript transcript
      guarded_transition transcript.recording_id routing finished_at)
    then_read λ _. reading (require_transcript transcript.recording_id)

unfoldable pub retry_transcription : String → String → Time → String → String → Op (Unit {0})
retry_transcription attempt_id recording_id finished_at code message = transaction (do
  finish_transcription_attempt attempt_id finished_at "failed" true (some code) (some message)
  set_recording_error recording_id finished_at message)

unfoldable pub fail_transcription : String → String → Time → String → String → Op Recording
fail_transcription attempt_id recording_id finished_at code message =
    transaction (do
      finish_transcription_attempt attempt_id finished_at "failed" false (some code) (some message)
      set_recording_error recording_id finished_at message
      guarded_transition recording_id transcription_failed finished_at)
    then_read λ _. reading (require_recording recording_id)

pub record TranscriptionAttemptStart : Type 0 where
  pub attempt_number : ℕ
  pub first_started_at : Time

pub record TranscriptionRetryCandidate : Type 0 where
  pub recording : Recording
  pub last_attempt_number : ℕ
  pub last_attempt_finished_at : Time
  pub retry_window_started_at : Option Time

-- the row that `start_transcription_attempt` inserts
abbrev pub in_progress_attempt : String → String → ℕ → Time → TranscriptionAttempt
in_progress_attempt attempt_id recording_id attempt_number now = record {
  id = attempt_id;
  recording_id = recording_id;
  attempt_number = attempt_number;
  started_at = now;
  finished_at = none;
  status = "in_progress";
  retryable = false;
  error_code = none;
  error_message = none;
}

-- A claim that the transaction hands to the read after it, if there is one.
abbrev pub read_claimed {ℓ κ} :
    {A : Type ℓ} {B : Type κ} → (A → Db → Result B) → Option A → Db → Result (Option B)
read_claimed read none db = ok none
read_claimed read (some a) db = elim (read a db) [ ok b ↦ ok (some b) | err e ↦ err e ]

module _ (text_before : Time → Time → Bool) where
  -- ORDER BY received_at, created_at
  abbrev pub received_before : RecordingRow → RecordingRow → Bool
  received_before r s =
      text_before r.received_at s.received_at
      || (not (text_before s.received_at r.received_at) && text_before r.created_at s.created_at)

  -- SELECT ... WHERE status = ? ORDER BY received_at, created_at LIMIT 1
  unfoldable pub oldest_with_status : String → Db → Option RecordingRow
  oldest_with_status status db =
      first_by received_before (select (λ r. r.status == status) db.recordings)

  -- The id that the SELECT found, moved to `transcribing`.
  unfoldable pub claim_received : Option RecordingRow → Time → Tx (Option String)
  claim_received none now = pure none
  claim_received (some row) now = do guarded_transition row.id transcribing now; pure (some row.id)

  unfoldable pub claim_received_for_transcription : Time → Op (Option Recording)
  claim_received_for_transcription now =
      transaction
        (do row ← gets (oldest_with_status (Status.as_str received)); claim_received row now)
      then_read λ claimed. reading (read_claimed require_recording claimed)

  -- SELECT MIN(started_at)
  unfoldable pub min_started : List TranscriptionAttempt → Option Time
  min_started [] = none
  min_started (a ∷ l) = elim (min_started l) [
    | none ↦ some a.started_at
    | some t ↦ if text_before t a.started_at then some t else some a.started_at
  ]

  -- the anchor of the retry window: the manual retry's, or else the first attempt's start
  unfoldable pub first_started : String → Option Time → Tx Time
  first_started recording_id (some window) = pure window
  first_started recording_id none = do
    first ← gets (λ db. min_started (attempts_of recording_id db))
    require (database null_column) first

  -- the claim, once no attempt is in flight
  unfoldable pub insert_started : String → String → Time → Tx (Option TranscriptionAttemptStart)
  insert_started attempt_id recording_id now = do
    last ← gets (λ db. max_attempt_number (attempts_of recording_id db))
    insert_transcription_attempt_row (in_progress_attempt attempt_id recording_id (last + 1) now)
    found ← gets (find_recording recording_id)
    row ← require (database row_not_found) found
    first ← first_started recording_id row.retry_window_started_at
    pure (some (record { attempt_number = last + 1; first_started_at = first }))

  unfoldable pub start_transcription_attempt :
      String → String → Time → Op (Option TranscriptionAttemptStart)
  start_transcription_attempt attempt_id recording_id now = transaction (do
    in_flight ← gets (λ db. exists_row (is_open_for recording_id) db.transcription_attempts)
    (if in_flight then pure none else insert_started attempt_id recording_id now))

  -- WHERE status = 'transcribing' AND EXISTS (an attempt) AND NOT EXISTS (one in flight)
  unfoldable pub awaits_retry : Db → RecordingRow → Bool
  awaits_retry db r =
      r.status == Status.as_str transcribing
      && exists_row (λ a. a.recording_id == r.id) db.transcription_attempts
      && not (exists_row (is_open_for r.id) db.transcription_attempts)

  -- The latest attempt: ORDER BY attempt_number DESC LIMIT 1.
  unfoldable pub last_attempt : List TranscriptionAttempt → Option TranscriptionAttempt
  last_attempt = first_by (λ a b. ltb b.attempt_number a.attempt_number)

  abbrev candidate_of :
      RecordingRow
      → Db
      → Result Recording
      → Option TranscriptionAttempt
      → Result TranscriptionRetryCandidate
  candidate_of row db (err e) last = err e
  candidate_of row db (ok recording) none = err (database null_column)
  candidate_of row db (ok recording) (some last) = elim last.finished_at [
    | none ↦ err (database null_column)
    | some finished ↦ ok (record {
      recording = recording;
      last_attempt_number = max_attempt_number (attempts_of row.id db);
      last_attempt_finished_at = finished;
      retry_window_started_at = row.retry_window_started_at;
    })
  ]

  unfoldable pub candidates_of : List RecordingRow → Db → Result (List TranscriptionRetryCandidate)
  unfolding last_attempt
  candidates_of [] db = ok []
  candidates_of (row ∷ rows) db =
      let rest = candidates_of rows db in
      elim (candidate_of row db (require_recording row.id db)
        (last_attempt (attempts_of row.id db))) [
          | err e ↦ err e
          | ok c ↦ elim rest [ ok cs ↦ ok (c ∷ cs) | err e ↦ err e ]
        ]

  unfoldable pub transcription_retry_candidates : Op (List TranscriptionRetryCandidate)
  transcription_retry_candidates =
      reading
        λ db. candidates_of (sort_by received_before (select (awaits_retry db) db.recordings)) db
