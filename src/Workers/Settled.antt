-- ===== src/Workers/Settled.antt =====
-- How the attempts of the workers end, from the reply of the integration to the status of the
-- Recording.
use telegraph_center.Base.{
  ℕ, String, ◌≡◌, refl, sym, ◌∙◌, subst, Bool, true, false, Option, none, some, leb, ◌==◌, eq_iff,
  Bool-cases, inl, inr,
}
use telegraph_center.Base.Table.{exists_row}
use telegraph_center.Retry.{Time, transcription_deadline}
use telegraph_center.Domain.Status
use telegraph_center.Domain.Status.{RecordingStatus}
use telegraph_center.Domain.Entities.{Recording}
use telegraph_center.Blob.{BlobStore}
use telegraph_center.Storage.Rows.{Db, DeliveryRow, Result, ok, err}
use telegraph_center.Storage.Tx.{Tx, Op, transaction}
use telegraph_center.Storage.Statements.{find_delivery}
use telegraph_center.Storage.Transcription.{TranscriptionAttemptStart, retry_transcription}
use telegraph_center.Storage.Deliveries.{DeliveryCandidate, retry_delivery}
use telegraph_center.Storage.View.{status_of}
use telegraph_center.Storage.Acts.{Keeps, Acts-Keeps, transaction-Acts}
use telegraph_center.Storage.Frames.{status_rules}
use telegraph_center.Storage.Outcomes.{
  Moved, succeed_transcription_lem, fail_transcription_lem, succeed_delivery_lem, fail_delivery_lem,
}
use telegraph_center.Workers.{
  Call, Reply, success, failure, retryable, terminal, worked, TranscriptionRequest,
  TranscriptionOutput, DeliveryRequest, done, ◌>>=◌, ◌>>◌,
}
use telegraph_center.Workers.Transcription
use telegraph_center.Workers.Delivery

-- What ends a run of calls without a call leaves the database alone.
then_done : {A B : Type 0} (m : Op A) (b : B) (db : Db) → ((m >> done b) db).1 ≡ (m db).1
unfolding ◌>>=◌
then_done {A} {B} m b db = go (m db).0 (m db).1
  where
    go :
        (r : Result A) (s : Db)
        → (let t : Result B × Db = elim r [ ok a ↦ (ok b, s) | err e ↦ (err e, s) ] in t.1) ≡ s
    go (ok a) s = refl
    go (err e) s = refl

Moved-done :
    {A B : Type 0} (id : String) (next : RecordingStatus) (m : Op A) (b : B) (db : Db)
    → Moved id next db (m db).1
    → Moved id next db ((m >> done b) db).1
Moved-done id next m b db h = subst (Moved id next db) (sym (then_done m b db)) h

-- Where no status changes, each Recording is in the status that it was in.
Moved-same :
    (id : String) (s : RecordingStatus) (db db' : Db)
    → ((i : String) → status_of i db' ≡ status_of i db)
    → status_of id db ≡ some s
    → Moved id s db db'
Moved-same id s db db' same here = record {
  at = λ i. elim (Bool-cases (id == i)) [
    | inl e ↦ rw e (same i ∙ subst (λ x. status_of x db ≡ some s) ((eq_iff id i).0 e) here)
    | inr ne ↦ rw ne (same i)
  ];
}

unchanged :
    {A : Type 0} (i : String) (m : Tx A)
    → Keeps (status_of i) m
    → (db : Db) → status_of i (transaction m db).1 ≡ status_of i db
unchanged i m km db =
    transaction-Acts {R = λ x y. y ≡ x} m (λ x. refl) (Acts-Keeps (λ x. refl) m km) db

retry_transcription_same :
    (i attempt_id id : String) (at : Time) (code message : String) (db : Db)
    → status_of i (retry_transcription attempt_id id at code message db).1 ≡ status_of i db
unfolding retry_transcription
retry_transcription_same i attempt_id id at code message db = unchanged i _ (search status_rules) db

retry_delivery_same :
    (i attempt_id id : String) (at : Time) (http : Option ℕ) (message : String) (db : Db)
    → status_of i (retry_delivery attempt_id id at http message db).1 ≡ status_of i db
unfolding retry_delivery
retry_delivery_same i attempt_id id at http message db = unchanged i _ (search status_rules) db

-- The status that an attempt leaves: `late` tells that its end is at or past the deadline.
abbrev pub transcribed : Bool → Reply TranscriptionOutput → RecordingStatus
transcribed late (success output) = Status.routing
transcribed late (failure (terminal code message)) = Status.transcription_failed
transcribed true (failure (retryable code message)) = Status.transcription_failed
transcribed false (failure (retryable code message)) = Status.transcribing

abbrev pub delivered_as : Bool → Reply (Unit {0}) → RecordingStatus
delivered_as late (success u) = Status.delivered
delivered_as late (failure (terminal code message)) = Status.delivery_failed
delivered_as true (failure (retryable code message)) = Status.delivery_failed
delivered_as false (failure (retryable code message)) = Status.delivering

module _ (attempt_id : String) (recording : Recording) (first at : Time) where
  abbrev late : Bool
  late = leb (transcription_deadline first recording.audio_duration_ms) at

  settle-Moved :
      (reply : Reply TranscriptionOutput) (db : Db)
      → status_of recording.id db ≡ some Status.transcribing
      → exists_row (λ t. t.recording_id == recording.id) db.transcripts ≡ false
      → Moved recording.id
          (transcribed late reply)
          db
          (Transcription.settle attempt_id recording first at reply db).1
  unfolding Transcription.settle Transcription.transcript_of
  settle-Moved (success output) db here fresh = Moved-done recording.id _ _ tt db (
      succeed_transcription_lem attempt_id at (Transcription.transcript_of recording output at) db
        here fresh)
  settle-Moved (failure (terminal code message)) db here fresh =
      Moved-done recording.id _ _ tt db
        (fail_transcription_lem attempt_id recording.id at code message db here)
  settle-Moved (failure (retryable code message)) db here fresh = elim (Bool-cases late) [
    | inl e ↦ rw e (
        Moved-done recording.id Status.transcription_failed _ tt db
          (fail_transcription_lem attempt_id recording.id at code message db here))
    | inr e ↦ rw e (
        Moved-same recording.id Status.transcribing db _
          (λ i. retry_transcription_same i attempt_id recording.id at code message db) here)
  ]

-- The deadline of a Delivery, if it has one, is reached.
abbrev pub is_past : Option Time → Time → Bool
is_past none at = false
is_past (some deadline) at = leb deadline at

expired_lem : (o : Option Time) (at : Time) → Delivery.is_expired o at ≡ is_past o at
unfolding Delivery.is_expired
expired_lem none at = refl
expired_lem (some deadline) at = refl

module _ (attempt_id : String) (c : DeliveryCandidate) (at : Time) (d : DeliveryRow) where
  delivery_settle-Moved :
      (reply : Reply (Unit {0})) (db : Db)
      → find_delivery c.delivery.id db ≡ some d
      → status_of d.recording_id db ≡ some Status.delivering
      → Moved d.recording_id
          (delivered_as (is_past c.delivery.retry_deadline_at at) reply)
          db
          (Delivery.settle attempt_id c at reply db).1
  unfolding Delivery.settle
  delivery_settle-Moved (success u) db found here =
      Moved-done d.recording_id _ _ tt db
        (succeed_delivery_lem attempt_id c.delivery.id at none d db found here)
  delivery_settle-Moved (failure (terminal code message)) db found here =
      Moved-done d.recording_id _ _ tt db
        (fail_delivery_lem attempt_id c.delivery.id at none message d db found here)
  delivery_settle-Moved (failure (retryable code message)) db found here =
      let past = is_past c.delivery.retry_deadline_at at in
      let expired = expired_lem c.delivery.retry_deadline_at at in
      elim (Bool-cases past) [
        | inl e ↦
            rw (expired, e)
              (Moved-done d.recording_id Status.delivery_failed _ tt db
                (fail_delivery_lem attempt_id c.delivery.id at none message d db found here))
        | inr e ↦
            rw (expired, e)
              (Moved-same d.recording_id Status.delivering db _
                (λ i. retry_delivery_same i attempt_id c.delivery.id at none message db) here)
      ]

module _ (text_before : Time → Time → Bool) where
  -- An attempt of the Transcription worker, from any reply: where the Recording is `transcribing`
  -- and has no Transcript when the transcriber answers, it is `routing` after a success,
  -- `transcription_failed` after a terminal failure or a retryable one at or past the deadline, and
  -- still `transcribing` after an earlier retryable one; every other Recording keeps its status.
  pub transcription_attempt_lem :
      (blobs : BlobStore) (transcribe : Call TranscriptionRequest TranscriptionOutput)
      (attempt_id : String) (recording : Recording) (finished_at : Time)
      (start : TranscriptionAttemptStart) (db : Db)
      → let (reply, after) = transcribe (Transcription.request_of blobs recording) db in
        status_of recording.id after ≡ some Status.transcribing
        → exists_row (λ t. t.recording_id == recording.id) after.transcripts ≡ false
        → Moved recording.id
            (transcribed
              (leb
                (transcription_deadline start.first_started_at recording.audio_duration_ms)
                finished_at)
              reply)
            after
            (Transcription.run_attempt text_before blobs transcribe attempt_id recording finished_at
              (some start)
              db).1
  unfolding Transcription.run_attempt ◌>>=◌
  transcription_attempt_lem blobs transcribe attempt_id recording finished_at start db here fresh =
      let q = transcribe (Transcription.request_of blobs recording) db in
      Moved-done recording.id _
        (Transcription.settle attempt_id recording start.first_started_at finished_at q.0) worked
        q.1
        (settle-Moved attempt_id recording start.first_started_at finished_at q.0 q.1 here fresh)

  -- An attempt of the Delivery worker, from any reply: where the Delivery exists and its Recording is
  -- `delivering` when the Sink answers, the Recording is `delivered` after a success,
  -- `delivery_failed` after a terminal failure or a retryable one at or past the Delivery's deadline,
  -- and still `delivering` after an earlier retryable one; every other Recording keeps its status.
  pub delivery_attempt_lem :
      (deliver : Call DeliveryRequest (Unit {0})) (attempt_id : String) (c : DeliveryCandidate)
      (finished_at : Time) (number : ℕ) (d : DeliveryRow) (db : Db)
      → let (reply, after) = deliver (Delivery.request_of c) db in
        find_delivery c.delivery.id after ≡ some d
        → status_of d.recording_id after ≡ some Status.delivering
        → Moved d.recording_id
            (delivered_as (is_past c.delivery.retry_deadline_at finished_at) reply)
            after
            (Delivery.run_attempt text_before deliver attempt_id c finished_at (some number) db).1
  unfolding Delivery.run_attempt ◌>>=◌
  delivery_attempt_lem deliver attempt_id c finished_at number d db found here =
      let q = deliver (Delivery.request_of c) db in
      Moved-done d.recording_id _ (Delivery.settle attempt_id c finished_at q.0) worked q.1
        (delivery_settle-Moved attempt_id c finished_at d q.0 q.1 found here)
