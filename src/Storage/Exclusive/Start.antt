-- ===== src/Storage/Exclusive/Start.antt =====
-- `start_transcription_attempt` and `start_delivery_attempt` of src/storage/sqlite.rs, and the
-- attempts in flight.
use telegraph_center.Base.{
  ℕ, ◌+◌, String, ◌≡◌, Bool, true, false, Option, none, some, [], ◌∷◌, ◌++◌, arith, eq_iff,
  if◌then◌else◌, sym, subst, ap, ◌∙◌,
}
use telegraph_center.Base.Table.{exists_row}
use telegraph_center.Retry.{Time}
use telegraph_center.Domain.Entities.{TranscriptionAttempt, DeliveryAttempt}
use telegraph_center.Storage.Rows.{Db, ok}
use telegraph_center.Storage.Tx.{Tx, pure, ◌>>=◌}
use telegraph_center.Storage.Statements.{
  insert_transcription_attempt_row, insert_delivery_attempt_row,
}
use telegraph_center.Storage.Acts.{Keeps, >>=-inverts, keeps_rules}
use telegraph_center.Storage.Transcription
use telegraph_center.Storage.Transcription.{
  store_transcript, succeed_transcription, retry_transcription, fail_transcription,
  claim_received_for_transcription, claim_received, start_transcription_attempt, first_started,
  in_progress_attempt,
}
use telegraph_center.Storage.Deliveries
use telegraph_center.Storage.Deliveries.{
  complete_delivery, note_error, succeed_delivery, retry_delivery, fail_delivery,
  start_delivery_attempt,
}
use telegraph_center.Storage.Agreement.Rules.{transaction-preserves}
use telegraph_center.Storage.Exclusive.{
  attempts_of, IsExclusive, count_rows-append, count_rows-exists_row,
}
use telegraph_center.Storage.Exclusive.Frames.{attempt_rules}

abbrev pub Exclusive : Db → Type 0
Exclusive db = IsExclusive (attempts_of db)

module _ (text_before : Time → Time → Bool) where
  first_started-attempts :
      (id : String) (w : Option Time) → Keeps attempts_of (first_started text_before id w)
  unfolding first_started
  first_started-attempts id none = search keeps_rules
  first_started-attempts id (some w) = search keeps_rules

insert_transcription_inverts :
    (row : TranscriptionAttempt) (db db' : Db) (u : Unit {0})
    → insert_transcription_attempt_row row db ≡ ok (u, db')
    → attempts_of db' ≡ record {
      transcriptions = db.transcription_attempts ++ row ∷ [];
      deliveries = db.delivery_attempts;
    }
unfolding insert_transcription_attempt_row ◌>>=◌
insert_transcription_inverts row db db' u e = ground arith

insert_delivery_inverts :
    (row : DeliveryAttempt) (db db' : Db) (u : Unit {0})
    → insert_delivery_attempt_row row db ≡ ok (u, db')
    → attempts_of db' ≡ record {
      transcriptions = db.transcription_attempts;
      deliveries = db.delivery_attempts ++ row ∷ [];
    }
unfolding insert_delivery_attempt_row ◌>>=◌
insert_delivery_inverts row db db' u e = ground arith

-- One attempt in flight is added where there was none.
module _ (id : String) (n : ℕ) (now : Time) (db : Db) (h : Exclusive db) where
  added_transcription :
      (rid : String)
      → exists_row (Transcription.is_open_for rid) db.transcription_attempts ≡ false
      → IsExclusive (record {
        transcriptions =
            db.transcription_attempts ++ Transcription.in_progress_attempt id rid n now ∷ [];
        deliveries = db.delivery_attempts;
      })
  added_transcription rid free = record {
    transcribing = λ i.
        let e =
          count_rows-append (Transcription.is_open_for i) db.transcription_attempts
            (Transcription.in_progress_attempt id rid n now) in
        let empty =
          count_rows-exists_row (Transcription.is_open_for rid) db.transcription_attempts free in
        ground (arith, h.transcribing i, eq_iff rid i);
    delivering = h.delivering;
  }

  added_delivery :
      (did : String)
      → exists_row (Deliveries.is_open_for did) db.delivery_attempts ≡ false
      → IsExclusive (record {
        transcriptions = db.transcription_attempts;
        deliveries = db.delivery_attempts ++ Deliveries.in_progress_attempt id did n now ∷ [];
      })
  added_delivery did free = record {
    transcribing = h.transcribing;
    delivering = λ i.
        let e =
          count_rows-append (Deliveries.is_open_for i) db.delivery_attempts
            (Deliveries.in_progress_attempt id did n now) in
        let empty = count_rows-exists_row (Deliveries.is_open_for did) db.delivery_attempts free in
        ground (arith, h.delivering i, eq_iff did i);
  }

delivery_started :
    (id did : String) (now : Time) (db db' : Db) (n : Option ℕ)
    → exists_row (Deliveries.is_open_for did) db.delivery_attempts ≡ false
    → Deliveries.insert_started id did now db ≡ ok (n, db')
    → Exclusive db
    → Exclusive db'
unfolding Deliveries.insert_started
delivery_started id did now db db' n free e h =
    let (last, mid, p, q) = >>=-inverts _ _ db n db' e in
    let (u, after, p', q') = >>=-inverts _ _ mid n db' q in
    let same : mid ≡ db = ground arith in
    let ends : db' ≡ after = ground arith in
    subst (λ x. Exclusive x) (sym ends)
      (subst IsExclusive (sym (insert_delivery_inverts _ mid after u p')) (
        subst
          (λ x. IsExclusive (record {
            transcriptions = x.transcription_attempts;
            deliveries =
                x.delivery_attempts ++ Deliveries.in_progress_attempt id did (last + 1) now ∷ [];
          }))
          (sym same) (added_delivery id (last + 1) now db h did free)))

-- What follows the INSERT leaves the attempts as it left them.
inserted_run :
    {A : Type 0} (row : TranscriptionAttempt) (rest : Unit {0} → Tx A)
    → ((u : Unit {0}) → Keeps attempts_of (rest u))
    → (db : Db) (a : A) (db' : Db)
    → (insert_transcription_attempt_row row >>= rest) db ≡ ok (a, db')
    → attempts_of db' ≡ record {
      transcriptions = db.transcription_attempts ++ row ∷ [];
      deliveries = db.delivery_attempts;
    }
inserted_run row rest keeps db a db' e =
    let (u, mid, p, q) = >>=-inverts (insert_transcription_attempt_row row) rest db a db' e in
    (keeps u).at mid a db' q ∙ insert_transcription_inverts row db mid u p

transcription_started :
    (text_before : Time → Time → Bool) (id rid : String) (now : Time) (db db' : Db)
    (s : Option Transcription.TranscriptionAttemptStart)
    → exists_row (Transcription.is_open_for rid) db.transcription_attempts ≡ false
    → Transcription.insert_started text_before id rid now db ≡ ok (s, db')
    → Exclusive db
    → Exclusive db'
unfolding Transcription.insert_started
transcription_started text_before id rid now db db' s free e h =
    let (last, mid, p, q) = >>=-inverts _ _ db s db' e in
    let same : mid ≡ db = ground arith in
    let added =
      inserted_run (Transcription.in_progress_attempt id rid (last + 1) now) _
        (λ u. search (attempt_rules, first_started-attempts text_before) depth 9) mid s db' q in
    subst IsExclusive
      (sym (
        added
        ∙ ap
            (λ x. record {
              transcriptions =
                  x.transcription_attempts
                  ++ Transcription.in_progress_attempt id rid (last + 1) now ∷ [];
              deliveries = x.delivery_attempts;
            })
            same))
      (added_transcription id (last + 1) now db h rid free)

pub start_transcription_attempt-Exclusive :
    (text_before : Time → Time → Bool) (id rid : String) (now : Time) (db : Db)
    → Exclusive db
    → Exclusive (start_transcription_attempt text_before id rid now db).1
unfolding start_transcription_attempt
start_transcription_attempt-Exclusive text_before id rid now db h =
    transaction-preserves Exclusive _ db h λ s db' e.
      let (in_flight, mid, p, q) = >>=-inverts _ _ db s db' e in
      let same : mid ≡ db = ground arith in
      let read : in_flight ≡ exists_row (Transcription.is_open_for rid) db.transcription_attempts =
        ground arith in
      chosen in_flight mid db' s same read q
  where
    chosen :
        (in_flight : Bool) (mid db' : Db) (s : Option Transcription.TranscriptionAttemptStart)
        → mid ≡ db
        → in_flight ≡ exists_row (Transcription.is_open_for rid) db.transcription_attempts
        → (if in_flight then pure none else Transcription.insert_started text_before id rid now) mid
          ≡ ok (s, db')
        → Exclusive db'
    chosen true mid db' s same read q =
        let last : db' ≡ mid = ground arith in subst (λ x. Exclusive x) (sym (last ∙ same)) h
    chosen false mid db' s same read q =
        transcription_started text_before id rid now db db' s (sym read)
          (subst (λ x. Transcription.insert_started text_before id rid now x ≡ ok (s, db')) same q)
          h

pub start_delivery_attempt-Exclusive :
    (id did : String) (now : Time) (db : Db)
    → Exclusive db
    → Exclusive (start_delivery_attempt id did now db).1
unfolding start_delivery_attempt
start_delivery_attempt-Exclusive id did now db h = transaction-preserves Exclusive _ db h λ n db' e.
    let (in_flight, mid, p, q) = >>=-inverts _ _ db n db' e in
    let same : mid ≡ db = ground arith in
    let read : in_flight ≡ exists_row (Deliveries.is_open_for did) db.delivery_attempts =
      ground arith in
    chosen in_flight mid db' n same read q
  where
    chosen :
        (in_flight : Bool) (mid db' : Db) (n : Option ℕ)
        → mid ≡ db
        → in_flight ≡ exists_row (Deliveries.is_open_for did) db.delivery_attempts
        → (if in_flight then pure none else Deliveries.insert_started id did now) mid ≡ ok (n, db')
        → Exclusive db'
    chosen true mid db' n same read q =
        let last : db' ≡ mid = ground arith in subst (λ x. Exclusive x) (sym (last ∙ same)) h
    chosen false mid db' n same read q =
        delivery_started id did now db db' n (sym read)
          (subst (λ x. Deliveries.insert_started id did now x ≡ ok (n, db')) same q) h
