-- ===== src/Storage/Claim.antt =====
-- `claim_received_for_transcription` of src/storage/sqlite.rs where there is work, and where there
-- is none.
use telegraph_center.Base.{
  String, ◌≡◌, refl, Bool, true, false, some, List, [], ◌∷◌, arith, ◌==◌, eq_iff, eq_refl, All,
  Option-cases, Bool-cases, inl, inr, sym, ap, ◌∙◌, subst,
}
use telegraph_center.Base.Table.{select_one, select, exists_row, first_by}
use telegraph_center.Base.Table.Laws.{Distinct, exists_row_found}
use telegraph_center.Retry.{Time}
use telegraph_center.Domain.Status
use telegraph_center.Domain.Status.{RecordingStatus, Parsed}
use telegraph_center.Domain.Status.Lifecycle.{parse-as_str, parse_iff}
use telegraph_center.Storage.Rows.{Db, RecordingRow, ok}
use telegraph_center.Storage.Tx.{gets}
use telegraph_center.Storage.Statements.{guarded_transition, update_recording, set_status}
use telegraph_center.Storage.Transcription.{
  claim_received_for_transcription, claim_received, oldest_with_status, received_before,
}
use telegraph_center.Storage.View.{status_of, status_in, row_status, parsed_status}
use telegraph_center.Storage.Transition.{guarded_transition_lem, status_of-set_status}
use telegraph_center.Storage.Outcomes.{Moved, >>=-runs, transaction_state, then_read-Moved}

module _ {ℓ} {A : Type ℓ} where
  first_by-All :
      (P : A → Type 0) (before : A → A → Bool) (xs : List A) (r : A)
      → All P xs
      → first_by before xs ≡ some r
      → P r
  unfolding first_by
  first_by-All P before [] r h e = cc
  first_by-All P before (x ∷ xs) r h e = elim (Option-cases (first_by before xs)) [
    | inl nothing ↦ subst P (ground arith) h.0
    | inr (y, found) ↦ elim (Bool-cases (before y x)) [
      | inl earlier ↦ first_by-All P before xs r h.1 (ground arith)
      | inr later ↦ subst P (ground arith) h.0
    ]
  ]

  select-All :
      (P : A → Type 0) (p : A → Bool) (xs : List A)
      → All P xs
      → All (λ r. P r × (p r ≡ true)) (select p xs)
  unfolding select
  select-All P p [] h = tt
  select-All P p (x ∷ xs) h = elim (Bool-cases (p x)) [
    | inl fits ↦ rw fits ((h.0, fits), select-All P p xs h.1)
    | inr other ↦ rw other (select-All P p xs h.1)
  ]

  first_by_cons :
      (before : A → A → Bool) (x : A) (xs : List A) → (r : A) × (first_by before (x ∷ xs) ≡ some r)
  unfolding first_by
  first_by_cons before x xs = elim (Option-cases (first_by before xs)) [
    | inl nothing ↦ (x, rw nothing refl)
    | inr (y, found) ↦ elim (Bool-cases (before y x)) [
      | inl earlier ↦ (y, rw (found, earlier) refl)
      | inr later ↦ (x, rw (found, later) refl)
    ]
  ]

  first_by_found :
      (before : A → A → Bool) (p : A → Bool) (xs : List A)
      → exists_row p xs ≡ true
      → (r : A) × (first_by before (select p xs) ≡ some r)
  unfolding select exists_row
  first_by_found before p [] h = cc
  first_by_found before p (x ∷ xs) h = elim (Bool-cases (p x)) [
    | inl fits ↦ rw fits (first_by_cons before x (select p xs))
    | inr other ↦ rw other (first_by_found before p xs (ground arith))
  ]

  absent :
      (key : A → String) (k : String) (xs : List A)
      → exists_row (λ y. key y == k) xs ≡ false
      → All (λ r. key r == k ≡ false) xs
  unfolding exists_row
  absent key k [] h = tt
  absent key k (x ∷ xs) h = (ground arith, absent key k xs (ground arith))

  All-select_one :
      (key : A → String) (x : A) (xs zs : List A)
      → All (λ r. key r == key x ≡ false) zs
      → All (λ r. select_one (λ y. key y == key r) xs ≡ some r) zs
      → All (λ r. select_one (λ y. key y == key r) (x ∷ xs) ≡ some r) zs
  unfolding select_one
  All-select_one key x xs [] hs h = tt
  All-select_one key x xs (z ∷ zs) hs h = (
    ground (arith, hs.0, h.0, eq_iff (key z) (key x), eq_iff (key x) (key z)),
    All-select_one key x xs zs hs.1 h.1,
  )

  -- Every row of a table is the one that its key finds.
  Distinct-All :
      (key : A → String) (xs : List A)
      → Distinct key xs
      → All (λ r. select_one (λ y. key y == key r) xs ≡ some r) xs
  unfolding select_one
  Distinct-All key [] h = tt
  Distinct-All key (x ∷ xs) h = (
    ground (arith, eq_refl (key x)),
    All-select_one key x xs xs (absent key (key x) xs h.0) (Distinct-All key xs h.1),
  )

parsed_inverts :
    (p : Parsed RecordingStatus) (s : RecordingStatus) → parsed_status p ≡ some s → p ≡ Status.ok s
parsed_inverts (Status.ok t) s e = ground arith
parsed_inverts (Status.unknown t) s e = cc

-- The text of a status that is `received`.
received_text :
    (r : RecordingRow)
    → r.status == Status.as_str Status.received ≡ true
    → row_status (some r) ≡ some Status.received
received_text r h =
    ap (λ t. parsed_status (Status.parse t)) ((eq_iff r.status (Status.as_str Status.received)).0 h)
    ∙ ap parsed_status (parse-as_str Status.received)

module _ (text_before : Time → Time → Bool) (now : Time) (db : Db) where
  oldest_received :
      (r : RecordingRow)
      → Distinct (λ x. x.id) db.recordings
      → oldest_with_status text_before (Status.as_str Status.received) db ≡ some r
      → status_of r.id db ≡ some Status.received
  unfolding oldest_with_status status_in
  oldest_received r distinct found =
      let (by_id, text) =
        first_by-All
          (λ x.
            (select_one (λ y. y.id == x.id) db.recordings ≡ some x)
            × (x.status == Status.as_str Status.received ≡ true))
          (received_before text_before) _ r
          (select-All _ (λ x. x.status == Status.as_str Status.received) db.recordings
            (Distinct-All (λ x. x.id) db.recordings distinct))
          found in
      ap row_status by_id ∙ received_text r text

  claimed :
      (r : RecordingRow)
      → oldest_with_status text_before (Status.as_str Status.received) db ≡ some r
      → status_of r.id db ≡ some Status.received
      → Moved r.id Status.transcribing db (claim_received_for_transcription text_before now db).1
  unfolding claim_received_for_transcription claim_received
  claimed r found before =
      let mid : Db = update_recording r.id (set_status Status.transcribing now) db in
      let moved =
        guarded_transition_lem r.id Status.received Status.transcribing now db before refl in
      let run =
        >>=-runs (gets (oldest_with_status text_before (Status.as_str Status.received))) _ db
          (some r) db (ap (λ o. ok (o, db)) found)
        ∙ >>=-runs (guarded_transition r.id Status.transcribing now) _ db tt mid moved in
      then_read-Moved r.id Status.transcribing _ _ db (
        subst (Moved r.id Status.transcribing db) (sym (transaction_state _ db (some r.id) mid run))
          (record {
            at = λ i. status_of-set_status i r.id Status.received Status.transcribing now db before;
          }))

  some_received :
      (id : String)
      → status_of id db ≡ some Status.received
      → exists_row (λ r. r.status == Status.as_str Status.received) db.recordings ≡ true
  unfolding status_in
  some_received id h = elim (Option-cases (select_one (λ r. r.id == id) db.recordings)) [
    | inl missing ↦ absurd (ground arith)
    | inr (r, found) ↦
        exists_row_found (λ x. x.id == id) _ db.recordings r found
          ((eq_iff r.status (Status.as_str Status.received)).1 (
            (parse_iff r.status Status.received).0 (
              parsed_inverts (Status.parse r.status) Status.received
                (sym (ap row_status found) ∙ h))))
  ]

  -- Where ids are distinct and some Recording is `received`, the claim moves one `received`
  -- Recording to `transcribing`, and every other keeps its status.
  pub claim_progress :
      (id : String)
      → Distinct (λ r. r.id) db.recordings
      → status_of id db ≡ some Status.received
      → (claimed_id : String) × (status_of claimed_id db ≡ some Status.received)
        × Moved claimed_id Status.transcribing db
            (claim_received_for_transcription text_before now db).1
  unfolding oldest_with_status
  claim_progress id distinct waiting =
      let (r, found) =
        first_by_found (received_before text_before)
          (λ x. x.status == Status.as_str Status.received) db.recordings
          (some_received id waiting) in
      let before = oldest_received r distinct found in (r.id, before, claimed r found before)
