-- ===== src/Storage/Listing.antt =====
-- The list of the monitor, `list_recording_summaries` of src/storage/sqlite.rs.
use telegraph_center.Base.{
  ℕ, zero, suc, ◌≤◌, ◌≡◌, refl, sym, ◌∙◌, ap, subst, Bool, true, false, Option, none, some, List,
  [], ◌∷◌, arith, length, length-take-le, take, map, All, if◌then◌else◌, Bool-cases, inl, inr,
}
use telegraph_center.Base.Int.{pos}
use telegraph_center.Base.Table.{select, sort_by, insert_by}
use telegraph_center.Domain.Status
use telegraph_center.Domain.Status.{RecordingStatus, Parsed}
use telegraph_center.Domain.Status.Lifecycle.{parse_iff}
use telegraph_center.Retry.{Time}
use telegraph_center.Storage.Rows.{Db, RecordingRow, Result, ok, err, corrupt, recording_status}
use telegraph_center.Storage.Newest.{
  Descends, Descends-take, Descends-map, Descends-sort_by, is_newer_asym, is_newer_received,
}
use telegraph_center.Storage.ReadModels.{
  MonitorStatusFilter, statuses, RecordingSummary, summary_of, summary_into_domain, summaries_of,
  is_among, fits_filter, is_newer, list_recording_summaries, limited,
}

module _ {A : Type 0} (P : A → Type 0) where
  All-take : (n : ℕ) (xs : List A) → All P xs → All P (take n xs)
  All-take zero xs h = tt
  All-take (suc n) [] h = tt
  All-take (suc n) (x ∷ xs) (p, h) = (p, All-take n xs h)

  All-insert_by :
      (before : A → A → Bool) (x : A) (xs : List A) → P x → All P xs → All P (insert_by before x xs)
  unfolding insert_by
  All-insert_by before x [] p h = (p, tt)
  All-insert_by before x (y ∷ ys) p (q, h) = elim (Bool-cases (before y x)) [
    | inl first ↦
        subst (λ b. All P (if b then y ∷ insert_by before x ys else x ∷ y ∷ ys)) (sym first)
          (q, All-insert_by before x ys p h)
    | inr last ↦
        subst (λ b. All P (if b then y ∷ insert_by before x ys else x ∷ y ∷ ys)) (sym last)
          (p, (q, h))
  ]

  All-sort_by : (before : A → A → Bool) (xs : List A) → All P xs → All P (sort_by before xs)
  unfolding sort_by
  All-sort_by before [] h = tt
  All-sort_by before (x ∷ xs) (p, h) =
      All-insert_by before x (sort_by before xs) p (All-sort_by before xs h)

All-select : {A : Type 0} (p : A → Bool) (xs : List A) → All (λ x. p x ≡ true) (select p xs)
unfolding select
All-select p [] = tt
All-select p (x ∷ xs) = elim (Bool-cases (p x)) [
  | inl fits ↦
      subst (λ b. All (λ y. p y ≡ true) (if b then x ∷ select p xs else select p xs)) (sym fits)
        (fits, All-select p xs)
  | inr other ↦
      subst (λ b. All (λ y. p y ≡ true) (if b then x ∷ select p xs else select p xs)) (sym other)
        (All-select p xs)
]

-- The status is one of those that a filter selects.
abbrev pub IsSelected : Option (List RecordingStatus) → RecordingSummary → Type 0
IsSelected none s = Unit {0}
IsSelected (some selected) s = is_among selected (Status.as_str s.status) ≡ true

summary_ok :
    (row : RecordingRow) (s : RecordingSummary)
    → summary_into_domain row ≡ ok s
    → (row.status ≡ Status.as_str s.status) × (row.received_at ≡ s.received_at)
unfolding summary_into_domain
summary_ok row s e = go (Status.parse row.status) refl e
  where
    go :
        (p : Parsed RecordingStatus)
        → Status.parse row.status ≡ p
        → (let q : Result RecordingStatus = elim p [
          | Parsed.ok status ↦ ok status
          | Parsed.unknown text ↦ err (corrupt (recording_status text))
        ] in
            let r : Result RecordingSummary = elim q [
              | ok status ↦ ok (summary_of row status)
              | err c ↦ err c
            ] in
            r)
          ≡ ok s
        → (row.status ≡ Status.as_str s.status) × (row.received_at ≡ s.received_at)
    go (Parsed.unknown text) h k = cc
    go (Parsed.ok status) h k =
        let same : status ≡ s.status = ground (arith, k) in
        let at : row.received_at ≡ s.received_at = ground (arith, k) in
        ((parse_iff row.status status).0 h ∙ ap Status.as_str same, at)

IsSelected-ok :
    (filter : Option (List RecordingStatus)) (row : RecordingRow) (s : RecordingSummary)
    → fits_filter filter row ≡ true
    → summary_into_domain row ≡ ok s
    → IsSelected filter s
unfolding fits_filter
IsSelected-ok none row s h e = tt
IsSelected-ok (some selected) row s h e =
    subst (λ t. is_among selected t ≡ true) (summary_ok row s e).0 h

-- What the rows and the summaries made of them have in common.
abbrev IsSummarized :
    Option (List RecordingStatus) → List RecordingRow → List RecordingSummary → Type 0
IsSummarized filter rows summaries =
    All (IsSelected filter) summaries
    × (map (λ (r : RecordingRow). r.received_at) rows
        ≡ map (λ (s : RecordingSummary). s.received_at) summaries)
    × (length summaries ≡ length rows)

summaries_ok :
    (filter : Option (List RecordingStatus)) (rows : List RecordingRow)
    (summaries : List RecordingSummary)
    → All (λ r. fits_filter filter r ≡ true) rows
    → summaries_of rows ≡ ok summaries
    → IsSummarized filter rows summaries
unfolding summaries_of
summaries_ok filter [] summaries h e =
    subst (IsSummarized filter []) (ok_inverts [] summaries e) (tt, refl, refl)
  where
    ok_inverts :
        (a b : List RecordingSummary)
        → (let r : Result (List RecordingSummary) = ok a in r) ≡ ok b
        → a ≡ b
    ok_inverts a b q = ground (arith, q)
summaries_ok filter (row ∷ rows) summaries (here, h) e =
    go (summary_into_domain row) refl (summaries_of rows) (λ l. summaries_ok filter rows l h) e
  where
    go :
        (q : Result RecordingSummary)
        → summary_into_domain row ≡ q
        → (r : Result (List RecordingSummary))
        → ((l : List RecordingSummary) → r ≡ ok l → IsSummarized filter rows l)
        → (let x : Result (List RecordingSummary) = elim q [
          | err c ↦ err c
          | ok summary ↦ elim r [ err c ↦ err c | ok rest ↦ ok (summary ∷ rest) ]
        ] in
            x)
          ≡ ok summaries
        → IsSummarized filter (row ∷ rows) summaries
    go (err c) f r ih k = cc
    go (ok s) f (err c) ih k = cc
    go (ok s) f (ok rest) ih k =
        let (all, times, same_length) = ih rest refl in
        let whole : s ∷ rest ≡ summaries = ground (arith, k) in
        let at = (summary_ok row s f).1 in
        subst (IsSummarized filter (row ∷ rows)) whole (
          (IsSelected-ok filter row s here f, all),
          ap (λ x. x ∷ map (λ (r : RecordingRow). r.received_at) rows) at
              ∙ ap (λ l. s.received_at ∷ l) times,
          ap suc same_length,
        )

-- The list of the monitor, where the limit is not negative, has at most so many Recordings, each
-- one's status is among those that the filter selects, and they come in descending order of the
-- stored texts of `received_at`: in the order of texts, none is after the one before it. That order
-- is asymmetric.
pub list_recording_summaries_lem :
    (text_before : Time → Time → Bool)
    → ((a b : Time) → text_before a b ≡ true → text_before b a ≡ false)
    → (filter : MonitorStatusFilter) (limit : ℕ) (db : Db) (summaries : List RecordingSummary)
    → list_recording_summaries text_before filter (pos limit) db ≡ ok summaries
    → (length summaries ≤ limit)
      × All (IsSelected (statuses filter)) summaries
      × Descends
          (λ a b. text_before a b ≡ false)
          (map (λ (s : RecordingSummary). s.received_at) summaries)
unfolding list_recording_summaries limited
list_recording_summaries_lem text_before asym filter limit db summaries e =
    let newer = is_newer text_before in
    let fits = λ (r : RecordingRow). fits_filter (statuses filter) r in
    let rows = sort_by newer (select fits db.recordings) in
    let all =
      All-sort_by (λ r. fits r ≡ true) newer (select fits db.recordings)
        (All-select fits db.recordings) in
    let (chosen, times, same_length) =
      summaries_ok (statuses filter) (take limit rows) summaries
        (All-take (λ r. fits r ≡ true) limit rows all) e in
    let sorted =
      Descends-take _ limit rows
        (Descends-sort_by newer (is_newer_asym text_before asym) (select fits db.recordings)) in
    (
      omega (arith, same_length, length-take-le limit rows),
      chosen,
      subst (Descends (λ a b. text_before a b ≡ false)) times (
          Descends-map _ _ (λ r. r.received_at) (is_newer_received text_before) (take limit rows)
            sorted),
    )
