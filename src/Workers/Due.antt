-- ===== src/Workers/Due.antt =====
-- Which retry a worker takes: the loops over the candidates against their description.
use telegraph_center.Base.{
  ◌+◌, ◌≤◌, ◌≡◌, refl, true, false, none, some, List, [], ◌∷◌, ◌++◌, arith, ◌⊎◌, inl, inr, All,
  Bool-cases, ap, ◌<◌, ◌↔◌, Option,
}
use telegraph_center.Base.Int.{pos}
use telegraph_center.Retry.{Time, next_retry_at, minutes, backoff}
use telegraph_center.Retry.Bounds.{backoff_bounds}
use telegraph_center.Storage.Transcription.{TranscriptionRetryCandidate}
use telegraph_center.Workers.Transcription

-- The Recording that the Transcription worker retries is that of the first due candidate of the
-- list, and it retries none only where none is due.
pub first_due_lem :
    (now : Time) (cs : List TranscriptionRetryCandidate)
    → ((Transcription.first_due now cs ≡ none) × All (λ c. Transcription.is_due now c ≡ false) cs)
      ⊎ ((before : List TranscriptionRetryCandidate) × (c : TranscriptionRetryCandidate)
          × (after : List TranscriptionRetryCandidate) × (cs ≡ before ++ c ∷ after)
          × All (λ x. Transcription.is_due now x ≡ false) before
          × (Transcription.is_due now c ≡ true)
          × (Transcription.first_due now cs ≡ some c.recording))
unfolding Transcription.first_due
first_due_lem now [] = inl (refl, tt)
first_due_lem now (c ∷ cs) = elim (Bool-cases (Transcription.is_due now c)) [
  | inl due ↦ inr ([], c, cs, refl, tt, due, rw due refl)
  | inr later ↦ elim (first_due_lem now cs) [
    | inl (nothing, others) ↦ inl (rw later nothing, (later, others))
    | inr (before, d, after, split, earlier, due, found) ↦
        inr (c ∷ before, d, after, ap (λ l. c ∷ l) split, (later, earlier), due, rw later found)
  ]
]

-- A retry window that an Operator opened after the latest attempt.
abbrev pub IsReopened : TranscriptionRetryCandidate → Type 0
IsReopened c =
    (window : Time) × (c.retry_window_started_at ≡ some window)
    × (c.last_attempt_finished_at < window)

manual_iff :
    (c : TranscriptionRetryCandidate) → (Transcription.is_manual_retry c ≡ true) ↔ IsReopened c
unfolding Transcription.is_manual_retry
manual_iff c = go c.retry_window_started_at refl
  where
    go :
        (o : Option Time)
        → c.retry_window_started_at ≡ o
        → (Transcription.is_manual_retry c ≡ true) ↔ IsReopened c
    go none e = (
      λ m. absurd (ground (arith, m, e)),
      λ r. let (w, opened, later) = r in absurd (ground (arith, opened, e)),
    )
    go (some window) e = (
      λ m. (window, e, ground (arith, m, e)),
      λ r. let (w, opened, later) = r in ground (arith, opened, later, e),
    )

-- No retry of a Transcription is early, and none is kept waiting: a candidate is due exactly where
-- an Operator opened a retry window after its latest attempt, or the backoff of that attempt has
-- passed since it finished; and the backoff is at least one minute.
pub due_after_backoff :
    (now : Time) (c : TranscriptionRetryCandidate)
    → ((Transcription.is_due now c ≡ true)
        ↔ (IsReopened c ⊎ (c.last_attempt_finished_at + backoff (pos c.last_attempt_number) ≤ now)))
      × (minutes 1 ≤ backoff (pos c.last_attempt_number))
unfolding Transcription.is_due next_retry_at
due_after_backoff now c =
    let (opened, reopened) = manual_iff c in
    (
      (
        λ due. elim (Bool-cases (Transcription.is_manual_retry c)) [
          | inl manual ↦ inl (opened manual)
          | inr automatic ↦ inr (ground (arith, due, automatic))
        ],
        λ h. elim h [
          | inl r ↦ let manual = reopened r in rw manual refl
          | inr late ↦ ground (arith, late)
        ],
      ),
      (backoff_bounds (pos c.last_attempt_number)).0,
    )
