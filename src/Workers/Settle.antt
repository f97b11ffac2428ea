-- ===== src/Workers/Settle.antt =====
-- When a worker gives up: a failure that could be retried, against the window and the deadline.
use telegraph_center.Base.{
  String, ◌+◌, ◌≤◌, ◌<◌, ◌⊎◌, inl, inr, Option-cases, Bool-cases, ◌≡◌, none, some, arith, leb,
}
use telegraph_center.Retry.{Time, hours, transcription_deadline}
use telegraph_center.Retry.Bounds.{transcription_window_bounds}
use telegraph_center.Domain.Entities.{Recording}
use telegraph_center.Storage.Transcription.{retry_transcription}
use telegraph_center.Storage.Deliveries.{DeliveryCandidate, retry_delivery}
use telegraph_center.Workers.{failure, retryable, terminal}
use telegraph_center.Workers.Transcription
use telegraph_center.Workers.Delivery

module _ (attempt_id : String) (r : Recording) (first at : Time) (code message : String) where
  -- Whatever the length of the audio, a retryable failure of a Transcription that comes less than 2
  -- hours after the start of the retry window is recorded as one to retry.
  pub settle_early :
      at < first + hours 2
      → Transcription.settle attempt_id r first at (failure (retryable code message))
        ≡ retry_transcription attempt_id r.id at code message
  unfolding Transcription.settle transcription_deadline
  settle_early early = let bounds = transcription_window_bounds r.audio_duration_ms in ground arith

  -- Whatever the length of the audio, a retryable failure of a Transcription that comes 24 hours or
  -- more after the start of the retry window is recorded as a terminal one.
  pub settle_late :
      first + hours 24 ≤ at
      → Transcription.settle attempt_id r first at (failure (retryable code message))
        ≡ Transcription.settle attempt_id r first at (failure (terminal code message))
  unfolding Transcription.settle transcription_deadline
  settle_late late = let bounds = transcription_window_bounds r.audio_duration_ms in ground arith

-- A retryable failure of a Delivery is recorded as a terminal one where the Delivery has a deadline
-- that is reached, and as one to retry where it has none or a later one.
pub settle_deadline :
    (attempt_id : String) (c : DeliveryCandidate) (at : Time) (code message : String)
    → ((deadline : Time) × (c.delivery.retry_deadline_at ≡ some deadline)
        × (deadline ≤ at)
        × (Delivery.settle attempt_id c at (failure (retryable code message))
            ≡ Delivery.settle attempt_id c at (failure (terminal code message))))
      ⊎ (((c.delivery.retry_deadline_at ≡ none)
            ⊎ ((deadline : Time) × (c.delivery.retry_deadline_at ≡ some deadline)
                × (at < deadline)))
          × (Delivery.settle attempt_id c at (failure (retryable code message))
              ≡ retry_delivery attempt_id c.delivery.id at none message))
unfolding Delivery.settle Delivery.is_expired
settle_deadline attempt_id c at code message = elim (Option-cases c.delivery.retry_deadline_at) [
  | inl no_deadline ↦ inr (inl no_deadline, ground arith)
  | inr (deadline, e) ↦ elim (Bool-cases (leb deadline at)) [
    | inl late ↦ inl (deadline, e, ground arith, ground arith)
    | inr early ↦ inr (inr (deadline, e, ground arith), ground arith)
  ]
]
