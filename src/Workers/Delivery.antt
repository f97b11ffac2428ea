-- ===== src/Workers/Delivery.antt =====
-- src/workers/delivery.rs: one tick of the Delivery worker.
use telegraph_center.Base.{
  ℕ, String, Bool, ◌||◌, true, false, Option, none, some, List, [], ◌∷◌, ltb, leb, if◌then◌else◌,
}
use telegraph_center.Base.Int.{pos}
use telegraph_center.Retry.{Time, next_retry_at}
use telegraph_center.Storage.Tx.{Op}
use telegraph_center.Storage.Deliveries.{
  DeliveryCandidate, delivery_candidates, start_delivery_attempt, succeed_delivery, retry_delivery,
  fail_delivery,
}
use telegraph_center.Workers.{
  WorkOutcome, worked, idle, retryable, terminal, DeliveryRequest, Reply, success, failure, Call,
  calling, done, ◌>>=◌, ◌>>◌,
}

-- A retry window that an Operator opened after the latest attempt, if there was one.
unfoldable pub is_manual_retry : DeliveryCandidate → Bool
is_manual_retry c = elim c.retry_window_started_at [
  | none ↦ false
  | some window ↦ elim c.last_attempt_finished_at [
    | none ↦ true
    | some finished ↦ ltb finished window
  ]
]

-- The first attempt is due as soon as the Sink was selected.
unfoldable pub due_at : DeliveryCandidate → Option ℕ → Option Time → Time
unfolding next_retry_at
due_at c (some number) (some finished_at) = next_retry_at finished_at (pos number)
due_at c number finished_at = c.delivery.selected_at

unfoldable pub is_due : Time → DeliveryCandidate → Bool
unfolding is_manual_retry due_at
is_due now c =
    is_manual_retry c || leb (due_at c c.last_attempt_number c.last_attempt_finished_at) now

-- the loop over the candidates
unfoldable pub first_due : Time → List DeliveryCandidate → Option DeliveryCandidate
unfolding is_due
first_due now [] = none
first_due now (c ∷ cs) = if is_due now c then some c else first_due now cs

unfoldable pub is_expired : Option Time → Time → Bool
is_expired none finished_at = false
is_expired (some deadline) finished_at = leb deadline finished_at

-- The outcome of the attempt is recorded: a retryable failure at or past the deadline is terminal.
unfoldable pub settle : String → DeliveryCandidate → Time → Reply (Unit {0}) → Op (Unit {0})
unfolding is_expired
settle attempt_id c finished_at (success u) = do
  succeed_delivery attempt_id c.delivery.id finished_at none
  done tt
settle attempt_id c finished_at (failure (retryable code message)) =
    if is_expired c.delivery.retry_deadline_at finished_at
    then (do fail_delivery attempt_id c.delivery.id finished_at none message; done tt)
    else retry_delivery attempt_id c.delivery.id finished_at none message
settle attempt_id c finished_at (failure (terminal code message)) = do
  fail_delivery attempt_id c.delivery.id finished_at none message
  done tt

unfoldable pub request_of : DeliveryCandidate → DeliveryRequest
request_of c = record { recording = c.recording; delivery = c.delivery; transcript = c.transcript }

module _ (text_before : Time → Time → Bool) (deliver : Call DeliveryRequest (Unit {0})) where
  unfoldable pub pick_due_delivery : Time → Op (Option DeliveryCandidate)
  unfolding first_due
  pick_due_delivery now = do
    candidates ← delivery_candidates text_before
    done (first_due now candidates)

  -- The attempt, unless another worker started one first.
  unfoldable pub run_attempt : String → DeliveryCandidate → Time → Option ℕ → Op WorkOutcome
  unfolding request_of settle
  run_attempt attempt_id c finished_at none = done idle
  run_attempt attempt_id c finished_at (some attempt_number) = do
    reply ← calling deliver (request_of c)
    settle attempt_id c finished_at reply
    done worked

  unfoldable pub process : String → Time → Time → Option DeliveryCandidate → Op WorkOutcome
  unfolding run_attempt
  process attempt_id started_at finished_at none = done idle
  process attempt_id started_at finished_at (some c) = do
    start ← start_delivery_attempt attempt_id c.delivery.id started_at
    run_attempt attempt_id c finished_at start

  -- `started_at` and `finished_at` are the two readings of the clock, `attempt_id` the generated id.
  unfoldable pub tick_once : String → Time → Time → Op WorkOutcome
  unfolding pick_due_delivery process
  tick_once attempt_id started_at finished_at = do
    candidate ← pick_due_delivery started_at
    process attempt_id started_at finished_at candidate
