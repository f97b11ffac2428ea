-- ===== src/Workers/Routing.antt =====
-- src/workers/routing.rs: one tick of the Routing worker.
use telegraph_center.Base.{String, Bool, ◌+◌, Option, none, some}
use telegraph_center.Retry.{Time, delivery_window}
use telegraph_center.Domain.Entities.{Recording}
use telegraph_center.Storage.Rows.{Result, ok, err, invalid_transition}
use telegraph_center.Storage.Tx.{Op}
use telegraph_center.Storage.Statements.{NewDelivery}
use telegraph_center.Storage.Recordings.{mark_backlogged}
use telegraph_center.Storage.Routing.{claim_routing_candidate, route_to_sink}
use telegraph_center.Workers.{
  WorkOutcome, worked, idle, RoutingDecision, sink, backlog, done, ◌>>=◌, ◌>>◌,
}

-- `Ok(_) | Err(StorageError::InvalidTransition(_)) => {}`
unfoldable pub tolerate : Result Recording → Result (Unit {0})
tolerate (ok recording) = ok tt
tolerate (err (invalid_transition e)) = ok tt
tolerate (err e) = err e

abbrev pub tolerating : Op Recording → Op (Unit {0})
tolerating m db = let (r, db') = m db in (tolerate r, db')

unfoldable pub delivery_for : String → Recording → String → Time → NewDelivery
delivery_for delivery_id recording sink_name now = record {
  id = delivery_id;
  recording_id = recording.id;
  sink_name = sink_name;
  selected_at = now;
  retry_deadline_at = some (now + delivery_window);
}

unfoldable pub decide : String → Time → Recording → RoutingDecision → Op (Unit {0})
unfolding tolerate delivery_for
decide delivery_id now recording backlog = tolerating (mark_backlogged recording.id now)
decide delivery_id now recording (sink sink_name) = do
  route_to_sink (delivery_for delivery_id recording sink_name now)
  done tt

module _ (text_before : Time → Time → Bool) (route : Recording → RoutingDecision) where
  unfoldable pub process : String → Time → Option Recording → Op WorkOutcome
  unfolding decide
  process delivery_id now none = done idle
  process delivery_id now (some recording) = do
    decide delivery_id now recording (route recording)
    done worked

  unfoldable pub tick_once : String → Time → Op WorkOutcome
  unfolding process
  tick_once delivery_id now = do
    candidate ← claim_routing_candidate text_before
    process delivery_id now candidate
