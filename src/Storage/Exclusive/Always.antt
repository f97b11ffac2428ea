-- ===== src/Storage/Exclusive/Always.antt =====
-- The attempts in flight over the startup pass and over whole histories.
use telegraph_center.Base.{String, Bool, true, some, arith}
use telegraph_center.Base.Table.{count_rows}
use telegraph_center.Retry.{Time}
use telegraph_center.Storage.Rows.{Db, empty_db}
use telegraph_center.Storage.Acts.{
  Acts, Keeps-modify, Keeps-gets, Keeps-pure, Acts-modify, Acts-bind-left, Acts-bind-right,
  Acts-bind_trans, keeps_rules,
}
use telegraph_center.Storage.Transcription
use telegraph_center.Storage.Transcription.{
  store_transcript, succeed_transcription, retry_transcription, fail_transcription,
  claim_received_for_transcription, claim_received, start_transcription_attempt, first_started,
  in_progress_attempt,
}
use telegraph_center.Storage.Deliveries
use telegraph_center.Storage.Deliveries.{
  complete_delivery, note_error, succeed_delivery, retry_delivery, fail_delivery,
  start_delivery_attempt,
}
use telegraph_center.Storage.Recovery.{
  recover_abandoned_attempts, reclaim, surface_transcription, close_transcription, revert_stranded,
  surface_delivery, close_delivery, is_unfinished, is_unfinished_delivery, abandoned_message,
}
use telegraph_center.Storage.Steps.{Step, History}
use telegraph_center.Storage.Exclusive.{
  attempts_of, IsExclusive, StaysExclusive, count_rows-update_where,
}
use telegraph_center.Storage.Exclusive.Start.{
  Exclusive, start_transcription_attempt-Exclusive, start_delivery_attempt-Exclusive,
}
use telegraph_center.Storage.Exclusive.Operations.{
  claim-Exclusive, complete_delivery-Exclusive, create_recording-Exclusive, fail_delivery-Exclusive,
  fail_transcription-Exclusive, manual_retry_delivery-Exclusive,
  manual_retry_transcription-Exclusive, manual_route-Exclusive, mark_backlogged-Exclusive,
  retry_delivery-Exclusive, retry_transcription-Exclusive, route_to_sink-Exclusive,
  select_sink-Exclusive, stays, store_transcript-Exclusive, succeed_delivery-Exclusive,
  succeed_transcription-Exclusive,
}

-- The startup pass opens no attempt.
module _ (now : Time) where
  close_transcription-Stays : Acts attempts_of StaysExclusive (close_transcription now)
  unfolding close_transcription
  close_transcription-Stays = Acts-bind-left _ _ (Keeps-gets _) λ affected.
      Acts-bind-right _ _
        (Acts-modify _ λ db h. record {
          transcribing = λ rid.
              let fewer =
                count_rows-update_where (Transcription.is_open_for rid) is_unfinished
                  (λ a. record a {
                    finished_at = some now;
                    status = "failed";
                    retryable = true;
                    error_code = some "abandoned";
                    error_message = some abandoned_message;
                  })
                  db.transcription_attempts (λ r e. ground arith) in
              omega (arith, h.transcribing rid);
          delivering = h.delivering;
        })
        (λ u. Keeps-pure affected)

  close_delivery-Stays : Acts attempts_of StaysExclusive (close_delivery now)
  unfolding close_delivery
  close_delivery-Stays = Acts-bind-left _ _ (Keeps-gets _) λ affected.
      Acts-bind-right _ _
        (Acts-modify _ λ db h. record {
          transcribing = h.transcribing;
          delivering = λ did.
              let fewer =
                count_rows-update_where (Deliveries.is_open_for did) is_unfinished_delivery
                  (λ a. record a {
                    finished_at = some now;
                    status = "failed";
                    retryable = true;
                    error_message = some abandoned_message;
                  })
                  db.delivery_attempts (λ r e. ground arith) in
              omega (arith, h.delivering did);
        })
        (λ u. Keeps-pure affected)

  reclaim-Stays : Acts attempts_of StaysExclusive (reclaim now)
  unfolding reclaim surface_transcription revert_stranded surface_delivery
  reclaim-Stays = Acts-bind-left _ _ (search Keeps-modify) λ u.
      Acts-bind_trans (λ x y z f g h. g (f h)) _ _ close_transcription-Stays
        λ n. Acts-bind-left _ _ (search (keeps_rules, Keeps-modify)) λ m.
          Acts-bind-left _ _ (search Keeps-modify)
            λ v. Acts-bind-right _ _ close_delivery-Stays λ k. search keeps_rules

  recover-Exclusive : (db : Db) → Exclusive db → Exclusive (recover_abandoned_attempts now db).1
  unfolding recover_abandoned_attempts
  recover-Exclusive db h = stays (reclaim now) reclaim-Stays db h

module _ {text_before : Time → Time → Bool} {sink_details : String → String} where
  Step-Exclusive :
      {db db' : Db} → Step text_before sink_details db db' → Exclusive db → Exclusive db'
  Step-Exclusive {db} (Step.create lost new) h = create_recording-Exclusive lost new db h
  Step-Exclusive {db} (Step.backlog id at) h = mark_backlogged-Exclusive id at db h
  Step-Exclusive {db} (Step.store new) h = store_transcript-Exclusive new db h
  Step-Exclusive {db} (Step.claim now) h = claim-Exclusive text_before now db h
  Step-Exclusive {db} (Step.start id rid now) h =
      start_transcription_attempt-Exclusive text_before id rid now db h
  Step-Exclusive {db} (Step.succeed id at t) h = succeed_transcription-Exclusive id at t db h
  Step-Exclusive {db} (Step.retry id rid at code m) h =
      retry_transcription-Exclusive id rid at code m db h
  Step-Exclusive {db} (Step.fail id rid at code m) h =
      fail_transcription-Exclusive id rid at code m db h
  Step-Exclusive {db} (Step.select new) h = select_sink-Exclusive new db h
  Step-Exclusive {db} (Step.route new) h = route_to_sink-Exclusive new db h
  Step-Exclusive {db} (Step.complete id s at e) h = complete_delivery-Exclusive id s at e db h
  Step-Exclusive {db} (Step.start_delivery id did now) h =
      start_delivery_attempt-Exclusive id did now db h
  Step-Exclusive {db} (Step.succeed_deliver id did at http) h =
      succeed_delivery-Exclusive id did at http db h
  Step-Exclusive {db} (Step.retry_deliver id did at http m) h =
      retry_delivery-Exclusive id did at http m db h
  Step-Exclusive {db} (Step.fail_deliver id did at http m) h =
      fail_delivery-Exclusive id did at http m db h
  Step-Exclusive {db} (Step.route_manually input) h = manual_route-Exclusive sink_details input db h
  Step-Exclusive {db} (Step.retry_manually input) h =
      manual_retry_transcription-Exclusive input db h
  Step-Exclusive {db} (Step.redeliver_manually input) h = manual_retry_delivery-Exclusive input db h
  Step-Exclusive {db} (Step.restart now) h = recover-Exclusive now db h

  history-Exclusive :
      {db db' : Db} → History text_before sink_details db db' → Exclusive db → Exclusive db'
  history-Exclusive History.start_of h = h
  history-Exclusive (History.then_step hist st) h = Step-Exclusive st (history-Exclusive hist h)

empty_db-Exclusive : Exclusive empty_db
unfolding count_rows
empty_db-Exclusive = record { transcribing = λ i. ground arith; delivering = λ i. ground arith }

-- From the empty database, after any interleaving of the operations of the workers, the uploads and
-- the Operator, and of restarts: no Recording has two Transcription Attempts in flight, and no
-- Delivery has two Delivery Attempts in flight.
pub reachable-IsExclusive :
    {text_before : Time → Time → Bool} {sink_details : String → String} {db : Db}
    → History text_before sink_details empty_db db
    → IsExclusive (attempts_of db)
reachable-IsExclusive hist = history-Exclusive hist empty_db-Exclusive
