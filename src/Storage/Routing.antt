-- ===== src/Storage/Routing.antt =====
-- The routing operations of src/storage/sqlite.rs: a Sink is selected for a Recording.
use telegraph_center.Base.{String, Bool, true, false, ◌&&◌, Option, none, some, ◌==◌}
use telegraph_center.Base.Table.{exists_row, update_where}
use telegraph_center.Retry.{Time}
use telegraph_center.Domain.Status
use telegraph_center.Domain.Status.{routing, delivering}
use telegraph_center.Domain.Entities.{Recording, Delivery}
use telegraph_center.Storage.Rows.{Db, RecordingRow, Result, ok, err}
use telegraph_center.Storage.Tx.{
  Tx, Op, pure, gets, modify, ◌>>=◌, ◌>>◌, transaction, reading, ◌then_read◌,
}
use telegraph_center.Storage.Statements.{
  NewDelivery, insert_delivery, guarded_transition, set_status,
}
use telegraph_center.Storage.Recordings.{require_recording, require_delivery}
use telegraph_center.Storage.Transcription.{oldest_with_status}

unfoldable pub select_sink : NewDelivery → Op Delivery
select_sink new =
    transaction
      (do insert_delivery new; guarded_transition new.recording_id delivering new.selected_at)
    then_read λ _. reading (require_delivery new.id)

pub data RoutingOutcome : Type 0 where
  selected : Delivery → RoutingOutcome
  already_handled : RoutingOutcome

-- WHERE id = ? AND status = 'routing'
abbrev pub is_routing : String → RecordingRow → Bool
is_routing recording_id r = r.id == recording_id && r.status == Status.as_str routing

-- The UPDATE that claims the Recording, with whether it found a row.
unfoldable pub claim_routing : String → Time → Tx Bool
claim_routing recording_id at = do
  found ← gets (λ db. exists_row (is_routing recording_id) db.recordings)
  modify (λ db. record db {
    recordings = update_where (is_routing recording_id) (set_status delivering at) db.recordings;
  })
  pure found

-- Where no row was claimed the transaction is dropped, which undoes an UPDATE of no row.
unfoldable pub route_claimed : NewDelivery → Bool → Tx Bool
route_claimed new false = pure false
route_claimed new true = do insert_delivery new; pure true

-- the result after the commit
unfoldable pub routed : String → Bool → Db → Result RoutingOutcome
routed id false db = ok already_handled
routed id true db = elim (require_delivery id db) [ ok d ↦ ok (selected d) | err e ↦ err e ]

unfoldable pub route_to_sink : NewDelivery → Op RoutingOutcome
route_to_sink new =
    transaction
      (do claimed ← claim_routing new.recording_id new.selected_at; route_claimed new claimed)
    then_read λ claimed. reading (routed new.id claimed)

-- The oldest Recording that awaits Routing; nothing is changed.
unfoldable pub claim_routing_candidate : (Time → Time → Bool) → Op (Option Recording)
claim_routing_candidate text_before = reading λ db.
    elim (oldest_with_status text_before (Status.as_str routing) db) [
      | none ↦ ok none
      | some row ↦ elim (require_recording row.id db) [ ok r ↦ ok (some r) | err e ↦ err e ]
    ]
