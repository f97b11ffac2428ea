-- ===== src/Storage/ReadModels.antt =====
-- The read models of src/storage/sqlite.rs for the pages of the monitor, and their types in
-- src/storage/mod.rs.
use telegraph_center.Base.{
  String, Bool, ◌||◌, true, false, Option, none, some, List, [], ◌∷◌, ◌==◌, take, if◌then◌else◌,
}
use telegraph_center.Base.Int.{ℤ, pos, negsuc}
use telegraph_center.Base.Table.{select, sort_by}
use telegraph_center.Retry.{Time}
use telegraph_center.Domain.Status
use telegraph_center.Domain.Status.{
  RecordingStatus, transcribing, routing, delivering, delivered, backlogged, transcription_failed,
  delivery_failed,
}
use telegraph_center.Domain.Entities.{
  Tags, Recording, Transcript, Delivery, TranscriptionAttempt, DeliveryAttempt, AuditEvent,
}
use telegraph_center.Storage.Rows.{Db, RecordingRow, Result, ok, err, parse_status}
use telegraph_center.Storage.Recordings.{get_recording, get_transcript, get_delivery_for_recording}
use telegraph_center.Storage.Transcription as Transcription
use telegraph_center.Storage.Deliveries as Deliveries
use telegraph_center.Storage.Operators.{list_audit_events_for_recording}

pub data MonitorStatusFilter : Type 0 where
  all only_backlogged failed in_flight only_delivered : MonitorStatusFilter

-- The statuses that a filter selects, or `none` for no restriction.
unfoldable pub statuses : MonitorStatusFilter → Option (List RecordingStatus)
statuses all = none
statuses only_backlogged = some (backlogged ∷ [])
statuses failed = some (transcription_failed ∷ delivery_failed ∷ [])
statuses in_flight = some (transcribing ∷ routing ∷ delivering ∷ [])
statuses only_delivered = some (delivered ∷ [])

pub record RecordingSummary : Type 0 where
  pub id : String
  pub client_id : String
  pub client_recording_id : String
  pub status : RecordingStatus
  pub tags : Tags
  pub selected_sink_name : Option String
  pub latest_error : Option String
  pub received_at : Time

pub record RecordingDetail : Type 0 where
  pub recording : Recording
  pub transcript : Option Transcript
  pub delivery : Option Delivery
  pub transcription_attempts : List TranscriptionAttempt
  pub delivery_attempts : List DeliveryAttempt
  pub audit_events : List AuditEvent

abbrev pub summary_of : RecordingRow → RecordingStatus → RecordingSummary
summary_of row status = record {
  id = row.id;
  client_id = row.client_id;
  client_recording_id = row.client_recording_id;
  status = status;
  tags = row.tags;
  selected_sink_name = row.selected_sink_name;
  latest_error = row.latest_error;
  received_at = row.received_at;
}

-- `RecordingSummaryRow::into_domain`
unfoldable pub summary_into_domain : RecordingRow → Result RecordingSummary
summary_into_domain row = elim (parse_status row.status) [
  | ok status ↦ ok (summary_of row status)
  | err e ↦ err e
]

-- `collect`: the first error, or all values.
unfoldable pub summaries_of : List RecordingRow → Result (List RecordingSummary)
unfolding summary_into_domain
summaries_of [] = ok []
summaries_of (row ∷ rows) = elim (summary_into_domain row) [
  | err e ↦ err e
  | ok summary ↦ elim (summaries_of rows) [
    | err e ↦ err e
    | ok summaries ↦ ok (summary ∷ summaries)
  ]
]

-- `status IN (...)`, on the stored texts
unfoldable pub is_among : List RecordingStatus → String → Bool
is_among [] text = false
is_among (status ∷ rest) text = text == Status.as_str status || is_among rest text

unfoldable pub fits_filter : Option (List RecordingStatus) → RecordingRow → Bool
unfolding is_among
fits_filter none row = true
fits_filter (some statuses) row = is_among statuses row.status

-- LIMIT ?, which is none where the number is negative
unfoldable pub limited : {A : Type 0} → ℤ → List A → List A
limited (pos n) rows = take n rows
limited (negsuc n) rows = rows

module _ (text_before : Time → Time → Bool) where
  -- ORDER BY received_at DESC, created_at DESC
  unfoldable pub is_newer : RecordingRow → RecordingRow → Bool
  is_newer a b =
      if text_before b.received_at a.received_at
      then true
      else if text_before a.received_at b.received_at
      then false
      else text_before b.created_at a.created_at

  unfoldable pub list_recording_summaries :
      MonitorStatusFilter → ℤ → Db → Result (List RecordingSummary)
  unfolding statuses fits_filter is_newer summaries_of limited
  list_recording_summaries filter limit db =
      summaries_of
        (limited limit (sort_by is_newer (select (fits_filter (statuses filter)) db.recordings)))

  abbrev pub delivery_attempts_of : Option Delivery → Db → List DeliveryAttempt
  delivery_attempts_of none db = []
  delivery_attempts_of (some delivery) db = Deliveries.list_delivery_attempts delivery.id db

  -- the detail of a Recording that is there, with its Delivery, if it has one
  abbrev pub detail_of :
      String
      → Db
      → Recording
      → Result (Option Transcript)
      → Result (Option Delivery)
      → Result (Option RecordingDetail)
  detail_of id db recording (err e) found = err e
  detail_of id db recording (ok transcript) (err e) = err e
  detail_of id db recording (ok transcript) (ok delivery) = ok (
      some (record {
        recording = recording;
        transcript = transcript;
        delivery = delivery;
        transcription_attempts = Transcription.list_transcription_attempts id db;
        delivery_attempts = delivery_attempts_of delivery db;
        audit_events = list_audit_events_for_recording text_before id db;
      }))

  unfoldable pub get_recording_detail : String → Db → Result (Option RecordingDetail)
  get_recording_detail recording_id db = elim (get_recording recording_id db) [
    | err e ↦ err e
    | ok none ↦ ok none
    | ok (some recording) ↦
        detail_of recording_id db recording (get_transcript recording_id db)
          (get_delivery_for_recording recording_id db)
  ]
