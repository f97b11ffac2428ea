-- ===== src/Storage/Agreement.antt =====
-- What it is for the Recordings and the Deliveries of src/storage/sqlite.rs to agree.
pub mod Rules
pub mod Deliver
pub mod Insert
pub mod Route
pub mod Redeliver
pub mod Quiet
pub mod Always
use telegraph_center.Base.{
  String, ◌≡◌, refl, Bool, true, false, Option, none, some, List, [], ◌∷◌, ◌++◌, arith, ◌==◌,
  eq_iff, if◌then◌else◌, map_option,
}
use telegraph_center.Base.Table.{select_one, exists_row, update_where}
use telegraph_center.Base.Table.Laws.{
  Distinct, select_one-update_where, select_one-append, select_one_fits, select_one-exists_row,
  Distinct-select_one, exists_row-select_one, exists_row_found, Distinct-append,
  Distinct-update_where, updated,
}
use telegraph_center.Domain.Status
use telegraph_center.Domain.Status.{RecordingStatus, Parsed}
use telegraph_center.Domain.DeliveryStatus
use telegraph_center.Domain.DeliveryStatus.{DeliveryStatus}
use telegraph_center.Storage.Rows.{Db, DeliveryRow}
use telegraph_center.Storage.View.{status_of}
use telegraph_center.Storage.Deliveries.{recording_status}

abbrev pub parsed_state : Parsed DeliveryStatus → Option DeliveryStatus
parsed_state (Parsed.ok s) = some s
parsed_state (Parsed.unknown v) = none

abbrev pub row_state : Option DeliveryRow → Option DeliveryStatus
row_state none = none
row_state (some d) = parsed_state (DeliveryStatus.parse d.status)

-- The state of the Delivery of a Recording.
unfoldable pub state_in : String → List DeliveryRow → Option DeliveryStatus
state_in i rows = row_state (select_one (λ d. d.recording_id == i) rows)

abbrev pub delivery_of : String → Db → Option DeliveryStatus
delivery_of i db = state_in i db.deliveries

-- The Delivery that the status of a Recording promises.
abbrev pub promised : Option RecordingStatus → Option DeliveryStatus
promised (some Status.delivering) = some DeliveryStatus.delivering
promised (some Status.delivered) = some DeliveryStatus.delivered
promised (some Status.delivery_failed) = some DeliveryStatus.delivery_failed
promised _ = none

pub record IsConsistent (db : Db) : Type 0 where
  pub agrees : (i : String) → delivery_of i db ≡ promised (status_of i db)
  pub recordings : Distinct (λ r. r.id) db.recordings
  pub ids : Distinct (λ d. d.id) db.deliveries
  pub recording_ids : Distinct (λ d. d.recording_id) db.deliveries

-- An UPDATE that leaves the ids, the Recordings and the states alone changes no state.
pub state_in-update_where :
    (i : String) (p : DeliveryRow → Bool) (f : DeliveryRow → DeliveryRow) (rows : List DeliveryRow)
    → ((r : DeliveryRow) → (f r).recording_id ≡ r.recording_id)
    → ((r : DeliveryRow) → (f r).status ≡ r.status)
    → state_in i (update_where p f rows) ≡ state_in i rows
unfolding state_in
state_in-update_where i p f rows rids same =
    rw (select_one-update_where (λ r. r.recording_id) p f rids i rows)
      (go (select_one (λ r. r.recording_id == i) rows))
  where
    go : (o : Option DeliveryRow) → row_state (map_option (updated p f) o) ≡ row_state o
    go none = refl
    go (some r) = ground (arith, same r)

-- An UPDATE of one Delivery to a state changes the state of its Recording's Delivery alone.
pub state_in-set :
    (i k : String) (s : DeliveryStatus) (f : DeliveryRow → DeliveryRow) (rows : List DeliveryRow)
    (d : DeliveryRow)
    → ((r : DeliveryRow) → (f r).recording_id ≡ r.recording_id)
    → ((r : DeliveryRow) → (f r).status ≡ DeliveryStatus.as_str s)
    → Distinct (λ r. r.id) rows
    → Distinct (λ r. r.recording_id) rows
    → select_one (λ r. r.id == k) rows ≡ some d
    → state_in i (update_where (λ r. r.id == k) f rows)
      ≡ (if d.recording_id == i then some s else state_in i rows)
unfolding state_in
state_in-set i k s f rows d rids sets ids recs found =
    rw (select_one-update_where (λ r. r.recording_id) (λ r. r.id == k) f rids i rows)
      (go (select_one (λ r. r.recording_id == i) rows) refl)
  where
    go :
        (o : Option DeliveryRow)
        → select_one (λ r. r.recording_id == i) rows ≡ o
        → row_state (map_option (updated (λ r. r.id == k) f) o)
          ≡ (if d.recording_id == i then some s else row_state o)
    go none e = ground (
      arith,
      exists_row-select_one (λ x. x.recording_id == i) rows e,
      exists_row_found (λ x. x.id == k) (λ x. x.recording_id == i) rows d found,
    )
    go (some r) e = ground (
      arith,
      select_one_fits (λ x. x.recording_id == i) rows r e,
      select_one_fits (λ x. x.id == k) rows d found,
      Distinct-select_one (λ x. x.id) _ _ rows r d ids e found,
      Distinct-select_one (λ x. x.recording_id) _ _ rows r d recs e found,
      sets r,
      DeliveryStatus.parse-as_str s,
      eq_iff r.id k,
      eq_iff d.id k,
      eq_iff d.recording_id i,
      eq_iff r.recording_id i,
    )

-- A new Delivery is seen as the Delivery of its Recording, which had none.
pub state_in-append :
    (i : String) (rows : List DeliveryRow) (d : DeliveryRow)
    → exists_row (λ x. x.recording_id == d.recording_id) rows ≡ false
    → state_in i (rows ++ d ∷ []) ≡ (
        if d.recording_id == i
        then parsed_state (DeliveryStatus.parse d.status)
        else state_in i rows)
unfolding state_in
state_in-append i rows d fresh = ground (
  arith,
  select_one-append (λ x. x.recording_id == i) rows d,
  select_one-exists_row (λ x. x.recording_id == d.recording_id) rows,
  eq_iff d.recording_id i,
)
