-- ===== src/Storage/View.antt =====
-- What a client sees of a Recording in the database: its status, if the stored text is one.
use telegraph_center.Base.{
  String, ◌≡◌, refl, Bool, true, false, Option, none, some, arith, ◌==◌, eq_iff, map_option, ap,
  if◌then◌else◌, ◌∷◌, [], ◌++◌, List,
}
use telegraph_center.Base.Table.{select_one, update_where, exists_row}
use telegraph_center.Base.Table.Laws.{
  select_one-update_where, select_one-append, select_one_fits, select_one-exists_row, updated,
}
use telegraph_center.Domain.Status
use telegraph_center.Domain.Status.{RecordingStatus, Parsed}
use telegraph_center.Domain.Status.Lifecycle.{parse-as_str}
use telegraph_center.Storage.Rows.{Db, RecordingRow}

abbrev pub parsed_status : Parsed RecordingStatus → Option RecordingStatus
parsed_status (Parsed.ok s) = some s
parsed_status (Parsed.unknown v) = none

abbrev pub row_status : Option RecordingRow → Option RecordingStatus
row_status none = none
row_status (some r) = parsed_status (Status.parse r.status)

unfoldable pub status_in : String → List RecordingRow → Option RecordingStatus
status_in id rows = row_status (select_one (λ r. r.id == id) rows)

abbrev pub status_of : String → Db → Option RecordingStatus
status_of id db = status_in id db.recordings

-- An UPDATE that leaves the ids and the statuses alone changes no status.
pub status_in-update_where :
    (i : String) (p : RecordingRow → Bool) (f : RecordingRow → RecordingRow)
    (rows : List RecordingRow)
    → ((r : RecordingRow) → (f r).id ≡ r.id)
    → ((r : RecordingRow) → (f r).status ≡ r.status)
    → status_in i (update_where p f rows) ≡ status_in i rows
unfolding status_in
status_in-update_where i p f rows ids same =
    rw (select_one-update_where (λ r. r.id) p f ids i rows) (go (select_one (λ r. r.id == i) rows))
  where
    go : (o : Option RecordingRow) → row_status (map_option (updated p f) o) ≡ row_status o
    go none = refl
    go (some r) = ground (arith, same r)

-- An UPDATE of the row of one id to a status changes that status alone, where there is such a row.
pub status_in-set :
    (i id : String) (s : RecordingStatus) (f : RecordingRow → RecordingRow)
    (rows : List RecordingRow)
    → ((r : RecordingRow) → (f r).id ≡ r.id)
    → ((r : RecordingRow) → (f r).status ≡ Status.as_str s)
    → status_in i (update_where (λ r. r.id == id) f rows) ≡ (
        if id == i
        then map_option (λ _. s) (select_one (λ r. r.id == i) rows)
        else status_in i rows)
unfolding status_in
status_in-set i id s f rows ids sets =
    rw (select_one-update_where (λ r. r.id) (λ r. r.id == id) f ids i rows)
      (go (select_one (λ r. r.id == i) rows) (λ r e. select_one_fits (λ r. r.id == i) rows r e))
  where
    go :
        (o : Option RecordingRow)
        → ((r : RecordingRow) → o ≡ some r → (r.id == i) ≡ true)
        → row_status (map_option (updated (λ r. r.id == id) f) o)
          ≡ (if id == i then map_option (λ _. s) o else row_status o)
    go none fits = ground arith
    go (some r) fits =
        ground
          (arith, fits r refl, sets r, parse-as_str s, eq_iff r.id i, eq_iff id i, eq_iff r.id id)

pub status_in-append :
    (i : String) (rows : List RecordingRow) (r : RecordingRow)
    → exists_row (λ x. x.id == r.id) rows ≡ false
    → status_in i (rows ++ r ∷ [])
      ≡ (if r.id == i then parsed_status (Status.parse r.status) else status_in i rows)
unfolding status_in
status_in-append i rows r fresh = ground (
  arith,
  select_one-append (λ x. x.id == i) rows r,
  select_one-exists_row (λ x. x.id == r.id) rows,
  eq_iff r.id i,
)

abbrev pub seen : RecordingRow → Option RecordingStatus
seen r = parsed_status (Status.parse r.status)

-- An UPDATE that relates the status of each row that it changes relates the status of each id.
pub status_in-update_related :
    (R : Option RecordingStatus → Option RecordingStatus → Type 0) (i : String)
    (p : RecordingRow → Bool) (f : RecordingRow → RecordingRow) (rows : List RecordingRow)
    → ((s : Option RecordingStatus) → R s s)
    → ((r : RecordingRow) → (f r).id ≡ r.id)
    → ((r : RecordingRow) → p r ≡ true → R (seen r) (seen (f r)))
    → R (status_in i rows) (status_in i (update_where p f rows))
unfolding status_in
status_in-update_related R i p f rows R-refl ids step =
    rw (select_one-update_where (λ r. r.id) p f ids i rows) (go (select_one (λ r. r.id == i) rows))
  where
    at_row : (r : RecordingRow) (b : Bool) → p r ≡ b → R (seen r) (seen (if b then f r else r))
    at_row r true e = step r e
    at_row r false e = R-refl (seen r)

    go : (o : Option RecordingRow) → R (row_status o) (row_status (map_option (updated p f) o))
    go none = R-refl none
    go (some r) = at_row r (p r) refl

pub status_in-fresh :
    (i : String) (rows : List RecordingRow)
    → exists_row (λ r. r.id == i) rows ≡ false
    → status_in i rows ≡ none
unfolding status_in
status_in-fresh i rows h = ap row_status (select_one-exists_row (λ r. r.id == i) rows h)
