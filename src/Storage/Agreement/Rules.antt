-- ===== src/Storage/Agreement/Rules.antt =====
-- The agreement through one transaction of each kind: one that touches no Delivery, one that sets
-- the state of a Delivery and of its Recording, and one that inserts a Delivery.
use telegraph_center.Base.{
  String, ◌≡◌, refl, Bool, true, false, Option, some, List, [], ◌∷◌, ◌++◌, arith, ◌==◌, eq_iff,
  if◌then◌else◌, ap, ◌∙◌, sym,
}
use telegraph_center.Base.Table.{exists_row, update_where}
use telegraph_center.Base.Table.Laws.{
  Distinct, Distinct-append, Distinct-update_where, Distinct-map,
}
use telegraph_center.Retry.{Time}
use telegraph_center.Domain.Status
use telegraph_center.Domain.Status.{RecordingStatus, can_transition_to}
use telegraph_center.Domain.DeliveryStatus
use telegraph_center.Domain.DeliveryStatus.{DeliveryStatus}
use telegraph_center.Storage.Rows.{Db, DeliveryRow, Result, ok, err}
use telegraph_center.Storage.Tx.{Tx, transaction}
use telegraph_center.Storage.Statements.{guarded_transition, find_delivery}
use telegraph_center.Storage.DeliveryFrames.{deliveries_of}
use telegraph_center.Storage.IdFrames.{ids_of}
use telegraph_center.Storage.View.{status_of}
use telegraph_center.Storage.Acts.{Acts, Keeps, Acts-sym, transaction-Acts}
use telegraph_center.Storage.Transition.{guarded_transition_inverts, status_of-set_status}
use telegraph_center.Storage.Deliveries.{recording_status}
use telegraph_center.Storage.Agreement.{
  IsConsistent, promised, state_in, state_in-set, state_in-append,
}

-- Two statuses that promise the same Delivery.
abbrev pub SamePromise : Option RecordingStatus → Option RecordingStatus → Type 0
SamePromise s t = promised t ≡ promised s

-- The status of one id is set; the others stay.
abbrev pub Sets : Bool → RecordingStatus → Option RecordingStatus → Option RecordingStatus → Type 0
Sets b next s t = t ≡ (if b then some next else s)

pub guarded_transition-SamePromise :
    (i id : String) (next : RecordingStatus) (at : Time)
    → ((s : RecordingStatus)
        → can_transition_to s next ≡ true
        → promised (some next) ≡ promised (some s))
    → Acts (status_of i) SamePromise (guarded_transition id next at)
guarded_transition-SamePromise i id next at quiet = record {
  at = λ db u db' e.
      let (s, before, allowed, after) = guarded_transition_inverts id next at db db' u e in
      rw (after, status_of-set_status i id s next at db before)
        (ground (arith, eq_iff id i, quiet s));
}

pub guarded_transition-Sets :
    (i id : String) (next : RecordingStatus) (at : Time)
    → Acts (status_of i) (Sets (id == i) next) (guarded_transition id next at)
guarded_transition-Sets i id next at = record {
  at = λ db u db' e.
      let (s, before, allowed, after) = guarded_transition_inverts id next at db db' u e in
      rw (after, status_of-set_status i id s next at db before);
}

-- Deliveries that show the same states, and stay distinct.
pub record SameStates (x y : List DeliveryRow) : Type 0 where
  pub states : (i : String) → state_in i y ≡ state_in i x
  pub ids : Distinct (λ d. d.id) x → Distinct (λ d. d.id) y
  pub recording_ids : Distinct (λ d. d.recording_id) x → Distinct (λ d. d.recording_id) y

pub SameStates-refl : (x : List DeliveryRow) → SameStates x x
SameStates-refl x = record { states = λ i. refl; ids = λ h. h; recording_ids = λ h. h }

-- A committed or rolled back transaction that leaves every state and every promise.
pub quiet-IsConsistent {ℓ} :
    {A : Type ℓ} (m : Tx A)
    → ((i : String) → Acts (status_of i) SamePromise m)
    → Keeps ids_of m
    → Acts deliveries_of SameStates m
    → (db : Db) → IsConsistent db
    → IsConsistent (transaction m db).1
quiet-IsConsistent m promises kept quiet db h =
    let same = transaction-Acts m SameStates-refl quiet db in
    let ids = transaction-Acts {R = λ x y. x ≡ y} m (λ x. refl) (Acts-sym m kept) db in
    record {
      agrees =
          λ i. same.states i ∙ h.agrees i ∙ sym (transaction-Acts m (λ x. refl) (promises i) db);
      recordings = Distinct-map (λ r. r.id) db.recordings _ ids h.recordings;
      ids = same.ids h.ids;
      recording_ids = same.recording_ids h.recording_ids;
    }

-- After a Delivery is set to a state, and its Recording to the status of that state.
pub set-IsConsistent :
    (db db' : Db) (k : String) (d : DeliveryRow) (s : DeliveryStatus)
    (f : DeliveryRow → DeliveryRow)
    → ((r : DeliveryRow) → (f r).id ≡ r.id)
    → ((r : DeliveryRow) → (f r).recording_id ≡ r.recording_id)
    → ((r : DeliveryRow) → (f r).status ≡ DeliveryStatus.as_str s)
    → find_delivery k db ≡ some d
    → db'.deliveries ≡ update_where (λ r. r.id == k) f db.deliveries
    → ((i : String)
        → Sets (d.recording_id == i) (recording_status s) (status_of i db) (status_of i db'))
    → ids_of db ≡ ids_of db'
    → IsConsistent db
    → IsConsistent db'
set-IsConsistent db db' k d s f ids rids sets found rows statuses same h = record {
  agrees = λ i.
      let e = state_in-set i k s f db.deliveries d rids sets h.ids h.recording_ids found in
      ap (state_in i) rows ∙ e ∙ ground (arith, h.agrees i, statuses i);
  recordings = Distinct-map (λ r. r.id) db.recordings db'.recordings same h.recordings;
  ids = rw rows (Distinct-update_where (λ r. r.id) _ f db.deliveries ids h.ids);
  recording_ids =
      rw rows (Distinct-update_where (λ r. r.recording_id) _ f db.deliveries rids h.recording_ids);
}

-- After a Delivery in the state `delivering` is inserted for a Recording that had none, and that
-- Recording is set to `delivering`.
pub insert-IsConsistent :
    (db db' : Db) (d : DeliveryRow)
    → d.status ≡ DeliveryStatus.as_str DeliveryStatus.delivering
    → exists_row (λ r. r.id == d.id) db.deliveries ≡ false
    → exists_row (λ r. r.recording_id == d.recording_id) db.deliveries ≡ false
    → db'.deliveries ≡ db.deliveries ++ d ∷ []
    → ((i : String)
        → Sets (d.recording_id == i) Status.delivering (status_of i db) (status_of i db'))
    → ids_of db ≡ ids_of db'
    → IsConsistent db
    → IsConsistent db'
insert-IsConsistent db db' d text new_id new_recording rows statuses same h = record {
  agrees = λ i.
      let e = state_in-append i db.deliveries d new_recording in
      let parsed = DeliveryStatus.parse-as_str DeliveryStatus.delivering in
      ap (state_in i) rows ∙ e ∙ ground (arith, h.agrees i, statuses i);
  recordings = Distinct-map (λ r. r.id) db.recordings db'.recordings same h.recordings;
  ids = rw rows (Distinct-append (λ r. r.id) db.deliveries d h.ids new_id);
  recording_ids =
      rw rows (Distinct-append (λ r. r.recording_id) db.deliveries d h.recording_ids new_recording);
}

pub transaction-preserves {ℓ} :
    {A : Type ℓ} (P : Db → Type 0) (m : Tx A) (db : Db)
    → P db
    → ((a : A) (db' : Db) → m db ≡ ok (a, db') → P db')
    → P (transaction m db).1
unfolding transaction
transaction-preserves {A} P m db before after = go (m db) refl
  where
    go :
        (o : Result (A × Db))
        → m db ≡ o
        → P (let s : Result A × Db = elim o [ ok (a, x) ↦ (ok a, x) | err c ↦ (err c, db) ] in s.1)
    go (ok (a, x)) e = after a x e
    go (err c) e = before
