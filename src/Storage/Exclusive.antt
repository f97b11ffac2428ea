-- ===== src/Storage/Exclusive.antt =====
-- The attempts in flight, which are the claims on the work of src/storage/sqlite.rs.
pub mod Frames
pub mod Start
pub mod Operations
pub mod Always
use telegraph_center.Base.{
  ℕ, suc, ◌+◌, ◌≤◌, String, ◌≡◌, refl, Bool, true, false, not, Option, none, some, List, [], ◌∷◌,
  ◌++◌, arith, ◌==◌, ◌&&◌, eq_iff, if◌then◌else◌, is_some,
}
use telegraph_center.Base.Table.{exists_row, count_rows, update_where}
use telegraph_center.Retry.{Time}
use telegraph_center.Domain.Entities.{TranscriptionAttempt, DeliveryAttempt}
use telegraph_center.Storage.Rows.{Db}
use telegraph_center.Storage.Transcription
use telegraph_center.Storage.Deliveries

-- The tables of attempts.
pub record Attempts : Type 0 where
  pub transcriptions : List TranscriptionAttempt
  pub deliveries : List DeliveryAttempt

abbrev pub attempts_of : Db → Attempts
attempts_of db = record {
  transcriptions = db.transcription_attempts;
  deliveries = db.delivery_attempts;
}

pub record IsExclusive (x : Attempts) : Type 0 where
  pub transcribing :
      (rid : String) → count_rows (Transcription.is_open_for rid) x.transcriptions ≤ 1
  pub delivering : (did : String) → count_rows (Deliveries.is_open_for did) x.deliveries ≤ 1

-- Exclusive before, exclusive after.
abbrev pub StaysExclusive : Attempts → Attempts → Type 0
StaysExclusive x y = IsExclusive x → IsExclusive y

module _ {ℓ} {A : Type ℓ} where
  -- An UPDATE whose new rows fit a test only where the old ones did.
  pub count_rows-update_where :
      (p q : A → Bool) (f : A → A) (xs : List A)
      → ((r : A) → p (f r) ≡ true → p r ≡ true)
      → count_rows p (update_where q f xs) ≤ count_rows p xs
  unfolding count_rows update_where
  count_rows-update_where p q f [] less = omega arith
  count_rows-update_where p q f (x ∷ xs) less =
      ground (arith, less x, count_rows-update_where p q f xs less)

  pub count_rows-append :
      (p : A → Bool) (xs : List A) (y : A)
      → count_rows p (xs ++ y ∷ []) ≡ count_rows p xs + (if p y then 1 else 0)
  unfolding count_rows
  count_rows-append p [] y = ground arith
  count_rows-append p (x ∷ xs) y = ground (arith, count_rows-append p xs y)

  pub count_rows-exists_row :
      (p : A → Bool) (xs : List A) → exists_row p xs ≡ false → count_rows p xs ≡ 0
  unfolding count_rows exists_row
  count_rows-exists_row p [] h = refl
  count_rows-exists_row p (x ∷ xs) h = ground (arith, count_rows-exists_row p xs)
