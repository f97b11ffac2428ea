-- ===== src/Http/Upload/Acts.antt =====
-- The computations of the upload handler: what one that returns has passed through, and what one
-- leaves as it was.
use telegraph_center.Base.{
  ℕ, String, ◌≡◌, refl, ◌∙◌, Bool, true, false, Option, List, [], ◌∷◌, ◌==◌, length,
}
use telegraph_center.Base.Fallible.{Fallible, ok, err}
use telegraph_center.Blob.Files.{FileSystem, IsLawful}
use telegraph_center.Http.{ApiError}
use telegraph_center.Http.Upload.{Field, charge, discard_field, read_text_field}
use telegraph_center.Http.Upload.Fields.{
  Seen, World, Act, ◌>>=◌, attempt, on_files, write_chunks, stream_to_file, read_audio, read_field,
  read_fields, Kind, audio, tags, recorded_at, unknown, kind_of,
}

module _ {S A B : Type 0} (m : Act S A) (f : A → Act S B) (w : World S) where
  -- A sequence that returns is a first part that returned, and the rest from there.
  pub bind_ok :
      (b : B)
      → ((m >>= f) w).0 ≡ ok b
      → (a : A) × ((m w).0 ≡ ok a) × ((f a (m w).1).0 ≡ ok b) × ((m >>= f) w ≡ f a (m w).1)
  unfolding ◌>>=◌
  bind_ok b e = go (m w).0 (m w).1 e
    where
      go :
          (r : Fallible ApiError A) (w' : World S)
          → (let s : Fallible ApiError B × World S = elim r [
            | ok a ↦ f a w'
            | err c ↦ (err c, w')
          ] in
              s.0)
            ≡ ok b
          → (a : A) × (r ≡ ok a)
            × ((f a w').0 ≡ ok b)
            × ((let s : Fallible ApiError B × World S = elim r [
              | ok x ↦ f x w'
              | err c ↦ (err c, w')
            ] in
                  s)
                ≡ f a w')
      go (ok a) w' h = (a, refl, h, refl)
      go (err c) w' h = cc

-- What holds of an error at once, and of the rest where there is a value, holds of the sequence.
pub attempt_then :
    {S A B : Type 0} (P : Fallible ApiError B × World S → Type 0) (r : Fallible ApiError A)
    (f : A → Act S B) (w : World S)
    → ((e : ApiError) → P (err e, w))
    → ((a : A) → r ≡ ok a → P (f a w))
    → P ((attempt r >>= f) w)
unfolding ◌>>=◌
attempt_then P (ok a) f w on_error on_value = on_value a refl
attempt_then P (err e) f w on_error on_value = on_error e

-- What is the same in two states: the database, and every file but one.
pub record Only (fs : FileSystem) (p : String) (w w' : World fs.State) : Type 0 where
  pub db : w'.db ≡ w.db
  pub files : (q : String) → (q == p) ≡ false → fs.contents q w'.files ≡ fs.contents q w.files

-- A computation that changes one file at most, and not the database.
pub record Touches (fs : FileSystem) (p : String) {A : Type 0} (m : Act fs.State A) : Type 0 where
  pub at : (w : World fs.State) → Only fs p w (m w).1

module _ {fs : FileSystem} {p : String} where
  pub Only-trans : {u v w : World fs.State} → Only fs p u v → Only fs p v w → Only fs p u w
  Only-trans a b = record { db = b.db ∙ a.db; files = λ q h. b.files q h ∙ a.files q h }

  pub Touches-bind :
      {A B : Type 0} (m : Act fs.State A) (f : A → Act fs.State B)
      → Touches fs p m
      → ((a : A) → Touches fs p (f a))
      → Touches fs p (m >>= f)
  unfolding ◌>>=◌
  Touches-bind {A} {B} m f tm tf = record { at = λ w. go w (m w).0 (m w).1 (tm.at w) }
    where
      go :
          (w : World fs.State) (r : Fallible ApiError A) (w' : World fs.State)
          → Only fs p w w'
          → Only fs p w (
              let s : Fallible ApiError B × World fs.State = elim r [
                | ok a ↦ f a w'
                | err c ↦ (err c, w')
              ] in
              s.1)
      go w (ok a) w' h = Only-trans h ((tf a).at w')
      go w (err c) w' h = h

  pub Touches-attempt : {A : Type 0} (r : Fallible ApiError A) → Touches fs p (attempt r)
  Touches-attempt r = record { at = λ w. record { db = refl; files = λ q h. refl } }

  Touches-files :
      {A : Type 0} (call : fs.State → Fallible String A × fs.State)
      → ((q : String) (s : fs.State)
          → (q == p) ≡ false
          → fs.contents q (call s).1 ≡ fs.contents q s)
      → Touches fs p (on_files call)
  unfolding on_files
  Touches-files call same = record {
    at = λ w. record { db = refl; files = λ q h. same q w.files h };
  }

module _ (fs : FileSystem) (lawful : IsLawful fs) (p : String) where
  Touches-create : Touches fs p (on_files (fs.create p))
  Touches-create = Touches-files _ (λ q s h. lawful.create_other p q s h)

  Touches-write : (bytes : List ℕ) → Touches fs p (on_files (fs.write_all p bytes))
  Touches-write bytes = Touches-files _ (λ q s h. lawful.write_other p q bytes s h)

  Touches-flush : Touches fs p (on_files (fs.flush p))
  Touches-flush = Touches-files _ (λ q s h. lawful.flush_same p q s)

  Touches-write_chunks :
      (chunks : List (List ℕ)) (intact : Bool) (remaining : ℕ)
      → Touches fs p (write_chunks fs p chunks intact remaining)
  unfolding write_chunks
  Touches-write_chunks [] true remaining =
      Touches-bind _ _ Touches-flush (λ u. Touches-attempt (ok remaining))
  Touches-write_chunks [] false remaining = Touches-attempt _
  Touches-write_chunks (chunk ∷ chunks) intact remaining =
      Touches-bind _ _ (Touches-attempt (charge remaining (length chunk)))
        λ left. Touches-bind _ _ (Touches-write chunk) λ u. Touches-write_chunks chunks intact left

  Touches-stream :
      (field : Field) (remaining : ℕ) → Touches fs p (stream_to_file fs field p remaining)
  unfolding stream_to_file
  Touches-stream field remaining =
      Touches-bind _ _ Touches-create λ u. Touches-write_chunks field.chunks field.intact remaining

  module _ (from_utf8 : List ℕ → Option String) where
    Touches-read_audio :
        (field : Field) (before : Bool) (seen : Seen)
        → Touches fs p (read_audio fs from_utf8 p field before seen)
    unfolding read_audio
    Touches-read_audio field true seen = Touches-attempt _
    Touches-read_audio field false seen =
        Touches-bind _ _ (Touches-stream field seen.remaining) (λ left. Touches-attempt (ok _))

    Touches-read_field :
        (field : Field) (kind : Kind) (seen : Seen)
        → Touches fs p (read_field fs from_utf8 p field kind seen)
    unfolding read_field
    Touches-read_field field audio seen = Touches-read_audio field seen.audio_written seen
    Touches-read_field field tags seen =
        Touches-bind _ _ (Touches-attempt (read_text_field from_utf8 field seen.remaining))
          (λ r. Touches-attempt (ok _))
    Touches-read_field field recorded_at seen =
        Touches-bind _ _ (Touches-attempt (read_text_field from_utf8 field seen.remaining))
          (λ r. Touches-attempt (ok _))
    Touches-read_field field unknown seen =
        Touches-bind _ _ (Touches-attempt (discard_field field.chunks field.intact seen.remaining))
          (λ left. Touches-attempt (ok _))

    pub Touches-read_fields :
        (fields : List Field) (intact : Bool) (seen : Seen)
        → Touches fs p (read_fields fs from_utf8 p fields intact seen)
    unfolding read_fields
    Touches-read_fields [] true seen = Touches-attempt (ok seen)
    Touches-read_fields [] false seen = Touches-attempt _
    Touches-read_fields (field ∷ fields) intact seen =
        Touches-bind _ _ (Touches-read_field field (kind_of field.name) seen)
          λ seen'. Touches-read_fields fields intact seen'
