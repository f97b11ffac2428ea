-- ===== src/Http/Upload/Bytes.antt =====
-- The temporary file of src/http/api.rs: what it holds after the loop over the fields.
use telegraph_center.Base.{
  ℕ, String, ◌≡◌, refl, sym, ◌∙◌, ap, Bool, true, false, Option, some, List, [], ◌∷◌, ◌++◌, arith,
}
use mathlib.Core.List.{append-nil, append_assoc}
use telegraph_center.Base.Fallible.{Fallible, ok, err}
use telegraph_center.Blob.Files.{FileSystem, IsLawful}
use telegraph_center.Http.Upload.{Field}
use telegraph_center.Http.Upload.Fields.{
  Seen, nothing_seen, World, on_files, from_io, write_chunks, stream_to_file, read_audio,
  read_field, read_fields, Kind, audio, tags, recorded_at, unknown, kind_of,
}
use telegraph_center.Http.Upload.Acts.{bind_ok}

unfoldable pub joined : List (List ℕ) → List ℕ
joined [] = []
joined (chunk ∷ chunks) = chunk ++ joined chunks

-- The bytes of a field that is the audio, and of no other.
unfoldable pub audio_bytes : Kind → List (List ℕ) → List ℕ
unfolding joined
audio_bytes audio chunks = joined chunks
audio_bytes tags chunks = []
audio_bytes recorded_at chunks = []
audio_bytes unknown chunks = []

unfoldable pub audio_of : List Field → List ℕ
unfolding audio_bytes kind_of
audio_of [] = []
audio_of (field ∷ fields) = audio_bytes (kind_of field.name) field.chunks ++ audio_of fields

pub from_io_ok : (r : Fallible String (Unit {0})) (u : Unit {0}) → from_io r ≡ ok u → r ≡ ok tt
from_io_ok (ok u) v h = refl
from_io_ok (err e) v h = cc

module _ (fs : FileSystem) (lawful : IsLawful fs) (p : String) where
  -- What the temporary file holds, if the audio was written, and nothing before.
  pub record Holds (seen : Seen) (bytes : List ℕ) (w : World fs.State) : Type 0 where
    pub written : seen.audio_written ≡ true → fs.contents p w.files ≡ some bytes
    pub before : seen.audio_written ≡ false → bytes ≡ []

  Holds-moved :
      (seen : Seen) (bytes bytes' : List ℕ) (w w' : World fs.State)
      → bytes ≡ bytes'
      → w'.files ≡ w.files
      → Holds seen bytes w
      → Holds seen bytes' w'
  Holds-moved seen bytes bytes' w w' e same h = record {
    written = λ x. ap (fs.contents p) same ∙ h.written x ∙ ap some e;
    before = λ x. sym e ∙ h.before x;
  }

  Holds-kept :
      (seen seen' : Seen) (bytes : List ℕ) (w w' : World fs.State)
      → seen'.audio_written ≡ seen.audio_written
      → w'.files ≡ w.files
      → Holds seen bytes w
      → Holds seen' (bytes ++ []) w'
  Holds-kept seen seen' bytes w w' flag same h =
      Holds-moved seen' bytes (bytes ++ []) w w' (sym (append-nil bytes)) same
        (record { written = λ x. h.written (sym flag ∙ x); before = λ x. h.before (sym flag ∙ x) })

  write_chunks-joined :
      (chunks : List (List ℕ)) (intact : Bool) (remaining left : ℕ) (old : List ℕ)
      (w : World fs.State)
      → (write_chunks fs p chunks intact remaining w).0 ≡ ok left
      → fs.contents p w.files ≡ some old
      → fs.contents p (write_chunks fs p chunks intact remaining w).1.files
        ≡ some (old ++ joined chunks)
  unfolding write_chunks joined on_files
  write_chunks-joined [] true remaining left old w e h =
      let (u, flushed, rest, same) = bind_ok _ _ w left e in
      ap (λ r. fs.contents p r.1.files) same
      ∙ lawful.flush_same p p w.files
      ∙ h
      ∙ ap some (sym (append-nil old))
  write_chunks-joined [] false remaining left old w e h = cc
  write_chunks-joined (chunk ∷ chunks) intact remaining left old w e h =
      let (l, charged, rest, same) = bind_ok _ _ w left e in
      let (u, wrote, rest2, same2) = bind_ok _ _ w left rest in
      let held = lawful.write_ok p chunk old w.files (from_io_ok _ u wrote) h in
      ap (λ r. fs.contents p r.1.files) (same ∙ same2)
      ∙ write_chunks-joined chunks intact l left (old ++ chunk) _ rest2 held
      ∙ ap some (append_assoc old chunk (joined chunks))

  stream_to_file-joined :
      (field : Field) (remaining left : ℕ) (w : World fs.State)
      → (stream_to_file fs field p remaining w).0 ≡ ok left
      → fs.contents p (stream_to_file fs field p remaining w).1.files ≡ some (joined field.chunks)
  unfolding stream_to_file on_files
  stream_to_file-joined field remaining left w e =
      let (u, created, rest, same) = bind_ok _ _ w left e in
      let fresh = lawful.create_ok p w.files (from_io_ok _ u created) in
      ap (λ r. fs.contents p r.1.files) same
      ∙ write_chunks-joined field.chunks field.intact remaining left [] _ rest fresh

  module _ (from_utf8 : List ℕ → Option String) where
    Holds-read_audio :
        (field : Field) (flag : Bool) (seen seen' : Seen) (bytes : List ℕ) (w : World fs.State)
        → seen.audio_written ≡ flag
        → (read_audio fs from_utf8 p field flag seen w).0 ≡ ok seen'
        → Holds seen bytes w
        → Holds seen' (bytes ++ joined field.chunks) (read_audio fs from_utf8 p field flag seen w).1
    unfolding read_audio
    Holds-read_audio field true seen seen' bytes w f e h = cc
    Holds-read_audio field false seen seen' bytes w f e h =
        let (l, streamed, rest, same) = bind_ok _ _ w seen' e in
        let now = stream_to_file-joined field seen.remaining l w streamed in
        record {
          written = λ x.
              ap (λ r. fs.contents p r.1.files) same
              ∙ now
              ∙ ap (λ b. some (b ++ joined field.chunks)) (sym (h.before f));
          before = λ x. ground (arith, rest);
        }

    Holds-read_field :
        (field : Field) (kind : Kind) (seen seen' : Seen) (bytes : List ℕ) (w : World fs.State)
        → (read_field fs from_utf8 p field kind seen w).0 ≡ ok seen'
        → Holds seen bytes w
        → Holds seen'
            (bytes ++ audio_bytes kind field.chunks)
            (read_field fs from_utf8 p field kind seen w).1
    unfolding read_field audio_bytes
    Holds-read_field field audio seen seen' bytes w e h =
        Holds-read_audio field seen.audio_written seen seen' bytes w refl e h
    Holds-read_field field tags seen seen' bytes w e h =
        let ((text, l), got, rest, same) = bind_ok _ _ w seen' e in
        Holds-kept seen seen' bytes w _ (ground (arith, rest)) (ap (λ r. r.1.files) same) h
    Holds-read_field field recorded_at seen seen' bytes w e h =
        let ((text, l), got, rest, same) = bind_ok _ _ w seen' e in
        Holds-kept seen seen' bytes w _ (ground (arith, rest)) (ap (λ r. r.1.files) same) h
    Holds-read_field field unknown seen seen' bytes w e h =
        let (l, got, rest, same) = bind_ok _ _ w seen' e in
        Holds-kept seen seen' bytes w _ (ground (arith, rest)) (ap (λ r. r.1.files) same) h

    Holds-read_fields :
        (fields : List Field) (intact : Bool) (seen seen' : Seen) (bytes : List ℕ)
        (w : World fs.State)
        → (read_fields fs from_utf8 p fields intact seen w).0 ≡ ok seen'
        → Holds seen bytes w
        → Holds seen' (bytes ++ audio_of fields) (read_fields fs from_utf8 p fields intact seen w).1
    unfolding read_fields audio_of
    Holds-read_fields [] true seen seen' bytes w e h =
        Holds-kept seen seen' bytes w _ (ground (arith, e)) refl h
    Holds-read_fields [] false seen seen' bytes w e h = cc
    Holds-read_fields (field ∷ fields) intact seen seen' bytes w e h =
        let (s, read, rest, same) = bind_ok _ _ w seen' e in
        let here = audio_bytes (kind_of field.name) field.chunks in
        let one = Holds-read_field field (kind_of field.name) seen s bytes w read h in
        let all = Holds-read_fields fields intact s seen' (bytes ++ here) _ rest one in
        Holds-moved seen' _ _ _ _ (append_assoc bytes here (audio_of fields))
          (ap (λ r. r.1.files) same) all

    -- After a loop that ended well and has seen an audio field, the temporary file holds the bytes
    -- of that field.
    pub read_fields-audio :
        (fields : List Field) (intact : Bool) (budget : ℕ) (seen : Seen) (w : World fs.State)
        → (read_fields fs from_utf8 p fields intact (nothing_seen budget) w).0 ≡ ok seen
        → seen.audio_written ≡ true
        → fs.contents p (read_fields fs from_utf8 p fields intact (nothing_seen budget) w).1.files
          ≡ some (audio_of fields)
    read_fields-audio fields intact budget seen w e =
        (Holds-read_fields fields intact (nothing_seen budget) seen [] w e
          (record { written = λ x. cc; before = λ x. refl })).written
