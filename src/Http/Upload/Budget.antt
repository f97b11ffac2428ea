-- ===== src/Http/Upload/Budget.antt =====
-- The byte budget of src/http/api.rs: every byte of every field is charged.
use telegraph_center.Base.{
  ℕ, ◌+◌, ◌-◌, String, ◌≡◌, refl, Bool, true, false, Option, List, [], ◌∷◌, ◌++◌, arith, length,
}
use telegraph_center.Base.Fallible.{Fallible, ok, err}
use telegraph_center.Blob.Files.{FileSystem}
use telegraph_center.Http.{ApiError}
use telegraph_center.Http.Upload.{
  Field, charge, discard_field, read_chunks, read_text_field, decoded,
}
use telegraph_center.Http.Upload.Fields.{
  Seen, World, write_chunks, stream_to_file, read_audio, read_field, read_fields, Kind, audio, tags,
  recorded_at, unknown, kind_of,
}
use telegraph_center.Http.Upload.Acts.{bind_ok}

unfoldable pub total : List (List ℕ) → ℕ
total [] = 0
total (chunk ∷ chunks) = length chunk + total chunks

-- The bytes of all fields.
unfoldable pub body_size : List Field → ℕ
unfolding total
body_size [] = 0
body_size (field ∷ fields) = total field.chunks + body_size fields

charge_ok : (remaining len left : ℕ) → charge remaining len ≡ ok left → left + len ≡ remaining
unfolding charge
charge_ok remaining len left e = ground arith

discard_ok :
    (chunks : List (List ℕ)) (intact : Bool) (remaining left : ℕ)
    → discard_field chunks intact remaining ≡ ok left
    → left + total chunks ≡ remaining
unfolding discard_field charge total
discard_ok [] true remaining left e = ground arith
discard_ok [] false remaining left e = ground arith
discard_ok (chunk ∷ chunks) intact remaining left e =
    ground (arith, discard_ok chunks intact (remaining - length chunk) left)

read_chunks_ok :
    (chunks : List (List ℕ)) (intact : Bool) (buffer : List ℕ) (remaining : ℕ) (bytes : List ℕ)
    (left : ℕ)
    → read_chunks chunks intact buffer remaining ≡ ok (bytes, left)
    → left + total chunks ≡ remaining
unfolding read_chunks charge total
read_chunks_ok [] true buffer remaining bytes left e = ground arith
read_chunks_ok [] false buffer remaining bytes left e = ground arith
read_chunks_ok (chunk ∷ chunks) intact buffer remaining bytes left e =
    ground
      (arith, read_chunks_ok chunks intact (buffer ++ chunk) (remaining - length chunk) bytes left)

module _ (from_utf8 : List ℕ → Option String) where
  read_text_ok :
      (field : Field) (remaining : ℕ) (text : String) (left : ℕ)
      → read_text_field from_utf8 field remaining ≡ ok (text, left)
      → left + total field.chunks ≡ remaining
  unfolding read_text_field
  read_text_ok field remaining text left e =
      go (read_chunks field.chunks field.intact [] remaining) refl e
    where
      go :
          (r : Fallible ApiError (List ℕ × ℕ))
          → read_chunks field.chunks field.intact [] remaining ≡ r
          → decoded from_utf8 r ≡ ok (text, left)
          → left + total field.chunks ≡ remaining
      go (err c) q h = cc
      go (ok (bytes, l)) q h =
          let same : l ≡ left = ground (arith, h) in
          let sum = read_chunks_ok field.chunks field.intact [] remaining bytes l q in
          omega (arith, same, sum)

module _ (fs : FileSystem) where
  write_chunks_ok :
      (path : String) (chunks : List (List ℕ)) (intact : Bool) (remaining left : ℕ)
      (w : World fs.State)
      → (write_chunks fs path chunks intact remaining w).0 ≡ ok left
      → left + total chunks ≡ remaining
  unfolding write_chunks total
  write_chunks_ok path [] true remaining left w e =
      let (u, flushed, rest, _) = bind_ok _ _ w left e in ground arith
  write_chunks_ok path [] false remaining left w e = cc
  write_chunks_ok path (chunk ∷ chunks) intact remaining left w e =
      let (l, charged, rest, _) = bind_ok _ _ w left e in
      let (u, written, rest2, _) = bind_ok _ _ w left rest in
      let sum = write_chunks_ok path chunks intact l left _ rest2 in
      let paid = charge_ok remaining (length chunk) l charged in omega (arith, sum, paid)

  module _ (from_utf8 : List ℕ → Option String) where
    read_audio_ok :
        (path : String) (field : Field) (before : Bool) (seen seen' : Seen) (w : World fs.State)
        → (read_audio fs from_utf8 path field before seen w).0 ≡ ok seen'
        → seen'.remaining + total field.chunks ≡ seen.remaining
    unfolding read_audio stream_to_file
    read_audio_ok path field true seen seen' w e = cc
    read_audio_ok path field false seen seen' w e =
        let (l, streamed, rest, _) = bind_ok _ _ w seen' e in
        let (u, created, written, _) = bind_ok _ _ w l streamed in
        let sum = write_chunks_ok path field.chunks field.intact seen.remaining l _ written in
        ground (arith, sum, rest)

    read_field_ok :
        (path : String) (field : Field) (kind : Kind) (seen seen' : Seen) (w : World fs.State)
        → (read_field fs from_utf8 path field kind seen w).0 ≡ ok seen'
        → seen'.remaining + total field.chunks ≡ seen.remaining
    unfolding read_field
    read_field_ok path field audio seen seen' w e =
        read_audio_ok path field seen.audio_written seen seen' w e
    read_field_ok path field tags seen seen' w e =
        let ((text, l), got, rest, _) = bind_ok _ _ w seen' e in
        let sum = read_text_ok from_utf8 field seen.remaining text l got in
        ground (arith, sum, rest)
    read_field_ok path field recorded_at seen seen' w e =
        let ((text, l), got, rest, _) = bind_ok _ _ w seen' e in
        let sum = read_text_ok from_utf8 field seen.remaining text l got in
        ground (arith, sum, rest)
    read_field_ok path field unknown seen seen' w e =
        let (l, got, rest, _) = bind_ok _ _ w seen' e in
        let sum = discard_ok field.chunks field.intact seen.remaining l got in
        ground (arith, sum, rest)

    -- Where the loop over the fields ends well, the bytes of all the fields, the ignored ones
    -- included, and what is left of the budget sum up to the budget.
    pub read_fields_ok :
        (path : String) (fields : List Field) (intact : Bool) (seen seen' : Seen)
        (w : World fs.State)
        → (read_fields fs from_utf8 path fields intact seen w).0 ≡ ok seen'
        → seen'.remaining + body_size fields ≡ seen.remaining
    unfolding read_fields body_size
    read_fields_ok path [] true seen seen' w e = ground (arith, e)
    read_fields_ok path [] false seen seen' w e = cc
    read_fields_ok path (field ∷ fields) intact seen seen' w e =
        let (s, read, rest, _) = bind_ok _ _ w seen' e in
        let here = read_field_ok path field (kind_of field.name) seen s w read in
        let sum = read_fields_ok path fields intact s seen' _ rest in omega (arith, here, sum)
