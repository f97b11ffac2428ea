-- ===== src/Wav.antt =====
-- src/wav.rs: the metadata of a RIFF/WAVE header. The bytes are numbers below 256, and an offset
-- into the slice is the list that is left from there.
pub mod Laws
use telegraph_center.Base.{
  ℕ, zero, suc, ◌+◌, ◌*◌, ◌/◌, ◌%◌, ◌^◌, Bool, ◌&&◌, true, false, Option, none, some, List, [], ◌∷◌,
  length, drop, ltb, nat_beq, if◌then◌else◌,
}
use telegraph_center.Base.Fallible.{Fallible, ok, err}

pub record WavInfo : Type 0 where
  pub sample_rate_hz : ℕ
  pub channels : ℕ
  pub bits_per_sample : ℕ
  pub byte_rate : ℕ
  pub data_len_bytes : Option ℕ

-- The quotient of the two i64 values; the product of a u32 and 1000 does not overflow.
unfoldable pub duration_ms : WavInfo → Option ℕ
duration_ms info = elim info.data_len_bytes [
  | none ↦ none
  | some len ↦ if ltb 0 info.byte_rate then some (len * 1000 / info.byte_rate) else none
]

pub data WavError : Type 0 where
  not_riff not_wave missing_fmt malformed : WavError

-- `from_le_bytes`
abbrev pub u16_le : ℕ → ℕ → ℕ
u16_le b0 b1 = b0 + 256 * b1

abbrev pub u32_le : ℕ → ℕ → ℕ → ℕ → ℕ
u32_le b0 b1 b2 b3 = b0 + 256 * b1 + 65536 * b2 + 16777216 * b3

-- Whether four bytes are a given identifier.
abbrev pub is_id : ℕ → ℕ → ℕ → ℕ → List ℕ → Bool
is_id a b c d (x0 ∷ x1 ∷ x2 ∷ x3 ∷ rest) =
    nat_beq a x0 && nat_beq b x1 && nat_beq c x2 && nat_beq d x3
is_id a b c d short = false

-- the rate, channels, bits and byte rate of a `fmt ` chunk
pub record Fmt : Type 0 where
  pub sample_rate : ℕ
  pub channels : ℕ
  pub bits_per_sample : ℕ
  pub byte_rate : ℕ

-- The 16 bytes of the chunk's body, or nothing where the slice ends before.
unfoldable pub read_fmt : List ℕ → Option Fmt
read_fmt (f0 ∷ f1 ∷ c0 ∷ c1 ∷ s0 ∷ s1 ∷ s2 ∷ s3 ∷ r0 ∷ r1 ∷ r2 ∷ r3 ∷ a0 ∷ a1 ∷ b0 ∷ b1 ∷ rest) =
    some (record {
      sample_rate = u32_le s0 s1 s2 s3;
      channels = u16_le c0 c1;
      bits_per_sample = u16_le b0 b1;
      byte_rate = u32_le r0 r1 r2 r3;
    })
read_fmt short = none

-- the `fmt ` chunk, if one was seen, and the length of the `data` chunk
pub record Scanned : Type 0 where
  pub fmt : Option Fmt
  pub data_len : Option ℕ

-- One turn of the loop: a chunk's identifier, size and body, and what the later turns answer.
unfoldable pub chunk :
    List ℕ
    → ℕ
    → List ℕ
    → Option Fmt
    → (Option Fmt → Fallible WavError Scanned)
    → Fallible WavError Scanned
unfolding read_fmt
chunk id size body fmt next =
    if is_id 102 109 116 32 id
    then elim (read_fmt body) [ none ↦ err malformed | some f ↦ next (some f) ]
    else if is_id 100 97 116 97 id
    then ok (record { fmt = fmt; data_len = some size })
    else next fmt

-- The loop, with fuel for its turns. A chunk of odd size is padded with one byte.
unfoldable pub scan : ℕ → List ℕ → Option Fmt → Fallible WavError Scanned
unfolding chunk
scan zero bytes fmt = ok (record { fmt = fmt; data_len = none })
scan (suc fuel) (i0 ∷ i1 ∷ i2 ∷ i3 ∷ s0 ∷ s1 ∷ s2 ∷ s3 ∷ body) fmt =
    let size = u32_le s0 s1 s2 s3 in
    chunk (i0 ∷ i1 ∷ i2 ∷ i3 ∷ []) size body fmt (scan fuel (drop (size + size % 2) body))
scan (suc fuel) short fmt = ok (record { fmt = fmt; data_len = none })

abbrev pub info_of : Fallible WavError Scanned → Fallible WavError WavInfo
info_of (err e) = err e
info_of (ok found) = elim found.fmt [
  | none ↦ err missing_fmt
  | some f ↦ ok (record {
    sample_rate_hz = f.sample_rate;
    channels = f.channels;
    bits_per_sample = f.bits_per_sample;
    byte_rate = f.byte_rate;
    data_len_bytes = found.data_len;
  })
]

-- Every turn of the loop passes at least eight bytes, so the length of the slice is fuel enough.
unfoldable pub parse_header : List ℕ → Fallible WavError WavInfo
unfolding scan
parse_header bytes =
    if ltb (length bytes) 12
    then err malformed
    else if is_id 82 73 70 70 bytes
    then (if is_id 87 65 86 69 (drop 8 bytes)
        then info_of (scan (length bytes) (drop 12 bytes) none)
        else err not_wave)
    else err not_riff
