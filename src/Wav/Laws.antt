-- ===== src/Wav/Laws.antt =====
-- The header parser of src/wav.rs: its fuel, canonical headers, and the duration.
use telegraph_center.Base.{
  ℕ, zero, suc, ◌+◌, ◌*◌, ◌/◌, ◌%◌, ◌≤◌, ◌<◌, ◌≡◌, refl, Option, some, List, [], ◌∷◌, ◌++◌, length,
  length-drop, drop, arith, Option-cases, Bool-cases, inl, inr, subst, ltb,
}
use native.Mathlib.Nat.{div-mul-le_self, lt-div-mul-add}
use telegraph_center.Base.Fallible.{Fallible, ok}
use telegraph_center.Wav.{
  WavInfo, WavError, duration_ms, u16_le, u32_le, read_fmt, chunk, scan, Scanned, Fmt, parse_header,
  is_id,
}

chunk_same :
    (id : List ℕ) (size : ℕ) (body : List ℕ) (fmt : Option Fmt)
    (g h : Option Fmt → Fallible WavError Scanned)
    → ((f : Option Fmt) → g f ≡ h f)
    → chunk id size body fmt g ≡ chunk id size body fmt h
unfolding chunk
chunk_same id size body fmt g h same = elim (Bool-cases (is_id 102 109 116 32 id)) [
  | inl is_fmt ↦ rw is_fmt (elim (Option-cases (read_fmt body)) [
    | inl short ↦ rw short refl
    | inr (f, read) ↦ rw read (same (some f))
  ])
  | inr other ↦ rw other (elim (Bool-cases (is_id 100 97 116 97 id)) [
    | inl is_data ↦ rw is_data refl
    | inr unknown ↦ rw unknown (same fmt)
  ])
]

-- Any two amounts of fuel that are not below the number of bytes give the same result of the loop.
pub scan_fuel :
    (m n : ℕ) (bytes : List ℕ) (fmt : Option Fmt)
    → length bytes ≤ m
    → length bytes ≤ n
    → scan m bytes fmt ≡ scan n bytes fmt
unfolding scan
scan_fuel zero zero bytes fmt hm hn = refl
scan_fuel zero (suc n) [] fmt hm hn = refl
scan_fuel zero (suc n) (x ∷ bytes) fmt hm hn = absurd (omega arith)
scan_fuel (suc m) zero [] fmt hm hn = refl
scan_fuel (suc m) zero (x ∷ bytes) fmt hm hn = absurd (omega arith)
scan_fuel (suc m) (suc n) (i0 ∷ i1 ∷ i2 ∷ i3 ∷ s0 ∷ s1 ∷ s2 ∷ s3 ∷ body) fmt hm hn =
    let size = u32_le s0 s1 s2 s3 in
    let left = length-drop (size + size % 2) body in
    chunk_same (i0 ∷ i1 ∷ i2 ∷ i3 ∷ []) size body fmt _ _ (λ f.
      scan_fuel m n (drop (size + size % 2) body) f (omega (arith, left)) (omega (arith, left)))
scan_fuel (suc m) (suc n) _ fmt hm hn = refl

-- The bytes of a number, lowest first.
abbrev pub le16 : ℕ → List ℕ
le16 n = n % 256 ∷ n / 256 % 256 ∷ []

abbrev pub le32 : ℕ → List ℕ
le32 n = n % 256 ∷ n / 256 % 256 ∷ n / 65536 % 256 ∷ n / 16777216 % 256 ∷ []

u16_le-le16 : (n : ℕ) → n < 65536 → u16_le (n % 256) (n / 256 % 256) ≡ n
u16_le-le16 n h = omega arith

u32_le-le32 :
    (n : ℕ)
    → n < 4294967296
    → u32_le (n % 256) (n / 256 % 256) (n / 65536 % 256) (n / 16777216 % 256) ≡ n
u32_le-le32 n h = omega arith

-- A header of the canonical form: RIFF, WAVE, a `fmt ` chunk of 16 bytes, and a `data` chunk.
abbrev pub pcm_wav : ℕ → ℕ → ℕ → ℕ → ℕ → ℕ → ℕ → List ℕ → List ℕ
pcm_wav riff_size sample_rate channels bits byte_rate block_align data_len samples =
    82
    ∷ 73
    ∷ 70
    ∷ 70
    ∷ (le32 riff_size
        ++ (87
            ∷ 65
            ∷ 86
            ∷ 69
            ∷ 102
            ∷ 109
            ∷ 116
            ∷ 32
            ∷ (le32 16
                ++ (le16 1
                    ++ (le16 channels
                        ++ (le32 sample_rate
                            ++ (le32 byte_rate
                                ++ (le16 block_align
                                    ++ (le16 bits
                                        ++ (100
                                            ∷ 97
                                            ∷ 116
                                            ∷ 97
                                            ∷ (le32 data_len ++ samples)))))))))))

-- A canonical header whose fields fit their widths is read back exactly, whatever bytes follow it.
pub parse_header-pcm_wav :
    (riff_size sample_rate channels bits byte_rate block_align data_len : ℕ) (samples : List ℕ)
    → sample_rate < 4294967296
    → channels < 65536
    → bits < 65536
    → byte_rate < 4294967296
    → data_len < 4294967296
    → parse_header
        (pcm_wav riff_size sample_rate channels bits byte_rate block_align data_len samples)
      ≡ ok (record {
        sample_rate_hz = sample_rate;
        channels = channels;
        bits_per_sample = bits;
        byte_rate = byte_rate;
        data_len_bytes = some data_len;
      })
unfolding parse_header
parse_header-pcm_wav riff_size sample_rate channels bits byte_rate block_align data_len samples h1
      h2 h3 h4 h5 =
    ground (
      arith,
      u32_le-le32 sample_rate h1,
      u16_le-le16 channels h2,
      u16_le-le16 bits h3,
      u32_le-le32 byte_rate h4,
      u32_le-le32 data_len h5,
    )

duration_inverts :
    (info : WavInfo) (len ms : ℕ)
    → info.data_len_bytes ≡ some len
    → duration_ms info ≡ some ms
    → (0 < info.byte_rate) × (len * 1000 / info.byte_rate ≡ ms)
unfolding duration_ms
duration_inverts info len ms e h = elim (Bool-cases (ltb 0 info.byte_rate)) [
  | inl moving ↦ (ground arith, ground arith)
  | inr still ↦ absurd (ground arith)
]

-- Where the data length is known and there is a duration, it is the quotient, rounded down, of a
-- thousand times the length by the byte rate.
pub duration_exact :
    (info : WavInfo) (len ms : ℕ)
    → info.data_len_bytes ≡ some len
    → duration_ms info ≡ some ms
    → (ms * info.byte_rate ≤ len * 1000) × (len * 1000 < ms * info.byte_rate + info.byte_rate)
duration_exact info len ms e h =
    let (moving, quotient) = duration_inverts info len ms e h in
    (
      subst (λ q. q * info.byte_rate ≤ len * 1000) quotient
          (div-mul-le_self (len * 1000) info.byte_rate),
      subst (λ q. len * 1000 < q * info.byte_rate + info.byte_rate) quotient
          (lt-div-mul-add moving),
    )
