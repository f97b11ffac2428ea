-- ===== src/Base/Text.antt =====
-- The operations of `str` that the source uses and the library has not: `trim`, `to_ascii_lowercase`
-- and tests on every character.
use Prim.Native.Nat.{ℕ, ◌-◌}
use Prim.Native.Char.{Char, code}
use Prim.Native.String.{String, [], ◌∷◌, char_at}
use mathlib.Core.Bool.{Bool, true, false, ◌&&◌, ◌||◌}
use mathlib.Core.Path.{◌≡◌, refl}
use native.Mathlib.Omega.{arith}
use telegraph_center.Base.Tests.{leb, nat_beq, if◌then◌else◌}

-- lo..=hi
abbrev pub within : ℕ → ℕ → ℕ → Bool
within lo hi n = leb lo n && leb n hi

-- `char::is_whitespace`: the characters of the Unicode property White_Space
unfoldable pub is_whitespace : ℕ → Bool
is_whitespace n =
    within 9 13 n
    || nat_beq n 32
    || nat_beq n 133
    || nat_beq n 160
    || nat_beq n 5760
    || within 8192 8202 n
    || nat_beq n 8232
    || nat_beq n 8233
    || nat_beq n 8239
    || nat_beq n 8287
    || nat_beq n 12288

abbrev pub is_ascii_lowercase : ℕ → Bool
is_ascii_lowercase = within 97 122

abbrev pub is_ascii_digit : ℕ → Bool
is_ascii_digit = within 48 57

abbrev pub is_empty_text : String → Bool
is_empty_text [] = true
is_empty_text (c ∷ s) = false

unfoldable pub trim_start : String → String
trim_start [] = []
trim_start (c ∷ s) = let rest = trim_start s in if is_whitespace (code c) then rest else c ∷ s

unfoldable pub trim_end : String → String
trim_end [] = []
trim_end (c ∷ s) =
    let rest = trim_end s in if is_empty_text rest && is_whitespace (code c) then [] else c ∷ rest

unfoldable pub trim : String → String
unfolding trim_start trim_end
trim s = trim_end (trim_start s)

unfoldable pub lowercase_char : Char → Char
lowercase_char c =
    if within 65 90 (code c) then char_at "abcdefghijklmnopqrstuvwxyz" (code c - 65) else c

unfoldable pub to_ascii_lowercase : String → String
unfolding lowercase_char
to_ascii_lowercase [] = []
to_ascii_lowercase (c ∷ s) = lowercase_char c ∷ to_ascii_lowercase s

unfoldable pub all_chars : (ℕ → Bool) → String → Bool
all_chars p [] = true
all_chars p (c ∷ s) = p (code c) && all_chars p s

-- Tests on the first character and the others.
unfoldable pub first_then_all : (ℕ → Bool) → (ℕ → Bool) → String → Bool
unfolding all_chars
first_then_all p q [] = false
first_then_all p q (c ∷ s) = p (code c) && all_chars q s

module _ (p : ℕ → Bool) (no_space : (n : ℕ) → p n ≡ true → is_whitespace n ≡ false) where
  trim_end_same : (s : String) → all_chars p s ≡ true → trim_end s ≡ s
  unfolding trim_end all_chars
  trim_end_same [] h = refl
  trim_end_same (c ∷ s) h = ground (arith, trim_end_same s, no_space (code c))

  trim_start_same : (s : String) → all_chars p s ≡ true → trim_start s ≡ s
  unfolding trim_start all_chars
  trim_start_same [] h = refl
  trim_start_same (c ∷ s) h = ground (arith, no_space (code c))

  -- A text without spaces is trimmed already.
  pub trim_same : (s : String) → all_chars p s ≡ true → trim s ≡ s
  unfolding trim
  trim_same s h = rw (trim_start_same s h) (trim_end_same s h)

-- A text without capitals is in lowercase already.
pub to_ascii_lowercase_same :
    (p : ℕ → Bool)
    → ((n : ℕ) → p n ≡ true → within 65 90 n ≡ false)
    → (s : String) → all_chars p s ≡ true
    → to_ascii_lowercase s ≡ s
unfolding to_ascii_lowercase lowercase_char all_chars
to_ascii_lowercase_same p low [] h = refl
to_ascii_lowercase_same p low (c ∷ s) h =
    ground (arith, to_ascii_lowercase_same p low s, low (code c))

pub first_then_all_lem :
    (p q : ℕ → Bool)
    → ((n : ℕ) → p n ≡ true → q n ≡ true)
    → (s : String) → first_then_all p q s ≡ true
    → all_chars q s ≡ true
unfolding first_then_all all_chars
first_then_all_lem p q sub [] h = refl
first_then_all_lem p q sub (c ∷ s) h = ground (arith, sub (code c))
