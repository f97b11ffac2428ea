-- ===== src/Base/Split.antt =====
-- `str::split` and `str::split_once` at one ASCII character.
use Prim.Native.Char.{Char, code}
use Prim.Native.String.{String, [] as nil, ◌∷◌ as ◌◂◌, ◌++◌}
use Prim.Native.String.append
use Prim.Native.Nat.{ℕ}
use mathlib.Core.Path.{◌≡◌, refl}
use mathlib.Core.Bool.{Bool, true, ◌||◌, not}
use text.Mathlib.Text.{starts_with}
use mathlib.Core.List.{List, [], ◌∷◌}
use mathlib.Core.Option.{Option, none, some}
use native.Mathlib.Omega.{arith}
use telegraph_center.Base.Tests.{nat_beq, if◌then◌else◌}
use telegraph_center.Base.Text.{all_chars, trim, trim_start, trim_end}

abbrev push_first : Char → List String → List String
push_first c [] = (c ◂ nil) ∷ []
push_first c (s ∷ rest) = (c ◂ s) ∷ rest

unfoldable pub split : ℕ → String → List String
split at nil = nil ∷ []
split at (c ◂ s) =
    let rest = split at s in if nat_beq (code c) at then nil ∷ rest else push_first c rest

abbrev pub prepend : Char → Option (String × String) → Option (String × String)
prepend c none = none
prepend c (some (before, after)) = some (c ◂ before, after)

unfoldable pub split_once : ℕ → String → Option (String × String)
split_once at nil = none
split_once at (c ◂ s) =
    let rest = split_once at s in if nat_beq (code c) at then some (nil, s) else prepend c rest

-- A text without the character is one piece.
pub split_same :
    (at : ℕ) (s : String) → all_chars (λ n. not (nat_beq n at)) s ≡ true → split at s ≡ s ∷ []
unfolding split all_chars
split_same at nil h = refl
split_same at (c ◂ s) h = ground (arith, split_same at s)

pub split_once-none :
    (at : ℕ) (s : String) → all_chars (λ n. not (nat_beq n at)) s ≡ true → split_once at s ≡ none
unfolding split_once all_chars
split_once-none at nil h = refl
split_once-none at (c ◂ s) h = ground (arith, split_once-none at s)

-- The first piece ends at the first such character.
pub split_first :
    (at : ℕ) (s : String) (c : Char) (rest : String)
    → all_chars (λ n. not (nat_beq n at)) s ≡ true
    → nat_beq (code c) at ≡ true
    → split at (s ++ (c ◂ rest)) ≡ s ∷ split at rest
unfolding split all_chars
split_first at nil c rest h e = rw (append.nil (c ◂ rest)) (ground arith)
split_first at (d ◂ s) c rest h e =
    rw (append.cons d s (c ◂ rest)) (ground (arith, split_first at s c rest))

pub split_once_first :
    (at : ℕ) (s : String) (c : Char) (rest : String)
    → all_chars (λ n. not (nat_beq n at)) s ≡ true
    → nat_beq (code c) at ≡ true
    → split_once at (s ++ (c ◂ rest)) ≡ some (s, rest)
unfolding split_once all_chars
split_once_first at nil c rest h e = rw (append.nil (c ◂ rest)) (ground arith)
split_once_first at (d ◂ s) c rest h e =
    rw (append.cons d s (c ◂ rest)) (ground (arith, split_once_first at s c rest))

module _ (p q : ℕ → Bool) (sub : (n : ℕ) → p n ≡ true → q n ≡ true) where
  pub all_chars_weaken : (s : String) → all_chars p s ≡ true → all_chars q s ≡ true
  unfolding all_chars
  all_chars_weaken nil h = refl
  all_chars_weaken (c ◂ s) h = ground (arith, sub (code c), all_chars_weaken s)

module _ (p : ℕ → Bool) where
  pub all_chars-append :
      (s t : String) → all_chars p s ≡ true → all_chars p t ≡ true → all_chars p (s ++ t) ≡ true
  unfolding all_chars
  all_chars-append nil t h k = rw (append.nil t) k
  all_chars-append (c ◂ s) t h k = rw (append.cons c s t) (ground (arith, all_chars-append s t))

  trim_start-all_chars : (s : String) → all_chars p s ≡ true → all_chars p (trim_start s) ≡ true
  unfolding all_chars trim_start
  trim_start-all_chars nil h = refl
  trim_start-all_chars (c ◂ s) h = ground (arith, trim_start-all_chars s)

  trim_end-all_chars : (s : String) → all_chars p s ≡ true → all_chars p (trim_end s) ≡ true
  unfolding all_chars trim_end
  trim_end-all_chars nil h = refl
  trim_end-all_chars (c ◂ s) h = ground (arith, trim_end-all_chars s)

  pub trim-all_chars : (s : String) → all_chars p s ≡ true → all_chars p (trim s) ≡ true
  unfolding trim
  trim-all_chars s h = trim_end-all_chars (trim_start s) (trim_start-all_chars s h)

-- `str::contains` of a text
unfoldable pub contains_text : String → String → Bool
contains_text nil pattern = starts_with nil pattern
contains_text (c ◂ s) pattern = starts_with (c ◂ s) pattern || contains_text s pattern
