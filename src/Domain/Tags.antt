-- ===== src/Domain/Tags.antt =====
-- `Tags` of src/domain.rs: normalization and validation.
pub mod Laws
use Prim.Native.String.{len}
use telegraph_center.Base.{
  ℕ, String, Bool, ◌&&◌, ◌||◌, not, List, [], ◌∷◌, ◌++◌, ◌==◌, length, leb, ltb, nat_beq,
  if◌then◌else◌, Option, none, some,
}
use telegraph_center.Base.Table.{exists_row, select_one}
use telegraph_center.Base.Text.{
  trim, to_ascii_lowercase, is_ascii_lowercase, is_ascii_digit, first_then_all, is_empty_text,
}
use telegraph_center.Base.Fallible.{Fallible, ok, err}
use telegraph_center.Domain.Entities.{Tags}

abbrev pub max_tags : ℕ
max_tags = 16

abbrev pub max_tag_len : ℕ
max_tag_len = 32

pub data TagError : Type 0 where
  -- the count and the maximum
  too_many : ℕ → ℕ → TagError
  invalid : String → TagError

-- `contains`
abbrev pub contains : List String → String → Bool
contains tags tag = exists_row (λ t. t == tag) tags

abbrev pub is_tag_char : ℕ → Bool
is_tag_char n = is_ascii_lowercase n || is_ascii_digit n || nat_beq n 95 || nat_beq n 45

abbrev pub is_tag_start : ℕ → Bool
is_tag_start n = is_ascii_lowercase n || is_ascii_digit n

-- The source tests bytes: those of a character that is not ASCII are none of these.
unfoldable pub is_valid_tag : String → Bool
unfolding first_then_all
is_valid_tag tag = not (ltb max_tag_len (len tag)) && first_then_all is_tag_start is_tag_char tag

unfoldable pub normal : String → String
unfolding trim to_ascii_lowercase
normal item = to_ascii_lowercase (trim item)

-- one turn of the loop that normalizes
unfoldable pub add_new : List String → String → List String
add_new normalized tag = if contains normalized tag then normalized else normalized ++ tag ∷ []

unfoldable pub normalize_onto : List String → List String → List String
unfolding normal add_new
normalize_onto normalized [] = normalized
normalize_onto normalized (item ∷ raw) = normalize_onto (add_new normalized (normal item)) raw

-- the loop that validates: the first tag that is not valid, if there is one
unfoldable pub first_invalid : List String → Option String
unfolding is_valid_tag
first_invalid tags = select_one (λ t. not (is_valid_tag t)) tags

unfoldable pub validate : List String → Fallible TagError Tags
unfolding first_invalid
validate normalized =
    if ltb max_tags (length normalized)
    then err (too_many (length normalized) max_tags)
    else elim (first_invalid normalized) [
      | some tag ↦ err (invalid tag)
      | none ↦ ok (record { values = normalized })
    ]

unfoldable pub new : List String → Fallible TagError Tags
unfolding normalize_onto validate
new raw = validate (normalize_onto [] raw)

-- Whether any tag is shared.
unfoldable pub intersects : Tags → Tags → Bool
intersects self other = exists_row (λ t. contains other.values t) self.values
