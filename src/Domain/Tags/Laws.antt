-- ===== src/Domain/Tags/Laws.antt =====
-- What it is for a set of tags of src/domain.rs to be valid.
use telegraph_center.Base.{
  ℕ, String, ◌≤◌, ◌≡◌, refl, sym, ◌∙◌, subst, ap, Bool, true, false, List, [], ◌∷◌, ◌++◌, length,
  All, arith, ◌==◌, none, Bool-cases, inl, inr, ◌||◌, eq_iff,
}
use telegraph_center.Base.Table.{exists_row, select_one}
use mathlib.Core.List.{append-nil, append_assoc}
use telegraph_center.Base.Table.Laws.{exists_row-append, Distinct, Distinct-append}
use telegraph_center.Base.Text.{
  trim_same, to_ascii_lowercase_same, is_whitespace, within, all_chars, first_then_all_lem,
}
use telegraph_center.Base.Fallible.{ok}
use telegraph_center.Domain.Entities.{Tags}
use telegraph_center.Domain.Tags.{
  new, validate, normalize_onto, add_new, normal, contains, is_valid_tag, is_tag_char, is_tag_start,
  first_invalid,
}

tag_char_no_space : (n : ℕ) → is_tag_char n ≡ true → is_whitespace n ≡ false
unfolding is_whitespace
tag_char_no_space n h = ground arith

tag_char_low : (n : ℕ) → is_tag_char n ≡ true → within 65 90 n ≡ false
tag_char_low n h = ground arith

valid_chars : (s : String) → is_valid_tag s ≡ true → all_chars is_tag_char s ≡ true
unfolding is_valid_tag
valid_chars s h = first_then_all_lem is_tag_start is_tag_char (λ n e. ground arith) s (ground arith)

-- A valid tag is normal.
pub normal-is_valid_tag : (s : String) → is_valid_tag s ≡ true → normal s ≡ s
unfolding normal
normal-is_valid_tag s h =
    rw (trim_same is_tag_char tag_char_no_space s (valid_chars s h))
      (to_ascii_lowercase_same is_tag_char tag_char_low s (valid_chars s h))

pub record IsValid (t : Tags) : Type 0 where
  pub bounded : length t.values ≤ 16
  pub valid : All (λ x. is_valid_tag x ≡ true) t.values
  pub distinct : Distinct (λ x. x) t.values

first_invalid-none :
    (xs : List String) → first_invalid xs ≡ none → All (λ x. is_valid_tag x ≡ true) xs
unfolding first_invalid select_one
first_invalid-none [] h = tt
first_invalid-none (x ∷ xs) h = (ground arith, first_invalid-none xs (ground arith))

All-valid : (xs : List String) → All (λ x. is_valid_tag x ≡ true) xs → first_invalid xs ≡ none
unfolding first_invalid select_one
All-valid [] h = refl
All-valid (x ∷ xs) h = ground (arith, All-valid xs h.1)

normalize_onto-Distinct :
    (acc raw : List String) → Distinct (λ x. x) acc → Distinct (λ x. x) (normalize_onto acc raw)
unfolding normalize_onto add_new
normalize_onto-Distinct acc [] h = h
normalize_onto-Distinct acc (item ∷ raw) h = elim (Bool-cases (contains acc (normal item))) [
  | inl known ↦ rw known (normalize_onto-Distinct acc raw h)
  | inr fresh ↦ rw fresh (
      normalize_onto-Distinct (acc ++ normal item ∷ []) raw
        (Distinct-append (λ x. x) acc (normal item) h fresh))
]

validate_inverts :
    (xs : List String) (t : Tags)
    → validate xs ≡ ok t
    → (t ≡ record { values = xs }) × (length xs ≤ 16) × (first_invalid xs ≡ none)
unfolding validate
validate_inverts xs t h = ground arith

-- What `new` accepts has at most 16 tags, each of the permitted shape and no two of them equal.
pub new-IsValid : (raw : List String) (t : Tags) → new raw ≡ ok t → IsValid t
unfolding new
new-IsValid raw t h =
    let (same, few, shaped) = validate_inverts (normalize_onto [] raw) t h in
    rw same (record {
      bounded = few;
      valid = first_invalid-none (normalize_onto [] raw) shaped;
      distinct = normalize_onto-Distinct [] raw tt;
    })

exists_row-middle :
    (p : String → Bool) (acc : List String) (x : String) (xs : List String)
    → exists_row p (acc ++ x ∷ xs) ≡ false
    → p x ≡ false
unfolding exists_row
exists_row-middle p [] x xs h = ground arith
exists_row-middle p (a ∷ acc) x xs h = exists_row-middle p acc x xs (ground arith)

Distinct-middle :
    (acc : List String) (x : String) (xs : List String)
    → Distinct (λ y. y) (acc ++ x ∷ xs)
    → contains acc x ≡ false
unfolding exists_row
Distinct-middle [] x xs h = refl
Distinct-middle (a ∷ acc) x xs h = ground (
  arith,
  Distinct-middle acc x xs h.1,
  exists_row-middle (λ y. y == a) acc x xs h.0,
  eq_iff a x,
  eq_iff x a,
)

normalize_onto_same :
    (acc xs : List String)
    → All (λ x. is_valid_tag x ≡ true) xs
    → Distinct (λ x. x) (acc ++ xs)
    → normalize_onto acc xs ≡ acc ++ xs
unfolding normalize_onto add_new
normalize_onto_same acc [] h d = sym (append-nil acc)
normalize_onto_same acc (x ∷ xs) h d =
    let fresh = Distinct-middle acc x xs d in
    rw (normal-is_valid_tag x h.0, fresh)
      (normalize_onto_same (acc ++ x ∷ []) xs h.1
          (subst (Distinct (λ y. y)) (sym (append_assoc acc (x ∷ []) xs)) d)
        ∙ append_assoc acc (x ∷ []) xs)

validate_lem :
    (xs : List String)
    → length xs ≤ 16
    → first_invalid xs ≡ none
    → validate xs ≡ ok (record { values = xs })
unfolding validate
validate_lem xs few shaped = ground (arith, few, shaped)

-- Validation is idempotent: a set of tags that it accepted it accepts again, unchanged.
pub new_again : (raw : List String) (t : Tags) → new raw ≡ ok t → new t.values ≡ ok t
unfolding new
new_again raw t e =
    let h = new-IsValid raw t e in
    ap validate (normalize_onto_same [] t.values h.valid h.distinct)
    ∙ validate_lem t.values h.bounded (All-valid t.values h.valid)

contains-add_new :
    (acc : List String) (tag x : String)
    → contains (add_new acc tag) x ≡ (contains acc x || tag == x)
unfolding add_new
contains-add_new acc tag x = elim (Bool-cases (contains acc tag)) [
  | inl known ↦ rw known (ground (arith, contains_same acc tag x known))
  | inr fresh ↦ rw (fresh, exists_row-append (λ t. t == x) acc tag) refl
]
  where
    contains_same :
        (l : List String) (k y : String) → contains l k ≡ true → k == y ≡ true → contains l y ≡ true
    contains_same l k y h e = subst (λ z. contains l z ≡ true) ((eq_iff k y).0 e) h

contains-normalize_onto :
    (acc raw : List String) (x : String)
    → contains (normalize_onto acc raw) x
      ≡ (contains acc x || exists_row (λ item. normal item == x) raw)
unfolding normalize_onto exists_row
contains-normalize_onto acc [] x = ground arith
contains-normalize_onto acc (item ∷ raw) x = ground (
  arith,
  contains-normalize_onto (add_new acc (normal item)) raw x,
  contains-add_new acc (normal item) x,
)

-- The tags that `new` accepts are those of the input in their normal form: each of them, and no
-- other.
pub contains-new :
    (raw : List String) (t : Tags) (x : String)
    → new raw ≡ ok t
    → contains t.values x ≡ exists_row (λ item. normal item == x) raw
unfolding new exists_row
contains-new raw t x h =
    let (same, few, shaped) = validate_inverts (normalize_onto [] raw) t h in
    rw same (contains-normalize_onto [] raw x)
