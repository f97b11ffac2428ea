-- ===== src/Monitor/Csrf.antt =====
-- src/monitor/csrf.rs: the check of the token that a form carries. SHA-256 and the bytes of a text
-- are arguments.
use Prim.Native.Nat.{bit_or, bit_xor}
use telegraph_center.Base.{
  ℕ, String, ◌≡◌, ◌↔◌, refl, ◌∙◌, ap, subst, Bool, true, false, List, [], ◌∷◌, arith, length,
  nat_beq, if◌then◌else◌,
}
use telegraph_center.Base.Bits.{bit_xor_zero, bit_xor_same, bit_or_zero}
use telegraph_center.Base.Text.{trim, is_empty_text}
use telegraph_center.Domain.Entities.{OperatorSession}

-- The loop: every pair of bytes is compared, whatever the earlier ones were.
unfoldable pub difference : ℕ → List ℕ → List ℕ → ℕ
difference diff [] b = diff
difference diff (x ∷ a) [] = diff
difference diff (x ∷ a) (y ∷ b) = difference (bit_or diff (bit_xor x y)) a b

unfoldable pub constant_time_eq : List ℕ → List ℕ → Bool
unfolding difference
constant_time_eq a b = if nat_beq (length a) (length b) then nat_beq (difference 0 a b) 0 else false

difference_zero :
    (diff : ℕ) (a b : List ℕ) → length a ≡ length b → difference diff a b ≡ 0 → (diff ≡ 0) × (a ≡ b)
unfolding difference
difference_zero diff [] [] l e = (e, refl)
difference_zero diff [] (y ∷ b) l e = absurd (omega (arith, l))
difference_zero diff (x ∷ a) [] l e = absurd (omega (arith, l))
difference_zero diff (x ∷ a) (y ∷ b) l e =
    let (both, rest) = difference_zero (bit_or diff (bit_xor x y)) a b (omega (arith, l)) e in
    let (d, here) = bit_or_zero diff (bit_xor x y) both in
    let same = bit_xor_zero x y here in (d, ap (λ z. z ∷ a) same ∙ ap (λ r. y ∷ r) rest)

difference_same : (a : List ℕ) → difference 0 a a ≡ 0
unfolding difference
difference_same [] = refl
difference_same (x ∷ a) = ap (λ d. difference (bit_or 0 d) a a) (bit_xor_same x) ∙ difference_same a

constant_time_eq_same : (a : List ℕ) → constant_time_eq a a ≡ true
unfolding constant_time_eq
constant_time_eq_same a = ground (arith, difference_same a)

-- The comparison without early exit is equality of the bytes.
constant_time_eq_iff : (a b : List ℕ) → (constant_time_eq a b ≡ true) ↔ (a ≡ b)
unfolding constant_time_eq
constant_time_eq_iff a b = (
  λ e. (difference_zero 0 a b (ground arith) (ground arith)).1,
  λ e. subst (λ c. constant_time_eq a c ≡ true) e (constant_time_eq_same a),
)

module _ (hash_token : String → String) (as_bytes : String → List ℕ) where
  unfoldable pub validate : OperatorSession → String → Bool
  unfolding constant_time_eq
  validate session submitted =
      if is_empty_text (trim submitted)
      then false
      else constant_time_eq (as_bytes (hash_token (trim submitted)))
          (as_bytes session.csrf_token_hash)

  -- A submitted token is accepted exactly where it is not blank and its hash, once it is trimmed, is
  -- the stored one, where different texts have different bytes.
  pub validate_iff :
      ((s t : String) → as_bytes s ≡ as_bytes t → s ≡ t)
      → (session : OperatorSession) (submitted : String)
      → (validate session submitted ≡ true) ↔ (
          (is_empty_text (trim submitted) ≡ false)
          × (hash_token (trim submitted) ≡ session.csrf_token_hash))
  unfolding validate
  validate_iff injective session submitted =
      let given = as_bytes (hash_token (trim submitted)) in
      let stored = as_bytes session.csrf_token_hash in
      let (to, from) = constant_time_eq_iff given stored in
      (
        λ e. (ground arith, injective _ _ (to (ground arith))),
        λ h. let accepted = from (ap as_bytes h.1) in ground (arith, h.0),
      )
