-- ===== src/Base/Bits.antt =====
-- When `|` and `^` of two numbers are zero.
use Prim.Native.Nat.{
  ℕ, zero, suc, ◌/◌, ◌%◌, ◌≤◌, max, digits, differ, bit_or, bit_xor, bit_or-bitwise,
  bit_xor-bitwise,
}
use mathlib.Core.Path.{◌≡◌, refl}
use native.Mathlib.Omega.{arith}

differ_zero : (x y : ℕ) → differ x y ≡ 0 → x ≡ y
differ_zero zero y e = omega (arith, e)
differ_zero (suc x) zero e = omega (arith, e)
differ_zero (suc x) (suc y) e = omega (arith, differ_zero x y e)

differ_same : (x : ℕ) → differ x x ≡ 0
differ_same zero = refl
differ_same (suc x) = differ_same x

xor_digits : (n a b : ℕ) → a ≤ n → digits (λ y. y) differ n a b ≡ 0 → a ≡ b
xor_digits zero a b h e = omega (arith, h, e)
xor_digits (suc n) zero b h e = omega (arith, e)
xor_digits (suc n) (suc a) b h e =
    let high = xor_digits n (suc a / 2) (b / 2) (omega arith) (omega arith) in
    let low = differ_zero (suc a % 2) (b % 2) (omega arith) in omega (arith, high, low)

xor_same : (n a : ℕ) → a ≤ n → digits (λ y. y) differ n a a ≡ 0
xor_same zero a h = omega (arith, h)
xor_same (suc n) zero h = refl
xor_same (suc n) (suc a) h =
    omega (arith, xor_same n (suc a / 2) (omega arith), differ_same (suc a % 2))

or_digits : (n a b : ℕ) → a ≤ n → digits (λ y. y) max n a b ≡ 0 → (a ≡ 0) × (b ≡ 0)
or_digits zero a b h e = (omega arith, e)
or_digits (suc n) zero b h e = (refl, e)
or_digits (suc n) (suc a) b h e =
    let (high, rest) = or_digits n (suc a / 2) (b / 2) (omega arith) (omega arith) in
    (omega (arith, high, e), omega (arith, rest, e))

pub bit_xor_zero : (a b : ℕ) → bit_xor a b ≡ 0 → a ≡ b
bit_xor_zero a b e = xor_digits a a b (omega arith) (simp bit_xor-bitwise at e)

pub bit_xor_same : (a : ℕ) → bit_xor a a ≡ 0
bit_xor_same a = simp bit_xor-bitwise (xor_same a a (omega arith))

pub bit_or_zero : (a b : ℕ) → bit_or a b ≡ 0 → (a ≡ 0) × (b ≡ 0)
bit_or_zero a b e = or_digits a a b (omega arith) (simp bit_or-bitwise at e)
