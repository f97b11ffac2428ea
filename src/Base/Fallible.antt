-- ===== src/Base/Fallible.antt =====
-- `Result` of the parts whose error types are their own, with `?` as bind.
pub data Fallible {ℓ} (E A : Type ℓ) : Type ℓ where
  ok : A → Fallible E A
  err : E → Fallible E A

infixl 5 ◌>>=◌
unfoldable pub ◌>>=◌ {ℓ} : {E A B : Type ℓ} → Fallible E A → (A → Fallible E B) → Fallible E B
ok a >>= f = f a
err e >>= f = err e
