-- ===== src/Storage/Tx.antt =====
-- Transactions. A `Tx` is a run of statements on one connection: it returns and leaves a new
-- database, or fails. An `Op` is a method of `SqliteStore` as its caller sees it: a failed
-- transaction is rolled back, and what was committed before a later failure stays.
use telegraph_center.Base.{Bool, true, false, Option, none, some}
use telegraph_center.Storage.Rows.{Db, Result, ok, err, StorageError}

abbrev pub Tx {ℓ} : Type ℓ → Type ℓ
Tx A = Db → Result (A × Db)

abbrev pub Op {ℓ} : Type ℓ → Type ℓ
Op A = Db → Result A × Db

module _ {ℓ} {A : Type ℓ} where
  abbrev pub pure : A → Tx A
  pure a db = ok (a, db)

  abbrev pub fail : StorageError → Tx A
  fail e db = err e

  abbrev pub lift : Result A → Tx A
  lift (ok a) db = ok (a, db)
  lift (err e) db = err e

  -- `Option::ok_or_else`
  abbrev pub require : StorageError → Option A → Tx A
  require e none db = err e
  require e (some a) db = ok (a, db)

  abbrev pub gets : (Db → A) → Tx A
  gets f db = ok (f db, db)

  -- `begin` ... `commit`; an error drops the transaction, which rolls it back
  unfoldable pub transaction : Tx A → Op A
  transaction m db = elim (m db) [ ok (a, db') ↦ (ok a, db') | err e ↦ (err e, db) ]

  -- a read through the pool, outside of any transaction
  unfoldable pub reading : (Db → Result A) → Op A
  reading f db = (f db, db)

abbrev pub modify : (Db → Db) → Tx (Unit {0})
modify f db = ok (tt, f db)

abbrev pub guard : Bool → StorageError → Tx (Unit {0})
guard true e db = ok (tt, db)
guard false e db = err e

infixl 5 ◌>>=◌ ◌>>◌
unfoldable pub ◌>>=◌ {ℓ κ} : {A : Type ℓ} {B : Type κ} → Tx A → (A → Tx B) → Tx B
◌>>=◌ m f db = elim (m db) [ ok (a, db') ↦ f a db' | err e ↦ err e ]

abbrev pub ◌>>◌ {ℓ κ} : {A : Type ℓ} {B : Type κ} → Tx A → Tx B → Tx B
m >> k = m >>= λ _. k

-- After the commit: the caller's result is that of a later read.
infixl 5 ◌then_read◌
unfoldable pub ◌then_read◌ {ℓ κ} : {A : Type ℓ} {B : Type κ} → Op A → (A → Op B) → Op B
◌then_read◌ m f db = let (r, db') = m db in elim r [ ok a ↦ f a db' | err e ↦ (err e, db') ]
