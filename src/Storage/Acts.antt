-- ===== src/Storage/Acts.antt =====
-- What a committed transaction does to a view of the database: a relation between the view before
-- and the view after. `Keeps` is the relation of views that are equal. There is one rule for each
-- way to build a transaction; in a bind, one side acts and the other keeps the view.
use telegraph_center.Base.{
  ◌≡◌, refl, Bool, true, false, Option, none, some, ◌∙◌, subst, sym, if◌then◌else◌, arith,
}
use telegraph_center.Storage.Rows.{Db, Result, ok, err, StorageError}
use telegraph_center.Storage.Tx.{
  Tx, Op, pure, fail, lift, require, gets, modify, guard, ◌>>=◌, transaction, reading, ◌then_read◌,
}

pub record Acts {ℓ κ} {V : Type κ} {A : Type ℓ} (v : Db → V) (R : V → V → Type 0) (m : Tx A)
    : Type ℓ where
  pub at : (db : Db) (a : A) (db' : Db) → m db ≡ ok (a, db') → R (v db) (v db')

pub record Keeps {ℓ κ} {V : Type κ} {A : Type ℓ} (v : Db → V) (m : Tx A) : Type (ℓ ⊔ κ) where
  pub at : (db : Db) (a : A) (db' : Db) → m db ≡ ok (a, db') → v db' ≡ v db

module _ {ℓ κ} {V : Type κ} {A : Type ℓ} {v : Db → V} where
  pub Keeps-pure : (a : A) → Keeps v (pure a)
  Keeps-pure a = record { at = λ db b db' e. ground arith }

  pub Keeps-fail : (c : StorageError) → Keeps v (fail {A = A} c)
  Keeps-fail c = record { at = λ db b db' e. cc }

  pub Keeps-lift : (r : Result A) → Keeps v (lift r)
  Keeps-lift (ok a) = record { at = λ db b db' e. ground arith }
  Keeps-lift (err c) = record { at = λ db b db' e. cc }

  pub Keeps-require : (c : StorageError) (o : Option A) → Keeps v (require c o)
  Keeps-require c none = record { at = λ db b db' e. cc }
  Keeps-require c (some a) = record { at = λ db b db' e. ground arith }

  pub Keeps-gets : (f : Db → A) → Keeps v (gets f)
  Keeps-gets f = record { at = λ db b db' e. ground arith }

  pub Keeps-if : (b : Bool) (m n : Tx A) → Keeps v m → Keeps v n → Keeps v (if b then m else n)
  Keeps-if true m n km kn = km
  Keeps-if false m n km kn = kn

module _ {κ} {V : Type κ} {v : Db → V} where
  pub Keeps-guard : (b : Bool) (c : StorageError) → Keeps v (guard b c)
  Keeps-guard true c = record { at = λ db b db' e. ground arith }
  Keeps-guard false c = record { at = λ db b db' e. cc }

  pub Keeps-modify : (f : Db → Db) → ((db : Db) → v (f db) ≡ v db) → Keeps v (modify f)
  Keeps-modify f h = record { at = λ db b db' e. ground (arith, h db) }

module _ {ℓ} {A B : Type ℓ} where
  -- A bind that commits has run both of its sides.
  pub >>=-inverts :
      (m : Tx A) (f : A → Tx B) (db : Db) (b : B) (db' : Db)
      → (m >>= f) db ≡ ok (b, db')
      → (a : A) × (mid : Db) × (m db ≡ ok (a, mid)) × (f a mid ≡ ok (b, db'))
  unfolding ◌>>=◌
  >>=-inverts m f db b db' e = go (m db) refl e
    where
      go :
          (r : Result (A × Db))
          → m db ≡ r
          → elim r [ ok (a, x) ↦ f a x | err c ↦ err c ] ≡ ok (b, db')
          → (a : A) × (mid : Db) × (m db ≡ ok (a, mid)) × (f a mid ≡ ok (b, db'))
      go (ok (a, mid)) p q = (a, mid, p, q)
      go (err c) p q = cc

module _ {ℓ κ} {V : Type κ} {A B : Type ℓ} {v : Db → V} where
  pub Keeps-bind :
      (m : Tx A) (f : A → Tx B) → Keeps v m → ((a : A) → Keeps v (f a)) → Keeps v (m >>= f)
  Keeps-bind m f km kf = record {
    at = λ db b db' e.
        let (a, mid, p, q) = >>=-inverts m f db b db' e in (kf a).at mid b db' q ∙ km.at db a mid p;
  }

  module _ {R : V → V → Type 0} where
    pub Acts-bind-left :
        (m : Tx A) (f : A → Tx B) → Keeps v m → ((a : A) → Acts v R (f a)) → Acts v R (m >>= f)
    Acts-bind-left m f km af = record {
      at = λ db b db' e.
          let (a, mid, p, q) = >>=-inverts m f db b db' e in
          subst (λ x. R x (v db')) (km.at db a mid p) ((af a).at mid b db' q);
    }

    pub Acts-bind-right :
        (m : Tx A) (f : A → Tx B) → Acts v R m → ((a : A) → Keeps v (f a)) → Acts v R (m >>= f)
    Acts-bind-right m f am kf = record {
      at = λ db b db' e.
          let (a, mid, p, q) = >>=-inverts m f db b db' e in
          subst (λ x. R (v db) x) (sym ((kf a).at mid b db' q)) (am.at db a mid p);
    }

    pub Acts-bind_trans :
        ((x y z : V) → R x y → R y z → R x z)
        → (m : Tx A) (f : A → Tx B) → Acts v R m
        → ((a : A) → Acts v R (f a))
        → Acts v R (m >>= f)
    Acts-bind_trans trans m f am af = record {
      at = λ db b db' e.
          let (a, mid, p, q) = >>=-inverts m f db b db' e in
          trans (v db) (v mid) (v db') (am.at db a mid p) ((af a).at mid b db' q);
    }

module _ {ℓ κ} {V : Type κ} {A : Type ℓ} {v : Db → V} {R : V → V → Type 0} where
  pub Acts-Keeps : ((x : V) → R x x) → (m : Tx A) → Keeps v m → Acts v R m
  Acts-Keeps r m km = record {
    at = λ db b db' e. subst (λ x. R (v db) x) (sym (km.at db b db' e)) (r (v db));
  }

  -- A method keeps the relation whether its transaction commits or is rolled back.
  pub transaction-Acts :
      (m : Tx A) → ((x : V) → R x x) → Acts v R m → (db : Db) → R (v db) (v (transaction m db).1)
  unfolding transaction
  transaction-Acts m r am db = go (m db) refl
    where
      go :
          (o : Result (A × Db))
          → m db ≡ o
          → R (v db) (
              v (
                let s : Result A × Db = elim o [ ok (a, x) ↦ (ok a, x) | err c ↦ (err c, db) ] in
                s.1))
      go (ok (a, x)) e = am.at db a x e
      go (err c) e = r (v db)

pub Acts-sym {ℓ} :
    {V : Type 0} {A : Type ℓ} {v : Db → V} (m : Tx A) → Keeps v m → Acts v (λ x y. x ≡ y) m
Acts-sym m km = record { at = λ db a db' e. sym (km.at db a db' e) }

pub Acts-modify {κ} :
    {V : Type κ} {v : Db → V} {R : V → V → Type 0} (f : Db → Db)
    → ((db : Db) → R (v db) (v (f db)))
    → Acts v R (modify f)
Acts-modify {v = v} {R = R} f h = record {
  at = λ db a db' e. subst (λ x. R (v db) (v x)) (ground arith) (h db);
}

-- A read after the commit leaves the database as the commit left it.
pub then_read_state {ℓ} :
    {A B : Type ℓ} (m : Op A) (f : A → Db → Result B) (db : Db)
    → ((m then_read λ a. reading (f a)) db).1 ≡ (m db).1
unfolding ◌then_read◌ reading
then_read_state {A} {B} m f db = go (m db).0 (m db).1
  where
    go :
        (r : Result A) (s : Db)
        → (let t : Result B × Db = elim r [ ok a ↦ (f a s, s) | err e ↦ (err e, s) ] in t.1) ≡ s
    go (ok a) s = refl
    go (err e) s = refl

pub then_read-preserves {ℓ} :
    {A B : Type ℓ} (P : Db → Type 0) (m : Op A) (f : A → Db → Result B) (db : Db)
    → P (m db).1
    → P ((m then_read λ a. reading (f a)) db).1
then_read-preserves P m f db h = subst P (sym (then_read_state m f db)) h

pub ruleset keeps_rules =
    (Keeps-pure, Keeps-fail, Keeps-lift, Keeps-require, Keeps-gets, Keeps-guard, Keeps-bind)
