-- ===== src/Base/Table/Laws.antt =====
-- What a SELECT by key finds after an UPDATE or an INSERT.
use Prim.Native.String.{String}
use mathlib.Core.Path.{◌≡◌, refl, sym, ap, ◌∙◌}
use mathlib.Core.Bool.{Bool, true, false, ◌||◌, false≢true}
use mathlib.Core.List.{List, [], ◌∷◌, ◌++◌, map}
use mathlib.Core.Logic.{inl, inr}
use mathlib.Core.Option.{none, some}
use native.Mathlib.Omega.{arith}
use text.Mathlib.Text.{◌==◌}
use text.Mathlib.TextEquality.{eq_iff}
use telegraph_center.Base.Tests.{if◌then◌else◌, map_option, Option-cases}
use telegraph_center.Base.Table.{select_one, exists_row, update_where}

module _ {ℓ} {A : Type ℓ} where
  -- the row that an UPDATE leaves in place of a row
  abbrev pub updated : (A → Bool) → (A → A) → A → A
  updated p f r = if p r then f r else r

  pub select_one-update_where :
      (key : A → String) (p : A → Bool) (f : A → A)
      → ((r : A) → key (f r) ≡ key r)
      → (j : String) (xs : List A)
      → select_one (λ r. key r == j) (update_where p f xs)
        ≡ map_option (updated p f) (select_one (λ r. key r == j) xs)
  unfolding select_one update_where
  select_one-update_where key p f same j [] = refl
  select_one-update_where key p f same j (x ∷ xs) =
      ground (arith, same x, select_one-update_where key p f same j xs)

  pub select_one-append :
      (p : A → Bool) (xs : List A) (y : A)
      → select_one p (xs ++ y ∷ [])
        ≡ elim (select_one p xs) [ none ↦ if p y then some y else none | some x ↦ some x ]
  unfolding select_one
  select_one-append p [] y = ground arith
  select_one-append p (x ∷ xs) y = ground (arith, select_one-append p xs y)

  -- what a SELECT finds fits its test
  pub select_one_fits : (p : A → Bool) (xs : List A) (r : A) → select_one p xs ≡ some r → p r ≡ true
  unfolding select_one
  select_one_fits p [] r h = ground arith
  select_one_fits p (x ∷ xs) r h = ground (arith, select_one_fits p xs r)

  pub select_one-exists_row :
      (p : A → Bool) (xs : List A) → exists_row p xs ≡ false → select_one p xs ≡ none
  unfolding select_one exists_row
  select_one-exists_row p [] h = refl
  select_one-exists_row p (x ∷ xs) h = ground (arith, select_one-exists_row p xs)

  -- A row that one SELECT finds makes EXISTS hold of every test that fits it.
  pub exists_row_found :
      (q r : A → Bool) (xs : List A) (e : A)
      → select_one q xs ≡ some e
      → r e ≡ true
      → exists_row r xs ≡ true
  unfolding select_one exists_row
  exists_row_found q r [] e h t = cc
  exists_row_found q r (x ∷ xs) e h t = ground (arith, exists_row_found q r xs e)

  pub exists_row-append :
      (p : A → Bool) (xs : List A) (y : A) → exists_row p (xs ++ y ∷ []) ≡ (exists_row p xs || p y)
  unfolding exists_row
  exists_row-append p [] y = ground arith
  exists_row-append p (x ∷ xs) y = ground (arith, exists_row-append p xs y)

  -- A UNIQUE or PRIMARY KEY column: no value stands in two rows.
  abbrev pub Distinct : (A → String) → List A → Type 0
  Distinct key [] = Unit
  Distinct key (x ∷ xs) = (exists_row (λ y. key y == key x) xs ≡ false) × Distinct key xs

  pub Distinct-append :
      (key : A → String) (xs : List A) (y : A)
      → Distinct key xs
      → exists_row (λ x. key x == key y) xs ≡ false
      → Distinct key (xs ++ y ∷ [])
  unfolding exists_row
  Distinct-append key [] y h fresh = ground arith
  Distinct-append key (x ∷ xs) y h fresh = ground (
    arith,
    Distinct-append key xs y h.1,
    exists_row-append (λ z. key z == key x) xs y,
    eq_iff (key x) (key y),
    eq_iff (key y) (key x),
  )

  exists_row-update_where :
      (key : A → String) (k : String) (p : A → Bool) (f : A → A) (xs : List A)
      → ((r : A) → key (f r) ≡ key r)
      → exists_row (λ y. key y == k) (update_where p f xs) ≡ exists_row (λ y. key y == k) xs
  unfolding exists_row update_where
  exists_row-update_where key k p f [] same = refl
  exists_row-update_where key k p f (x ∷ xs) same =
      ground (arith, same x, exists_row-update_where key k p f xs same)

  pub Distinct-update_where :
      (key : A → String) (p : A → Bool) (f : A → A) (xs : List A)
      → ((r : A) → key (f r) ≡ key r)
      → Distinct key xs
      → Distinct key (update_where p f xs)
  unfolding update_where
  Distinct-update_where key p f [] same h = tt
  Distinct-update_where key p f (x ∷ xs) same h = ground (
    arith,
    same x,
    Distinct-update_where key p f xs same h.1,
    exists_row-update_where key (key x) p f xs same,
  )

  -- Two SELECTs that find rows with one value of a distinct column find one row.
  pub Distinct-select_one :
      (key : A → String) (p q : A → Bool) (xs : List A) (d e : A)
      → Distinct key xs
      → select_one p xs ≡ some d
      → select_one q xs ≡ some e
      → key d ≡ key e
      → d ≡ e
  unfolding select_one
  Distinct-select_one key p q [] d e h pd qe k = cc
  Distinct-select_one key p q (x ∷ xs) d e h pd qe k = ground (
    arith,
    Distinct-select_one key p q xs d e h.1,
    exists_row_found p (λ y. key y == key x) xs d,
    exists_row_found q (λ y. key y == key x) xs e,
    eq_iff (key d) (key x),
    eq_iff (key e) (key x),
  )

  pub exists_row-select_one :
      (p : A → Bool) (xs : List A) → select_one p xs ≡ none → exists_row p xs ≡ false
  unfolding select_one exists_row
  exists_row-select_one p [] h = refl
  exists_row-select_one p (x ∷ xs) h = ground (arith, exists_row-select_one p xs)

  pub update_where_none :
      (p : A → Bool) (f : A → A) (xs : List A) → exists_row p xs ≡ false → update_where p f xs ≡ xs
  unfolding exists_row update_where
  update_where_none p f [] h = refl
  update_where_none p f (x ∷ xs) h = ground (arith, update_where_none p f xs)

  -- An UPDATE that keeps a column keeps the list of its values, on which its distinctness rests.
  pub map-update_where :
      (key : A → String) (p : A → Bool) (f : A → A) (xs : List A)
      → ((r : A) → key (f r) ≡ key r)
      → map key (update_where p f xs) ≡ map key xs
  unfolding update_where
  map-update_where key p f [] same = refl
  map-update_where key p f (x ∷ xs) same = ground (arith, same x, map-update_where key p f xs same)

  exists_row-map :
      (key : A → String) (k : String) (xs : List A)
      → exists_row (λ y. key y == k) xs ≡ exists_row (λ z. z == k) (map key xs)
  unfolding exists_row
  exists_row-map key k [] = refl
  exists_row-map key k (x ∷ xs) = ground (arith, exists_row-map key k xs)

  pub Distinct-map :
      (key : A → String) (xs ys : List A)
      → map key xs ≡ map key ys
      → Distinct key xs
      → Distinct key ys
  Distinct-map key xs [] e h = tt
  Distinct-map key [] (y ∷ ys) e h = cc
  Distinct-map key (x ∷ xs) (y ∷ ys) e h = (
    ground (arith, exists_row-map key (key x) xs, exists_row-map key (key y) ys),
    Distinct-map key xs ys (ground arith) h.1,
  )

  pub exists_row_witness :
      (p : A → Bool) (xs : List A) → exists_row p xs ≡ true → (r : A) × (select_one p xs ≡ some r)
  exists_row_witness p xs h = elim (Option-cases (select_one p xs)) [
    | inl missing ↦ absurd (false≢true (sym (exists_row-select_one p xs missing) ∙ h))
    | inr (r, e) ↦ (r, e)
  ]

  -- A row that some SELECT finds is the row that a SELECT by its distinct key finds.
  pub Distinct-found :
      (key : A → String) (p : A → Bool) (xs : List A) (d : A)
      → Distinct key xs
      → select_one p xs ≡ some d
      → select_one (λ x. key x == key d) xs ≡ some d
  Distinct-found key p xs d h found =
      let (e, by_key) =
        exists_row_witness (λ x. key x == key d) xs
          (exists_row_found p (λ x. key x == key d) xs d found ((eq_iff (key d) (key d)).1 refl)) in
      by_key
      ∙ ap some (
          Distinct-select_one key _ p xs e d h by_key found
            ((eq_iff (key e) (key d)).0 (select_one_fits (λ x. key x == key d) xs e by_key)))
