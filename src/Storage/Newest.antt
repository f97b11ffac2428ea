-- ===== src/Storage/Newest.antt =====
-- ORDER BY ... DESC of src/storage/sqlite.rs: lists in an order, and the sort of the queries.
use telegraph_center.Base.{
  ℕ, zero, suc, ◌≡◌, sym, subst, Bool, true, false, List, [], ◌∷◌, arith, take, map, if◌then◌else◌,
  Bool-cases, inl, inr,
}
use telegraph_center.Base.Table.{sort_by, insert_by}
use telegraph_center.Retry.{Time}
use telegraph_center.Storage.Rows.{RecordingRow}
use telegraph_center.Storage.ReadModels.{is_newer}

module _ {A : Type 0} (R : A → A → Type 0) where
  abbrev pub Follows : A → List A → Type 0
  Follows x [] = Unit {0}
  Follows x (y ∷ ys) = R x y

  -- Each element is in the relation to the next one.
  abbrev pub Descends : List A → Type 0
  Descends [] = Unit {0}
  Descends (x ∷ xs) = Follows x xs × Descends xs

  Follows-take : (x : A) (n : ℕ) (xs : List A) → Follows x xs → Follows x (take n xs)
  Follows-take x zero xs f = tt
  Follows-take x (suc n) [] f = tt
  Follows-take x (suc n) (y ∷ ys) f = f

  pub Descends-take : (n : ℕ) (xs : List A) → Descends xs → Descends (take n xs)
  Descends-take zero xs h = tt
  Descends-take (suc n) [] h = tt
  Descends-take (suc n) (x ∷ xs) (f, h) = (Follows-take x n xs f, Descends-take n xs h)

module _ {A B : Type 0} (R : A → A → Type 0) (S : B → B → Type 0) (f : A → B)
    (weaker : (x y : A) → R x y → S (f x) (f y)) where
  Follows-map : (x : A) (xs : List A) → Follows R x xs → Follows S (f x) (map f xs)
  Follows-map x [] h = tt
  Follows-map x (y ∷ ys) h = weaker x y h

  pub Descends-map : (xs : List A) → Descends R xs → Descends S (map f xs)
  Descends-map [] h = tt
  Descends-map (x ∷ xs) (first, h) = (Follows-map x xs first, Descends-map xs h)

module _ {A : Type 0} (before : A → A → Bool)
    (asym : (x y : A) → before x y ≡ true → before y x ≡ false) where
  abbrev pub InOrder : A → A → Type 0
  InOrder x y = before y x ≡ false

  Follows-insert_by :
      (y x : A) (ys : List A)
      → InOrder y x
      → Follows InOrder y ys
      → Follows InOrder y (insert_by before x ys)
  unfolding insert_by
  Follows-insert_by y x [] p f = p
  Follows-insert_by y x (z ∷ zs) p f = elim (Bool-cases (before z x)) [
    | inl first ↦
        subst (λ b. Follows InOrder y (if b then z ∷ insert_by before x zs else x ∷ z ∷ zs))
          (sym first) f
    | inr last ↦
        subst (λ b. Follows InOrder y (if b then z ∷ insert_by before x zs else x ∷ z ∷ zs))
          (sym last) p
  ]

  Descends-insert_by :
      (x : A) (xs : List A) → Descends InOrder xs → Descends InOrder (insert_by before x xs)
  unfolding insert_by
  Descends-insert_by x [] h = (tt, tt)
  Descends-insert_by x (y ∷ ys) (f, h) = elim (Bool-cases (before y x)) [
    | inl first ↦
        subst (λ b. Descends InOrder (if b then y ∷ insert_by before x ys else x ∷ y ∷ ys))
          (sym first) (Follows-insert_by y x ys (asym y x first) f, Descends-insert_by x ys h)
    | inr last ↦
        subst (λ b. Descends InOrder (if b then y ∷ insert_by before x ys else x ∷ y ∷ ys))
          (sym last) (last, (f, h))
  ]

  pub Descends-sort_by : (xs : List A) → Descends InOrder (sort_by before xs)
  unfolding sort_by
  Descends-sort_by [] = tt
  Descends-sort_by (x ∷ xs) = Descends-insert_by x (sort_by before xs) (Descends-sort_by xs)

module _ (text_before : Time → Time → Bool) where
  pub is_newer_asym :
      ((a b : Time) → text_before a b ≡ true → text_before b a ≡ false)
      → (x y : RecordingRow) → is_newer text_before x y ≡ true
      → is_newer text_before y x ≡ false
  unfolding is_newer
  is_newer_asym asym x y e = ground (
    arith,
    asym x.received_at y.received_at,
    asym y.received_at x.received_at,
    asym y.created_at x.created_at,
  )

  pub is_newer_received :
      (x y : RecordingRow)
      → is_newer text_before y x ≡ false
      → text_before x.received_at y.received_at ≡ false
  unfolding is_newer
  is_newer_received x y e = ground (arith, e)
