-- ===== src/Store/Rows.antt =====
-- Tests on the rows of a table, and rows computed from others.
use limestone.Prelude.{◌≡◌, refl, inl, inr, Bool, true, false, List, [], ◌∷◌, map, In, Bool-cases}
use limestone.Store.Cascade.{some_row}

module _ {A : Type 0} where
  -- A row that passes the test.
  pub some_row-In :
      (p : A → Bool) (l : List A) → some_row p l ≡ true → (x : A) × In x l × (p x ≡ true)
  unfolding some_row
  some_row-In p [] h = absurd (cc h)
  some_row-In p (y ∷ l) h = elim (Bool-cases (p y)) [
    | inl e ↦ (y, inl refl, e)
    | inr e ↦ let (x, m, t) = some_row-In p l (rw e at h) in (x, inr m, t)
  ]

  pub In-some_row : (p : A → Bool) (x : A) (l : List A) → In x l → p x ≡ true → some_row p l ≡ true
  unfolding some_row
  In-some_row p x [] m t = elim m [ ]
  In-some_row p x (y ∷ l) (inl q) t = let e : p y ≡ true = rw q at t in rw e refl
  In-some_row p x (y ∷ l) (inr m) t = elim (Bool-cases (p y)) [
    | inl e ↦ rw e refl
    | inr e ↦ rw e (In-some_row p x l m t)
  ]

  pub none_row : (p : A → Bool) (x : A) (l : List A) → some_row p l ≡ false → In x l → p x ≡ false
  none_row p x l h m = elim (Bool-cases (p x)) [
    | inl t ↦ let e = In-some_row p x l m t in absurd (cc (e, h))
    | inr e ↦ e
  ]

module _ {A B : Type 0} where
  pub In-map : (f : A → B) (y : B) (l : List A) → In y (map f l) → (x : A) × In x l × (y ≡ f x)
  In-map f y [] m = elim m [ ]
  In-map f y (x ∷ l) (inl q) = (x, inl refl, q)
  In-map f y (x ∷ l) (inr m) = let (z, n, e) = In-map f y l m in (z, inr n, e)

  pub map-In : (f : A → B) (x : A) (l : List A) → In x l → In (f x) (map f l)
  map-In f x [] m = elim m [ ]
  map-In f x (y ∷ l) (inl q) = inl (rw q refl)
  map-In f x (y ∷ l) (inr m) = inr (map-In f x l m)
