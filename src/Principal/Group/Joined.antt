-- ===== src/Principal/Group/Joined.antt =====
-- The rows that the INSERT joins: limestone/dbms_principal.c, lines 565-590.
use limestone.Prelude.{
  ℕ, pos, is_positive, int_eq, ◌≡◌, refl, sym, ap, ◌⊎◌, inl, inr, true, ◌&&◌, List, [], ◌∷◌, map,
  ◌==◌, keep, In, In-keep, keep-In, In-append, append-In, Bool-cases, arith,
}
use limestone.Store.{TransitiveMember, some_row}
use limestone.Store.Rows.{some_row-In, In-map, map-In}
use limestone.Principal.Group.{
  is_key, Counted, up_of, down_of, union_self, ups, downs, joined_row, cross_join, has_key,
}

-- What a subquery's rows are.
pub In-ups :
    (g : ℕ) (ts : List TransitiveMember) (c : Counted)
    → In c (ups g ts)
    → (r : TransitiveMember) × In r ts × (is_key c.id g r ≡ true) × (c.paths ≡ r.transitive_count)
In-ups g ts c m =
    let p = λ (r : TransitiveMember). r.transitive_member_id == g in
    let (r, i, e) = In-map up_of c (keep p ts) m in
    let (j, t) = In-keep p r ts i in
    let same : r.transitive_group_id ≡ c.id = sym (ap (λ (k : Counted). k.id) e) in
    (r, j, ground (arith, same, t), ap (λ (k : Counted). k.paths) e)

pub In-downs :
    (g : ℕ) (ts : List TransitiveMember) (c : Counted)
    → In c (downs g ts)
    → (r : TransitiveMember) × In r ts × (is_key g c.id r ≡ true) × (c.paths ≡ r.transitive_count)
In-downs g ts c m =
    let p = λ (r : TransitiveMember). r.transitive_group_id == g in
    let (r, i, e) = In-map down_of c (keep p ts) m in
    let (j, t) = In-keep p r ts i in
    let same : r.transitive_member_id ≡ c.id = sym (ap (λ (k : Counted). k.id) e) in
    (r, j, ground (arith, same, t), ap (λ (k : Counted). k.paths) e)

pub ups-In :
    (x g : ℕ) (ts : List TransitiveMember)
    → has_key x g ts ≡ true
    → (c : Counted) × In c (ups g ts) × (c.id ≡ x)
ups-In x g ts h =
    let (r, i, t) = some_row-In (is_key x g) ts h in
    let p = λ (r : TransitiveMember). r.transitive_member_id == g in
    let kept = keep-In p r ts i (ground (arith, t)) in
    (up_of r, map-In up_of r (keep p ts) kept, ground (arith, t))

pub downs-In :
    (x g : ℕ) (ts : List TransitiveMember)
    → has_key g x ts ≡ true
    → (c : Counted) × In c (downs g ts) × (c.id ≡ x)
downs-In x g ts h =
    let (r, i, t) = some_row-In (is_key g x) ts h in
    let p = λ (r : TransitiveMember). r.transitive_group_id == g in
    let kept = keep-In p r ts i (ground (arith, t)) in
    (down_of r, map-In down_of r (keep p ts) kept, ground (arith, t))

-- UNION (SELECT ?, 1) has the id and the rows, and nothing else.
pub In-union_self :
    (id : ℕ) (cs : List Counted) (c : Counted)
    → In c (union_self id cs)
    → ((c.id ≡ id) × (is_positive c.paths ≡ true)) ⊎ In c cs
In-union_self id cs c m =
    elim (Bool-cases (some_row (λ c. (c.id == id) && int_eq c.paths (pos 1)) cs)) [
      | inl e ↦ inr (rw e at m)
      | inr e ↦
          let m' : (c ≡ record { id = id; paths = pos 1 }) ⊎ In c cs = rw e at m in
          elim m' [ inl q ↦ inl (rw q refl, rw q refl) | inr i ↦ inr i ]
    ]

pub union_self-In : (id : ℕ) (cs : List Counted) (c : Counted) → In c cs → In c (union_self id cs)
union_self-In id cs c m =
    elim (Bool-cases (some_row (λ c. (c.id == id) && int_eq c.paths (pos 1)) cs)) [
      | inl e ↦ rw e m
      | inr e ↦ rw e (inr m)
    ]

pub union_self_self :
    (id : ℕ) (cs : List Counted) → (c : Counted) × In c (union_self id cs) × (c.id ≡ id)
union_self_self id cs =
    elim (Bool-cases (some_row (λ c. (c.id == id) && int_eq c.paths (pos 1)) cs)) [
      | inl e ↦
          let (c, i, t) = some_row-In (λ c. (c.id == id) && int_eq c.paths (pos 1)) cs e in
          (c, rw e i, ground (arith, t))
      | inr e ↦ (record { id = id; paths = pos 1 }, rw e (inl refl), refl)
    ]

pub In-cross_join :
    (r : TransitiveMember) (gs ms : List Counted)
    → In r (cross_join gs ms)
    → (g : Counted) × (m : Counted) × (In g gs × In m ms × (r ≡ joined_row g m))
In-cross_join r [] ms i = elim i [ ]
In-cross_join r (g ∷ gs) ms i = elim (In-append r (map (joined_row g) ms) (cross_join gs ms) i) [
  | inl here ↦ let (m, j, e) = In-map (joined_row g) r ms here in (g, m, (inl refl, j, e))
  | inr there ↦ let (h, m, (j, k, e)) = In-cross_join r gs ms there in (h, m, (inr j, k, e))
]

pub cross_join-In :
    (g m : Counted) (gs ms : List Counted)
    → In g gs
    → In m ms
    → In (joined_row g m) (cross_join gs ms)
cross_join-In g m [] ms i j = elim i [ ]
cross_join-In g m (h ∷ gs) ms (inl q) j =
    append-In (joined_row g m) (map (joined_row h) ms) (cross_join gs ms)
      (inl (rw q (map-In (joined_row h) m ms j)))
cross_join-In g m (h ∷ gs) ms (inr i) j =
    append-In (joined_row g m) (map (joined_row h) ms) (cross_join gs ms)
      (inr (cross_join-In g m gs ms i j))
