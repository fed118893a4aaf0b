-- ===== src/Bind/Rows/Unique.antt =====
-- The unique constraint of the schema on binds, and what the statements of limestone/dbms_bind.c do
-- under it.
use limestone.Prelude.{
  ℕ, ◌≡◌, sym, inl, inr, true, false, none, some, List, [], ◌∷◌, Bytes, str_eq_iff, In, Bool-cases,
  arith,
}
use limestone.Store.{Bind}
use limestone.Bind.Rows.{is_at, find_bind}

-- UNIQUE (collection_id, name)
abbrev pub IsUnique : List Bind → Type 0
IsUnique [] = Unit
IsUnique (b ∷ bs) = (find_bind b.collection_id b.name bs ≡ none) × IsUnique bs

pub is_at_iff :
    (coll : ℕ) (name : Bytes) (b : Bind)
    → (is_at coll name b ≡ true)
    → (b.collection_id ≡ coll) × (b.name ≡ name)
is_at_iff coll name b h = (ground arith, (str_eq_iff b.name name).0 (ground arith))

pub is_at_self : (b : Bind) → is_at b.collection_id b.name b ≡ true
is_at_self b = ground (arith, str_eq_iff b.name b.name)

-- What is found is a row of the table, at that place.
pub find_bind_sound :
    (coll : ℕ) (name : Bytes) (bs : List Bind) {b : Bind}
    → find_bind coll name bs ≡ some b
    → In b bs × (b.collection_id ≡ coll) × (b.name ≡ name)
unfolding find_bind
find_bind_sound coll name [] e = absurd (cc)
find_bind_sound coll name (c ∷ bs) {b} e = elim (Bool-cases (is_at coll name c)) [
  | inl at ↦
      let same : c ≡ b = ground (arith, at) in
      let (p, q) = is_at_iff coll name c at in (inl (sym same), rw (← same) p, rw (← same) q)
  | inr other ↦ let (m, p, q) = find_bind_sound coll name bs (rw other at e) in (inr m, p, q)
]

-- Where nothing is found no row stands at that place.
pub find_bind-none :
    (coll : ℕ) (name : Bytes) (bs : List Bind) (b : Bind)
    → find_bind coll name bs ≡ none
    → In b bs
    → is_at coll name b ≡ false
unfolding find_bind
find_bind-none coll name [] b e m = elim m [ ]
find_bind-none coll name (c ∷ bs) b e (inl q) = rw q (ground arith)
find_bind-none coll name (c ∷ bs) b e (inr m) = find_bind-none coll name bs b (ground arith) m

-- In a table without two binds at a place, every row is found at its own.
pub find_bind_complete :
    (b : Bind) (bs : List Bind)
    → IsUnique bs
    → In b bs
    → find_bind b.collection_id b.name bs ≡ some b
unfolding find_bind
find_bind_complete b [] u m = elim m [ ]
find_bind_complete b (c ∷ bs) u (inl e) = rw e (rw (is_at_self c))
find_bind_complete b (c ∷ bs) (first, u) (inr m) =
    elim (Bool-cases (is_at b.collection_id b.name c)) [
      | inl at ↦
          let (p, q) = is_at_iff b.collection_id b.name c at in
          absurd (
            ground
              (arith, find_bind-none c.collection_id c.name bs b first m, str_eq_iff b.name c.name))
      | inr other ↦ rw other (find_bind_complete b bs u m)
    ]
