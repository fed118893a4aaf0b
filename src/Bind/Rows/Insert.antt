-- ===== src/Bind/Rows/Insert.antt =====
-- Inserting a bind: limestone/dbms_bind.c, lines 299-378.
use mathlib.Core.Path.{subst}
use mathlib.Core.Option.{some-injective}
use limestone.Prelude.{
  ℕ, ◌≡◌, refl, ap, inl, inr, true, false, none, some, List, [], ◌∷◌, ◌++◌, Bytes, Bool-cases,
  Option-cases,
}
use limestone.Store.{Bind, Db, Store, Result, ok, err, internal_server_error}
use limestone.Store.Laws.{update-holds}
use limestone.Bind.Rows.{is_at, find_bind, placed, new_bind, dbms_insert_bind}
use limestone.Bind.Rows.Unique.{IsUnique, is_at_iff, is_at_self, find_bind-none}

-- The row that an insertion writes.
abbrev pub row_of : ℕ → ℕ → ℕ → ℕ → Bytes → Bind
row_of id now res coll name = record {
  id = id;
  name = name;
  collection_id = coll;
  resource_id = res;
  updated_at = now;
}

-- A place is free in a longer table if it is free in the table and is not that of the new row.
find_bind-append-none :
    (c : ℕ) (n : Bytes) (bs : List Bind) (b : Bind)
    → find_bind c n bs ≡ none
    → is_at c n b ≡ false
    → find_bind c n (bs ++ (b ∷ [])) ≡ none
unfolding find_bind
find_bind-append-none c n [] b e other = rw other refl
find_bind-append-none c n (x ∷ bs) b e other = elim (Bool-cases (is_at c n x)) [
  | inl at ↦ let e' : some x ≡ none = rw at at e in absurd (cc e')
  | inr off ↦ rw off (find_bind-append-none c n bs b (rw off at e) other)
]

-- A row that is found stays found.
find_bind-append-some :
    (c : ℕ) (n : Bytes) (bs : List Bind) (b : Bind) {x : Bind}
    → find_bind c n bs ≡ some x
    → find_bind c n (bs ++ (b ∷ [])) ≡ some x
unfolding find_bind
find_bind-append-some c n [] b e = absurd (cc e)
find_bind-append-some c n (y ∷ bs) b {x} e = elim (Bool-cases (is_at c n y)) [
  | inl at ↦ let e' : some y ≡ some x = rw at at e in rw at e'
  | inr off ↦ rw off (find_bind-append-some c n bs b (rw off at e))
]

-- The new row is found where its place was free.
find_bind-append-new :
    (bs : List Bind) (b : Bind)
    → find_bind b.collection_id b.name bs ≡ none
    → find_bind b.collection_id b.name (bs ++ (b ∷ [])) ≡ some b
unfolding find_bind
find_bind-append-new [] b e = rw (is_at_self b) refl
find_bind-append-new (x ∷ bs) b e = elim (Bool-cases (is_at b.collection_id b.name x)) [
  | inl at ↦ let e' : some x ≡ none = rw at at e in absurd (cc e')
  | inr off ↦ rw off (find_bind-append-new bs b (rw off at e))
]

is_at_sym :
    (x b : Bind) → is_at b.collection_id b.name x ≡ false → is_at x.collection_id x.name b ≡ false
is_at_sym x b off = elim (Bool-cases (is_at x.collection_id x.name b)) [
  | inl at ↦
      let (p, q) = is_at_iff x.collection_id x.name b at in
      let at' : is_at b.collection_id b.name x ≡ true = rw p (rw q (is_at_self x)) in
      absurd (cc (off, at'))
  | inr e ↦ e
]

append-IsUnique :
    (bs : List Bind) (b : Bind)
    → IsUnique bs
    → find_bind b.collection_id b.name bs ≡ none
    → IsUnique (bs ++ (b ∷ []))
unfolding find_bind
append-IsUnique [] b u free = (refl, tt)
append-IsUnique (x ∷ bs) b (first, u) free =
    let off = find_bind-none b.collection_id b.name (x ∷ bs) x free (inl refl) in
    (
      find_bind-append-none x.collection_id x.name bs b first (is_at_sym x b off),
      append-IsUnique bs b u (rw off at free),
    )

-- What an insertion comes to: the row is found at its place, every row that was found before still
-- is, and no place has two; or the table is as it was.
abbrev pub Inserted : ℕ → ℕ → ℕ → Bytes → Db → Result (Unit {0}) × Store → Type 0
Inserted now res coll name db (ok _, s') =
    IsUnique s'.db.binds
    × (find_bind coll name s'.db.binds ≡ some (row_of db.binds_id_seq now res coll name))
    × ((c : ℕ) (n : Bytes) (b : Bind)
        → find_bind c n db.binds ≡ some b
        → find_bind c n s'.db.binds ≡ some b)
Inserted now res coll name db (err e, s') = s'.db ≡ db

inserted :
    (now res coll : ℕ) (name : Bytes) (db : Db) (s' : Store)
    → IsUnique db.binds
    → new_bind now res coll name db ≡ some s'.db
    → Inserted now res coll name db (ok tt, s')
inserted now res coll name db s' u e = elim (Option-cases (find_bind coll name db.binds)) [
  | inl free ↦
      let b = row_of db.binds_id_seq now res coll name in
      let e' = subst (λ o. placed now res coll name db o ≡ some s'.db) free e in
      let rows : db.binds ++ (b ∷ []) ≡ s'.db.binds =
        ap (λ (d : Db). d.binds) (some-injective _ _ e') in
      rw (← rows) (
        append-IsUnique db.binds b u free,
        find_bind-append-new db.binds b free,
        λ c n x f. find_bind-append-some c n db.binds b f,
      )
  | inr (x, taken) ↦
      let e' = subst (λ o. placed now res coll name db o ≡ some s'.db) taken e in absurd (cc e')
]

-- In a table without two binds at a place, whatever statements the DBMS refuses: an insertion that
-- reports no error has put the bind at its place, has kept all others, and no place has two; one
-- that reports an error has changed nothing.
pub insert_bind-Inserted :
    (now res coll : ℕ) (name : Bytes) (s : Store)
    → IsUnique s.db.binds
    → Inserted now res coll name s.db (dbms_insert_bind now res coll (some name) s)
unfolding dbms_insert_bind
insert_bind-Inserted now res coll name s u =
    update-holds (Inserted now res coll name s.db) internal_server_error
      (new_bind now res coll name) s (λ s' e. inserted now res coll name s.db s' u e)
      (λ s' same. same)
