-- ===== src/Lock/Write/Add.antt =====
-- Which rows `dbms_add_indirect_locks` (limestone/dbms_locks.c, lines 230-262) adds.
use mathlib.Core.Path.{subst}
use mathlib.Core.Option.{some-injective}
use limestone.Prelude.{
  ℕ, ◌≡◌, refl, ap, ◌∙◌, ◌⊎◌, inl, inr, ◌↔◌, false, Option, none, some, List, [], ◌∷◌, In,
  Bool-cases,
}
use limestone.Store.{LockResource, Db, Store, Result, ok, err, internal_server_error, some_row}
use limestone.Store.Laws.{update-holds}
use limestone.Lock.Write.{
  is_pair, add_lock_resources, put_rows, with_lock_resources, dbms_add_indirect_locks,
}

-- PRIMARY KEY (lock_id, resource_id)
abbrev pub HasKey : List LockResource → Type 0
HasKey [] = Unit
HasKey (r ∷ rs) = (some_row (is_pair r.lock_id r.resource_id) rs ≡ false) × HasKey rs

abbrev pub pair : ℕ → ℕ → LockResource
pair lock res = record { lock_id = lock; resource_id = res }

-- A row of the table, or one of the ids with the resource.
abbrev pub IsOldOrNew : List ℕ → ℕ → List LockResource → LockResource → Type 0
IsOldOrNew ids res old r = In r old ⊎ ((i : ℕ) × In i ids × (r ≡ pair i res))

abbrev pub Adds : List ℕ → ℕ → List LockResource → List LockResource → Type 0
Adds ids res old new =
    ((r : LockResource) → In r new ↔ IsOldOrNew ids res old r) × (HasKey old → HasKey new)

regroup_to :
    (i : ℕ) (is : List ℕ) (res : ℕ) (old : List LockResource) (r : LockResource)
    → IsOldOrNew is res (pair i res ∷ old) r
    → IsOldOrNew (i ∷ is) res old r
regroup_to i is res old r (inl (inl e)) = inr (i, inl refl, e)
regroup_to i is res old r (inl (inr m)) = inl m
regroup_to i is res old r (inr (j, m, e)) = inr (j, inr m, e)

regroup_from :
    (i : ℕ) (is : List ℕ) (res : ℕ) (old : List LockResource) (r : LockResource)
    → IsOldOrNew (i ∷ is) res old r
    → IsOldOrNew is res (pair i res ∷ old) r
regroup_from i is res old r (inl m) = inl (inr m)
regroup_from i is res old r (inr (j, inl q, e)) = inl (inl (e ∙ ap (λ k. pair k res) q))
regroup_from i is res old r (inr (j, inr m, e)) = inr (j, m, e)

add_lock_resources-Adds :
    (ids : List ℕ) (res : ℕ) (old new : List LockResource)
    → add_lock_resources ids res old ≡ some new
    → Adds ids res old new
unfolding add_lock_resources
add_lock_resources-Adds [] res old new e =
    subst (Adds [] res old) (some-injective old new e)
      ((λ r. (λ m. inl m, λ h. elim h [ inl m ↦ m | inr (i, m, q) ↦ elim m [ ] ])), λ k. k)
add_lock_resources-Adds (i ∷ is) res old new e = elim (Bool-cases (some_row (is_pair i res) old)) [
  | inl taken ↦ let e' : none ≡ some new = rw taken at e in absurd (cc e')
  | inr free ↦
      let (same, key) = add_lock_resources-Adds is res (pair i res ∷ old) new (rw free at e) in
      (
        λ r. (
          λ m. regroup_to i is res old r ((same r).0 m),
          λ h. (same r).1 (regroup_from i is res old r h),
        ),
        λ k. key (free, k),
      )
]

-- What a call comes to.
abbrev pub Added : List ℕ → ℕ → Db → Result (Unit {0}) × Store → Type 0
Added ids res db (ok _, s') = Adds ids res db.locks_resources s'.db.locks_resources
Added ids res db (err e, s') = s'.db ≡ db

put_rows-Added :
    (ids : List ℕ) (res : ℕ) (db : Db) (s' : Store) (rows : Option (List LockResource))
    → add_lock_resources ids res db.locks_resources ≡ rows
    → put_rows db rows ≡ some s'.db
    → Added ids res db (ok tt, s')
put_rows-Added ids res db s' none made e = absurd (cc e)
put_rows-Added ids res db s' (some rows) made e =
    subst (λ (d : Db). Adds ids res db.locks_resources d.locks_resources) (some-injective _ _ e)
      (add_lock_resources-Adds ids res db.locks_resources rows made)

with_lock_resources-Added :
    (ids : List ℕ) (res : ℕ) (db : Db) (s' : Store)
    → with_lock_resources ids res db ≡ some s'.db
    → Added ids res db (ok tt, s')
unfolding with_lock_resources
with_lock_resources-Added ids res db s' e =
    put_rows-Added ids res db s' (add_lock_resources ids res db.locks_resources) refl e

-- Whatever statements the DBMS refuses: adding a chain of locks to a resource without an error
-- leaves the rows that were there and one for each lock of the chain with the resource, and keeps
-- the key of the table; with an error it changes nothing.
pub add_indirect_locks-Added :
    (res : ℕ) (ids : List ℕ) (s : Store) → Added ids res s.db (dbms_add_indirect_locks res ids s)
unfolding dbms_add_indirect_locks
add_indirect_locks-Added res [] s =
    ((λ r. (λ m. inl m, λ h. elim h [ inl m ↦ m | inr (i, m, q) ↦ elim m [ ] ])), λ k. k)
add_indirect_locks-Added res (i ∷ is) s =
    update-holds (Added (i ∷ is) res s.db) internal_server_error (with_lock_resources (i ∷ is) res)
      s (λ s' e. with_lock_resources-Added (i ∷ is) res s.db s' e) (λ s' same. same)
