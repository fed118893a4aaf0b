-- ===== src/Bind/Rows/Delete.antt =====
-- Deleting a bind: limestone/dbms_bind.c, lines 277-298.
use mathlib.Core.Path.{subst}
use mathlib.Core.Option.{some-injective}
use limestone.Prelude.{
  ℕ, ◌≡◌, refl, inl, inr, ◌↔◌, Bool, true, false, not, ◌&&◌, none, some, List, [], ◌∷◌, Bytes, ◌==◌,
  str_eq_iff, keep, In, In-keep, keep-In, Bool-cases, arith,
}
use limestone.Store.{
  Bind, BindLock, Db, Store, Result, ok, err, internal_server_error, some_row, delete_binds,
}
use limestone.Store.Rows.{some_row-In, In-some_row}
use limestone.Store.Laws.{update-holds}
use limestone.Bind.Rows.{is_at, find_bind, is_bind, dbms_delete_bind}
use limestone.Bind.Rows.Unique.{IsUnique, is_at_iff, find_bind-none}

find_bind-keep-none :
    (p : Bind → Bool) (c : ℕ) (n : Bytes) (bs : List Bind)
    → find_bind c n bs ≡ none
    → find_bind c n (keep p bs) ≡ none
unfolding find_bind
find_bind-keep-none p c n [] e = refl
find_bind-keep-none p c n (x ∷ bs) e =
    let off = find_bind-none c n (x ∷ bs) x e (inl refl) in
    let rest = find_bind-keep-none p c n bs (rw off at e) in
    elim (Bool-cases (p x)) [ inl k ↦ rw k (rw off rest) | inr k ↦ rw k rest ]

keep-IsUnique : (p : Bind → Bool) (bs : List Bind) → IsUnique bs → IsUnique (keep p bs)
keep-IsUnique p [] u = tt
keep-IsUnique p (x ∷ bs) (first, u) = elim (Bool-cases (p x)) [
  | inl k ↦ rw k (find_bind-keep-none p x.collection_id x.name bs first, keep-IsUnique p bs u)
  | inr k ↦ rw k (keep-IsUnique p bs u)
]

-- What a deletion comes to.
pub record IsWithout (coll res : ℕ) (name : Bytes) (old new : Db) : Type 0 where
  pub unique : IsUnique new.binds
  pub gone :
      (b : Bind)
      → In b new.binds
        ↔ (In b old.binds × ¬ ((b.collection_id ≡ coll) × (b.name ≡ name) × (b.resource_id ≡ res)))
  pub unlocked :
      (r : BindLock)
      → In r new.binds_locks ↔ (
          In r old.binds_locks
          × ((b : Bind)
              → In b old.binds
              → b.id ≡ r.bind_id
              → ¬ ((b.collection_id ≡ coll) × (b.name ≡ name) × (b.resource_id ≡ res))))

abbrev pub Deleted : ℕ → ℕ → Bytes → Db → Result (Unit {0}) × Store → Type 0
Deleted coll res name db (ok _, s') = IsWithout coll res name db s'.db
Deleted coll res name db (err e, s') = s'.db ≡ db

is_bind_iff :
    (coll res : ℕ) (name : Bytes) (b : Bind)
    → (is_bind coll res name b ≡ true)
      ↔ ((b.collection_id ≡ coll) × (b.name ≡ name) × (b.resource_id ≡ res))
is_bind_iff coll res name b = (
  λ t.
      let at : is_at coll name b ≡ true = ground (arith, t) in
      let (p, q) = is_at_iff coll name b at in (p, q, ground (arith, t)),
  λ (p, q, r). ground (arith, p, r, (str_eq_iff b.name name).1 q),
)

not-true : (b : Bool) → not b ≡ true → ¬ (b ≡ true)
not-true b e t = cc (e, t)

true-not : (b : Bool) → ¬ (b ≡ true) → not b ≡ true
true-not true e = absurd (e refl)
true-not false e = refl

-- Whether a row of binds_locks hangs on a bind that goes.
abbrev hangs : (Bind → Bool) → List Bind → BindLock → Bool
hangs gone bs r = some_row (λ b. gone b && (b.id == r.bind_id)) bs

hangs_iff :
    (gone : Bind → Bool) (bs : List Bind) (r : BindLock)
    → (hangs gone bs r ≡ true) ↔ ((b : Bind) × In b bs × (gone b ≡ true) × (b.id ≡ r.bind_id))
hangs_iff gone bs r = (
  λ t.
      let (b, i, u) = some_row-In (λ b. gone b && (b.id == r.bind_id)) bs t in
      (b, i, ground (arith, u), ground (arith, u)),
  λ (b, i, g, e). In-some_row (λ b. gone b && (b.id == r.bind_id)) b bs i (ground (arith, g, e)),
)

delete_binds-IsWithout :
    (coll res : ℕ) (name : Bytes) (db : Db)
    → IsUnique db.binds
    → IsWithout coll res name db (delete_binds (is_bind coll res name) db)
unfolding delete_binds
delete_binds-IsWithout coll res name db u =
    let gone = is_bind coll res name in
    let spared = λ (b : Bind). not (gone b) in
    let free = λ (r : BindLock). not (hangs gone db.binds r) in
    record {
      unique = keep-IsUnique spared db.binds u;
      gone = λ b. (
        λ m.
            let (inside, kept) = In-keep spared b db.binds m in
            (inside, λ w. not-true (gone b) kept ((is_bind_iff coll res name b).1 w)),
        λ (inside, other).
            keep-In spared b db.binds inside
              (true-not (gone b) (λ t. other ((is_bind_iff coll res name b).0 t))),
      );
      unlocked = λ r. (
        λ m.
            let (inside, kept) = In-keep free r db.binds_locks m in
            (
              inside,
              λ b i e w.
                  not-true (hangs gone db.binds r) kept
                    ((hangs_iff gone db.binds r).1 (b, i, (is_bind_iff coll res name b).1 w, e)),
            ),
        λ (inside, other). keep-In free r db.binds_locks inside (
            true-not (hangs gone db.binds r) (λ t.
              let (b, i, g, e) = (hangs_iff gone db.binds r).0 t in
              other b i e ((is_bind_iff coll res name b).0 g))),
      );
    }

-- In a table without two binds at a place, whatever statements the DBMS refuses: a deletion that
-- reports no error leaves exactly the binds that are not of that name in that collection to that
-- resource, and exactly the rows of binds_locks that do not name one of those, and no place has two
-- binds; one that reports an error has changed nothing.
pub delete_bind-Deleted :
    (coll res : ℕ) (name : Bytes) (s : Store)
    → IsUnique s.db.binds
    → Deleted coll res name s.db (dbms_delete_bind coll res name s)
unfolding dbms_delete_bind
delete_bind-Deleted coll res name s u =
    let f = delete_binds (is_bind coll res name) in
    update-holds (Deleted coll res name s.db) internal_server_error (λ db. some (f db)) s
      (λ s' e.
        subst (IsWithout coll res name s.db) (some-injective (f s.db) s'.db e)
          (delete_binds-IsWithout coll res name s.db u))
      (λ s' same. same)
