-- ===== src/Lock/Read/Sticky.antt =====
-- The flag `indirect` of `dbms_get_locks_by_where_str` (limestone/dbms_locks.c, lines 37 and 68-70).
use mathlib.Core.Path.{subst}
use limestone.Prelude.{
  ◌≡◌, ◌≢◌, refl, sym, inl, inr, Bool, true, false, ◌||◌, List, [], ◌∷◌, Bool-cases, arith,
}
use limestone.Store.{Db, Store, Result, ok, err}
use limestone.Lock.Read.{
  Lock, indirect, Joined, Query, Sorted, add_lock, lock_of, is_expired, turns_indirect, sort_rows,
  dbms_get_locks_by_where_str,
}
use limestone.Lock.Read.Where.{selected_rows, get_locks_by_where_str-case}

-- The locks are all reported as indirect ones of depth 0.
abbrev pub AreIndirect : List Lock → Type 0
AreIndirect [] = Unit
AreIndirect (l ∷ ls) = (l.rectype ≡ indirect) × (l.infinite ≡ false) × AreIndirect ls

abbrev pub ReadsIndirect : Result (List Lock) → Type 0
ReadsIndirect (ok ls) = AreIndirect ls
ReadsIndirect (err e) = Unit

add_lock-AreIndirect :
    (q : Query) (row : Joined) (out : Sorted)
    → q.resolve_indirect ≡ false
    → AreIndirect out.locks
    → AreIndirect (add_lock q.now (lock_of q true row) out).locks
unfolding lock_of
add_lock-AreIndirect q row out off rest =
    elim (Bool-cases (is_expired q.now (lock_of q true row))) [
      | inl e ↦ rw e rest
      | inr e ↦ rw e (rw off refl, rw off refl, rest)
    ]

sort_rows-AreIndirect :
    (q : Query) (rows : List Joined)
    → q.resolve_indirect ≡ false
    → AreIndirect (sort_rows q true rows).locks
unfolding sort_rows
sort_rows-AreIndirect q [] off = tt
sort_rows-AreIndirect q (row ∷ rows) off =
    add_lock-AreIndirect q row (sort_rows q true rows) off (sort_rows-AreIndirect q rows off)

sort_rows_sticky :
    (q : Query) (flag : Bool) (row : Joined) (rows : List Joined)
    → q.resolve_indirect ≡ false
    → row.lock.resource_id ≢ q.serialno
    → AreIndirect (sort_rows q flag (row ∷ rows)).locks
unfolding sort_rows
sort_rows_sticky q flag row rows off other =
    let set : (flag || turns_indirect q row) ≡ true = ground (arith, other) in
    rw set
      (add_lock-AreIndirect q row (sort_rows q true rows) off (sort_rows-AreIndirect q rows off))

-- Where the first selected row is a lock of another resource, and indirect locks are not resolved,
-- every lock that is returned is reported as indirect and of depth 0, also those whose lock root is
-- the resource itself.
pub get_locks_sticky :
    (q : Query) (condition : Db → Joined → Bool) (s : Store) (row : Joined) (rows : List Joined)
    → q.resolve_indirect ≡ false
    → selected_rows condition s.db ≡ row ∷ rows
    → row.lock.resource_id ≢ q.serialno
    → ReadsIndirect (dbms_get_locks_by_where_str q condition s).0
get_locks_sticky q condition s row rows off first other =
    let (s', ended) = get_locks_by_where_str-case q condition s in
    elim ended [
      | inl e ↦ rw e tt
      | inr e ↦ rw e (
          subst (λ l. AreIndirect (sort_rows q false l).locks) (sym first)
            (sort_rows_sticky q false row rows off other))
    ]
