-- ===== src/Lock/Read/Live.antt =====
-- What the loop over the rows of `dbms_get_locks_by_where_str` (limestone/dbms_locks.c, lines 28-103)
-- makes of them.
use mathlib.Core.Path.{subst}
use limestone.Prelude.{
  ◌≡◌, refl, sym, ◌⊎◌, inl, inr, Bool, true, false, not, ◌&&◌, ◌||◌, List, [], ◌∷◌, ◌++◌, ◌==◌, leb,
  In, Bool-cases,
}
use limestone.Lock.Read.{
  Lock, Joined, Query, Sorted, lock_of, is_expired, turns_indirect, sort_rows,
}

-- The lock is the one of the row.
pub record IsOfRow (q : Query) (row : Joined) (l : Lock) : Type 0 where
  pub same_id : l.lock_id ≡ row.lock.id
  pub same_uuid : l.uuid ≡ row.lock.uuid
  pub same_timeout : l.timeout ≡ row.lock.expires_at
  pub same_user : l.auth_user ≡ row.owner.name
  pub same_root : l.lockroot ≡ q.root_path ++ row.lock.lockroot

-- Whether the row's lock has run out.
abbrev pub has_run_out : Query → Joined → Bool
has_run_out q row = not (row.lock.expires_at == 0) && leb row.lock.expires_at q.now

lock_of_row : (q : Query) (flag : Bool) (row : Joined) → IsOfRow q row (lock_of q flag row)
unfolding lock_of
lock_of_row q flag row = record {
  same_id = refl;
  same_uuid = refl;
  same_timeout = refl;
  same_user = refl;
  same_root = refl;
}

lock_of-is_expired :
    (q : Query) (flag : Bool) (row : Joined)
    → is_expired q.now (lock_of q flag row) ≡ has_run_out q row
unfolding lock_of
lock_of-is_expired q flag row = refl

-- A lock is live, and is the one of a row of the list.
abbrev pub IsLiveOf : Query → List Joined → Lock → Type 0
IsLiveOf q rows l = (is_expired q.now l ≡ false) × ((row : Joined) × In row rows × IsOfRow q row l)

deeper :
    (q : Query) (r : Joined) (rows : List Joined) (l : Lock)
    → IsLiveOf q rows l
    → IsLiveOf q (r ∷ rows) l
deeper q r rows l (live, (row, i, o)) = (live, (row, inr i, o))

-- Every lock that the loop keeps is the live lock of a row.
pub sort_rows_sound :
    (q : Query) (flag : Bool) (rows : List Joined) (l : Lock)
    → In l (sort_rows q flag rows).locks
    → IsLiveOf q rows l
unfolding sort_rows
sort_rows_sound q flag [] l m = elim m [ ]
sort_rows_sound q flag (row ∷ rows) l m =
    let flag' = flag || turns_indirect q row in
    let below = λ (n : In l (sort_rows q flag' rows).locks).
      deeper q row rows l (sort_rows_sound q flag' rows l n) in
    elim (Bool-cases (is_expired q.now (lock_of q flag' row))) [
      | inl e ↦ below (rw e at m)
      | inr e ↦
          let m' : (l ≡ lock_of q flag' row) ⊎ In l (sort_rows q flag' rows).locks = rw e at m in
          elim m' [ inl p ↦ rw p (e, (row, inl refl, lock_of_row q flag' row)) | inr n ↦ below n ]
    ]

-- What becomes of a row: its id is noted as expired, or its lock is kept.
abbrev pub Placed : Query → Sorted → Joined → Type 0
Placed q out row =
    ((has_run_out q row ≡ true) × In row.lock.id out.expired)
    ⊎ ((l : Lock) × In l out.locks × IsOfRow q row l)

first_row-Placed :
    (q : Query) (flag : Bool) (row : Joined) (rows : List Joined)
    → Placed q (sort_rows q flag (row ∷ rows)) row
unfolding sort_rows
first_row-Placed q flag row rows =
    let flag' = flag || turns_indirect q row in
    elim (Bool-cases (is_expired q.now (lock_of q flag' row))) [
      | inl e ↦ rw e (inl (refl, inl refl))
      | inr e ↦ rw e (inr (lock_of q flag' row, inl refl, lock_of_row q flag' row))
    ]

later_row-Placed :
    (q : Query) (flag : Bool) (r : Joined) (rows : List Joined) (row : Joined)
    → Placed q (sort_rows q (flag || turns_indirect q r) rows) row
    → Placed q (sort_rows q flag (r ∷ rows)) row
unfolding sort_rows
later_row-Placed q flag r rows row (inl (e, m)) =
    elim (Bool-cases (is_expired q.now (lock_of q (flag || turns_indirect q r) r))) [
      | inl t ↦ rw t (inl (e, inr m))
      | inr t ↦ rw t (inl (e, m))
    ]
later_row-Placed q flag r rows row (inr (l, m, o)) =
    elim (Bool-cases (is_expired q.now (lock_of q (flag || turns_indirect q r) r))) [
      | inl t ↦ rw t (inr (l, m, o))
      | inr t ↦ rw t (inr (l, inr m, o))
    ]

pub sort_rows_complete :
    (q : Query) (flag : Bool) (rows : List Joined) (row : Joined)
    → In row rows
    → Placed q (sort_rows q flag rows) row
sort_rows_complete q flag [] row m = elim m [ ]
sort_rows_complete q flag (r ∷ rows) row (inl e) =
    subst (Placed q (sort_rows q flag (r ∷ rows))) (sym e) (first_row-Placed q flag r rows)
sort_rows_complete q flag (r ∷ rows) row (inr m) =
    later_row-Placed q flag r rows row
      (sort_rows_complete q (flag || turns_indirect q r) rows row m)
