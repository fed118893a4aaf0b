-- ===== src/Lock/Expire/Null.antt =====
-- How `dbms_delete_exp_locks` (limestone/dbms_locks.c, lines 117-171) ends on a DBMS that refuses nothing.
use limestone.Prelude.{
  ℕ, ◌≡◌, refl, ◌⊎◌, inl, inr, ◌↔◌, true, not, List, [], ◌∷◌, ◌==◌, ==_iff, map, keep, In, In-keep,
  keep-In, Bool-cases,
}
use limestone.Store.{
  Resource, LockRow, Db, Store, Result, quiet, ok, err, internal_server_error, select, update,
  some_row, delete_locks, delete_resources,
}
use limestone.Store.Rows.{some_row-In, In-some_row}
use limestone.Bind.Path.{is_in}
use limestone.Lock.Expire.{
  absent, comma_first, locknull_text, is_locked_null, locknull_ids, without_unlocked,
  delete_locknulls, dbms_delete_exp_locks,
}
use limestone.Bind.Path.Listed.{is_in_iff}
use limestone.Lock.Expire.Locked.{
  IsNull, OtherLock, HasKey, unlocked, IsNull-locked, locked-IsNull, keep-HasKey,
}

-- How the call ends for the only locknull resource.
abbrev pub Goes : List ℕ → Db → ℕ → Result (Unit {0}) × Store → Type 0
Goes ids db i res =
    (OtherLock ids db i × (res ≡ (ok tt, quiet (unlocked ids db))))
    ⊎ (¬ OtherLock ids db i
        × (res ≡ (ok tt, quiet (delete_resources (λ j. j == i) (unlocked ids db)))))

abbrev pub Expires : List ℕ → Db → Result (Unit {0}) × Store → Type 0
Expires ids db res =
    (((r : Resource) → ¬ IsNull ids db r) × (res ≡ (ok tt, quiet (unlocked ids db))))
    ⊎ ((x : Resource) × IsNull ids db x
        × ((r : Resource) → IsNull ids db r → r ≡ x)
        × Goes ids db x.id res)
    ⊎ ((x y : Resource) × IsNull ids db x
        × IsNull ids db y
        × ¬ (x.id ≡ y.id)
        × (res ≡ (err internal_server_error, quiet (unlocked ids db))))

comma_first-text :
    (i : ℕ) (is : List ℕ) → (j : ℕ) × (locknull_text (comma_first i) is ≡ comma_first j)
unfolding locknull_text
comma_first-text i [] = (i, refl)
comma_first-text i (j ∷ is) = comma_first-text j is

-- The last statement for one resource.
left_lock :
    (ids : List ℕ) (db : Db) (i : ℕ)
    → (some_row (λ (l : LockRow). l.resource_id == i) (unlocked ids db).locks ≡ true)
      ↔ OtherLock ids db i
unfolding delete_locks
left_lock ids db i = (
  λ t.
      let (l, m, e) = some_row-In (λ (l : LockRow). l.resource_id == i) _ t in
      let (inside, out) = In-keep (λ (l : LockRow). not (is_in ids l.id)) l db.locks m in
      (
        l,
        inside,
        λ n. let a : is_in ids l.id ≡ true = (is_in_iff ids l.id).1 n in absurd (cc (a, out)),
        (==_iff l.resource_id i).0 e,
      ),
  λ (l, m, out, e).
      In-some_row (λ (l : LockRow). l.resource_id == i) l _
        (keep-In (λ (l : LockRow). not (is_in ids l.id)) l db.locks m
          (elim (Bool-cases (is_in ids l.id)) [
            | inl t ↦ absurd (out ((is_in_iff ids l.id).0 t))
            | inr f ↦ rw f refl
          ]))
        ((==_iff l.resource_id i).1 e),
)

ends_one :
    (ids : List ℕ) (db : Db) (i : ℕ)
    → Goes ids db i (ok tt, quiet (without_unlocked i (unlocked ids db)))
ends_one ids db i =
    elim (Bool-cases (some_row (λ (l : LockRow). l.resource_id == i) (unlocked ids db).locks)) [
      | inl t ↦ inl ((left_lock ids db i).0 t, rw t refl)
      | inr f ↦ inr (λ o. let t = (left_lock ids db i).1 o in absurd (cc (t, f)), rw f refl)
    ]

abbrev run : List ℕ → Db → List ℕ → Result (Unit {0}) × Store
run ids db nulls = delete_locknulls (locknull_text absent nulls) (quiet (unlocked ids db))

ends :
    (ids : List ℕ) (db : Db) (rs : List Resource)
    → keep (is_locked_null ids db) db.resources ≡ rs
    → HasKey rs
    → Expires ids db (run ids db (map (λ (r : Resource). r.id) rs))
unfolding delete_locknulls locknull_text update
ends ids db [] e key = inl (
  λ r n.
      let m = keep-In (is_locked_null ids db) r db.resources n.0 (IsNull-locked ids db r n) in
      let past : In r [] = rw e at m in elim past [ ],
  refl,
)
ends ids db (x ∷ []) e key =
    let null = λ (r : Resource) (m : In r (x ∷ [])).
      let m' : In r (keep (is_locked_null ids db) db.resources) = rw e m in
      let (i, t) = In-keep (is_locked_null ids db) r db.resources m' in
      locked-IsNull ids db r i t in
    inr (
      inl (
        x,
        null x (inl refl),
        λ r n.
            let m = keep-In (is_locked_null ids db) r db.resources n.0 (IsNull-locked ids db r n) in
            let here : In r (x ∷ []) = rw e at m in
            elim here [ inl q ↦ q | inr past ↦ elim past [ ] ],
        ends_one ids db x.id,
      ))
ends ids db (x ∷ y ∷ rs) e (first, key) =
    let null = λ (r : Resource) (m : In r (x ∷ y ∷ rs)).
      let m' : In r (keep (is_locked_null ids db) db.resources) = rw e m in
      let (i, t) = In-keep (is_locked_null ids db) r db.resources m' in
      locked-IsNull ids db r i t in
    let (k, text) = comma_first-text y.id (map (λ (r : Resource). r.id) rs) in
    inr (
      inr (
        x,
        y,
        null x (inl refl),
        null y (inr (inl refl)),
        (λ q. first y (inl refl) (rw q refl)),
        rw text refl,
      ))

-- With the ids of the locks, on a DBMS that refuses nothing and a table whose key holds, the call
-- deletes the rows of the locks with what hangs on them, and ends in one of three ways. If they are on no
-- locknull resource, nothing else happens. If they are on one, it is deleted with what refers to it,
-- unless a lock that is not one of them is on it. If they are on two or more, the call ends with
-- the error 500 and deletes none of these.
pub delete_exp_locks-Expires :
    (ids : List ℕ) (db : Db)
    → HasKey db.resources
    → Expires ids db (dbms_delete_exp_locks ids (quiet db))
unfolding dbms_delete_exp_locks select update locknull_ids
delete_exp_locks-Expires ids db key =
    let rs = keep (is_locked_null ids db) db.resources in
    ends ids db rs refl (keep-HasKey (is_locked_null ids db) db.resources key)
