-- ===== src/Lock/Expire/Locked.antt =====
-- Which locknull resources `dbms_delete_exp_locks` (limestone/dbms_locks.c, lines 117-171) finds.
use limestone.Prelude.{
  ℕ, ◌≡◌, refl, inl, inr, ◌↔◌, Bool, true, ◌&&◌, List, [], ◌∷◌, ◌==◌, ==_iff, keep, In, In-keep,
  Bool-cases, arith,
}
use limestone.Store.{Resource, ResourceType, LockRow, Db, some_row, delete_locks}
use limestone.Store.Rows.{some_row-In, In-some_row}
use limestone.Bind.Path.{is_in}
use limestone.Bind.Path.Listed.{is_in_iff}
use limestone.Lock.Expire.{is_lock_in, is_locked_null, is_locknull}

-- A locknull resource that one of the locks is on.
abbrev pub IsNull : List ℕ → Db → Resource → Type 0
IsNull ids db r =
    In r db.resources
    × (r.kind ≡ ResourceType.locknull)
    × (l : LockRow) × In l db.locks
    × In l.id ids
    × (l.resource_id ≡ r.id)

-- A lock on the resource that is not one of them.
abbrev pub OtherLock : List ℕ → Db → ℕ → Type 0
OtherLock ids db i = (l : LockRow) × In l db.locks × ¬ (In l.id ids) × (l.resource_id ≡ i)

-- The primary key of resources.
abbrev pub HasKey : List Resource → Type 0
HasKey [] = Unit {0}
HasKey (r ∷ rs) = ((q : Resource) → In q rs → ¬ (q.id ≡ r.id)) × HasKey rs

-- The database without the locks.
abbrev pub unlocked : List ℕ → Db → Db
unlocked ids db = delete_locks (λ l. is_in ids l.id) db

is_locknull_iff : (k : ResourceType) → (is_locknull k ≡ true) ↔ (k ≡ ResourceType.locknull)
is_locknull_iff k = (to k, λ e. rw e refl)
  where
    to : (k : ResourceType) → is_locknull k ≡ true → k ≡ ResourceType.locknull
    to ResourceType.locknull e = refl
    to ResourceType.plain e = absurd (cc e)
    to ResourceType.collection e = absurd (cc e)
    to ResourceType.principal e = absurd (cc e)
    to ResourceType.user e = absurd (cc e)
    to ResourceType.group e = absurd (cc e)
    to ResourceType.redirect e = absurd (cc e)
    to ResourceType.version e = absurd (cc e)
    to ResourceType.versioned e = absurd (cc e)
    to ResourceType.version_history e = absurd (cc e)
    to ResourceType.versioned_collection e = absurd (cc e)
    to ResourceType.collection_version e = absurd (cc e)

pub IsNull-locked :
    (ids : List ℕ) (db : Db) (r : Resource) → IsNull ids db r → is_locked_null ids db r ≡ true
IsNull-locked ids db r (i, k, l, j, m, e) =
    let null : is_locknull r.kind ≡ true = (is_locknull_iff r.kind).1 k in
    let row : some_row (λ l. is_lock_in ids l && (l.resource_id == r.id)) db.locks ≡ true =
      In-some_row _ l db.locks j (
        let a : is_in ids l.id ≡ true = (is_in_iff ids l.id).1 m in
        let b : (l.resource_id == r.id) ≡ true = (==_iff l.resource_id r.id).1 e in rw a b) in
    rw null row

pub locked-IsNull :
    (ids : List ℕ) (db : Db) (r : Resource)
    → In r db.resources
    → is_locked_null ids db r ≡ true
    → IsNull ids db r
locked-IsNull ids db r i t =
    let null : is_locknull r.kind ≡ true = ground (arith, t) in
    let row : some_row (λ l. is_lock_in ids l && (l.resource_id == r.id)) db.locks ≡ true =
      rw null at t in
    let (l, j, u) = some_row-In (λ l. is_lock_in ids l && (l.resource_id == r.id)) db.locks row in
    let a : is_in ids l.id ≡ true = ground (arith, u) in
    let b : (l.resource_id == r.id) ≡ true = ground (arith, u) in
    (
      i,
      (is_locknull_iff r.kind).0 null,
      l,
      j,
      (is_in_iff ids l.id).0 a,
      (==_iff l.resource_id r.id).0 b,
    )

pub keep-HasKey : (p : Resource → Bool) (rs : List Resource) → HasKey rs → HasKey (keep p rs)
keep-HasKey p [] key = tt
keep-HasKey p (r ∷ rs) (first, key) = elim (Bool-cases (p r)) [
  | inl t ↦ rw t (λ q m. first q (In-keep p q rs m).0, keep-HasKey p rs key)
  | inr f ↦ rw f (keep-HasKey p rs key)
]
