-- ===== src/Tests/Locks.antt =====
-- The locks of the small server.
use limestone.Prelude.{
  ℕ, ◌≡◌, refl, sym, ap, ◌∙◌, inl, inr, ◌↔◌, Bool, false, [], ◌∷◌, ◌++◌, Bytes, codes, In, ◌==◌,
  arith,
}
use limestone.Store.{Resource, Db, LockRow, ok, quiet}
use limestone.Lock.Expire.{dbms_delete_exp_locks}
use limestone.Lock.Expire.Locked.{HasKey}
use limestone.Lock.Expire.Null.{Expires, delete_exp_locks-Expires}
use limestone.Lock.Read.{Query, Joined, join_rows, dbms_get_locks_by_where_str}
use limestone.Lock.Read.Where.{selected_rows}
use limestone.Lock.Read.Sticky.{ReadsIndirect, get_locks_sticky}
use limestone.Lock.Write.{dbms_add_indirect_locks, dbms_remove_direct_locks_w_prefix}
use limestone.Lock.Write.Add.{Added, add_indirect_locks-Added}
use limestone.Lock.Write.Prefix.{IsLiteral, remove_direct_locks_w_prefix-Removes}
use limestone.Tests.Data.{lock_on, owner, sample_db, null_db}

abbrev about_b : Query
about_b = record { serialno = 4; root_path = codes "/r"; resolve_indirect = false; now = 40 }

abbrev on_b : Db → Joined → Bool
on_b db row = row.resource_id == 4

null_db-HasKey : HasKey null_db.resources
null_db-HasKey = (
  λ q m e. elim m [
    | inl p ↦ let n : ◌≡◌ {A = ℕ} 8 7 = sym (ap (λ (r : Resource). r.id) p) ∙ e in ground (arith, n)
    | inr o ↦ elim o [ ]
  ],
  ((λ q m e. elim m [ ]), tt),
)

-- Both resources are held by locks that have run out, and neither is deleted.
delete_exp_locks_example :
    Expires (20 ∷ 21 ∷ []) null_db (dbms_delete_exp_locks (20 ∷ 21 ∷ []) (quiet null_db))
delete_exp_locks_example = delete_exp_locks-Expires (20 ∷ 21 ∷ []) null_db null_db-HasKey

letter_a : IsLiteral (codes "/a")
letter_a = (
  (λ e. ground arith),
  (λ e. ground arith),
  (λ e. ground arith),
  ((λ e. ground arith), (λ e. ground arith), (λ e. ground arith), tt),
)

-- Removing the locks below /a meets the one on /ab.
abbrev lock_ab : LockRow
lock_ab = lock_on 21 (codes "v") 6 (codes "/ab") 30

remove_direct_locks_example :
    let (r, s') = dbms_remove_direct_locks_w_prefix (codes "/a") (quiet sample_db) in
    (r ≡ ok tt)
    × (In lock_ab s'.db.locks
        ↔ (In lock_ab sample_db.locks × ¬ ((rest : Bytes) × (codes "/ab" ≡ codes "/a" ++ rest))))
remove_direct_locks_example =
    remove_direct_locks_w_prefix-Removes sample_db (codes "/a") lock_ab letter_a

-- The lock on /ab comes first among the rows of b, and so the one on b itself is called indirect.
abbrev swapped_db : Db
swapped_db = record sample_db {
  locks_resources =
      record { lock_id = 21; resource_id = 4 } ∷ record { lock_id = 20; resource_id = 4 } ∷ [];
}

abbrev foreign_row : Joined
foreign_row = record { resource_id = 4; lock = lock_ab; owner = owner }

abbrev own_row : Joined
own_row = record {
  resource_id = 4;
  lock = lock_on 20 (codes "u") 4 (codes "/a/b") 0;
  owner = owner;
}

swapped_rows : selected_rows on_b swapped_db ≡ foreign_row ∷ own_row ∷ []
unfolding join_rows
swapped_rows = refl

get_locks_sticky_example :
    ReadsIndirect (dbms_get_locks_by_where_str about_b on_b (quiet swapped_db)).0
get_locks_sticky_example =
    get_locks_sticky about_b on_b (quiet swapped_db) foreign_row (own_row ∷ []) refl swapped_rows
      (λ e. ground arith)

add_indirect_locks_example :
    Added (22 ∷ 23 ∷ []) 4 sample_db (dbms_add_indirect_locks 4 (22 ∷ 23 ∷ []) (quiet sample_db))
add_indirect_locks_example = add_indirect_locks-Added 4 (22 ∷ 23 ∷ []) (quiet sample_db)
