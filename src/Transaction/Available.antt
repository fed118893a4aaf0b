-- ===== src/Transaction/Available.antt =====
-- The quotas of principals: limestone/dbms_quota.c, lines 23-77.
use limestone.Prelude.{
  ℕ, ◌-◌, ◌≡◌, refl, ap, inl, inr, Bool, true, false, Option, none, some, List, [], ◌∷◌, ◌++◌, ◌==◌,
  leb, ℤ, pos, minus, Bool-cases, arith,
}
use limestone.Store.{
  Quota, Principal, Db, M, ok, quiet, internal_server_error, pure, fail, ◌>>=◌, ◌>>◌, select,
  update, some_row,
}
use limestone.Bind.Rows.{first_row}

abbrev pub new_quota : ℕ → ℕ → Quota
new_quota principal total = record { principal_id = principal; used_quota = 0; total_quota = total }

abbrev pub allowed : Bool → Bool → Quota → Db → Option Db
allowed true false q db = some (record db { quota = db.quota ++ (q ∷ []) })
allowed _ _ q db = none

-- The schema wants a principal, and no second row for it.
unfoldable pub with_quota : ℕ → ℕ → Db → Option Db
unfolding some_row
with_quota principal total db =
    allowed (some_row (λ (p : Principal). p.resource_id == principal) db.principals)
      (some_row (λ (q : Quota). q.principal_id == principal) db.quota) (new_quota principal total)
      db

unfoldable pub dbms_insert_quota : ℕ → ℕ → M (Unit {0})
unfolding with_quota
dbms_insert_quota principal total = update internal_server_error (with_quota principal total)

abbrev pub available : Option Quota → M ℤ
available none = fail internal_server_error
available (some q) = pure (minus q.total_quota q.used_quota)

unfoldable pub dbms_get_available_bytes : ℕ → M ℤ
unfolding first_row
dbms_get_available_bytes owner = do
  row ←
      select internal_server_error λ db. first_row (λ (q : Quota). q.principal_id == owner) db.quota
  available row

first_row-append :
    (owner total : ℕ) (qs : List Quota)
    → some_row (λ (q : Quota). q.principal_id == owner) qs ≡ false
    → first_row (λ (q : Quota). q.principal_id == owner) (qs ++ (new_quota owner total ∷ []))
      ≡ some (new_quota owner total)
unfolding first_row some_row
first_row-append owner total [] h = ground arith
first_row-append owner total (q ∷ qs) h = elim (Bool-cases (q.principal_id == owner)) [
  | inl e ↦ absurd (ground (arith, e))
  | inr e ↦ rw e (first_row-append owner total qs (ground (arith, e)))
]

minus_zero : (n : ℕ) → minus n 0 ≡ pos n
minus_zero n =
    let above : leb 0 n ≡ true = ground arith in
    let same : n - 0 ≡ n = omega arith in rw above (ap pos same)

-- On a DBMS that refuses nothing, a principal without a quota that is given one has all of its bytes
-- available.
pub available_bytes-insert_quota :
    (owner total : ℕ) (db : Db)
    → some_row (λ (p : Principal). p.resource_id == owner) db.principals ≡ true
    → some_row (λ (q : Quota). q.principal_id == owner) db.quota ≡ false
    → (dbms_insert_quota owner total >> dbms_get_available_bytes owner) (quiet db)
      ≡ (ok (pos total), quiet (record db { quota = db.quota ++ (new_quota owner total ∷ []) }))
unfolding dbms_insert_quota dbms_get_available_bytes with_quota select update
available_bytes-insert_quota owner total db there fresh =
    rw there
      (rw fresh (rw (first_row-append owner total db.quota fresh) (rw (minus_zero total) refl)))
