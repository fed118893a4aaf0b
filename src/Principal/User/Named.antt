-- ===== src/Principal/User/Named.antt =====
-- A principal found by its name: limestone/dbms_principal.c, lines 68-120.
use limestone.Prelude.{
  ℕ, ◌≡◌, refl, inl, inr, false, ◌||◌, some, List, [], ◌∷◌, ◌++◌, Bytes, ◌==◌, str_eq, str_eq_iff,
  Bool-cases, arith,
}
use limestone.Store.{Principal, Db, ok, quiet, ◌>>◌, select, update, some_row}
use limestone.Bind.Rows.{first_row}
use limestone.Principal.User.{
  with_principal, dbms_insert_principal, dbms_get_principal_id_from_name,
}

first_row-append :
    (id : ℕ) (name : Bytes) (ps : List Principal)
    → some_row (λ p. (p.resource_id == id) || str_eq p.name name) ps ≡ false
    → first_row (λ p. str_eq p.name name) (ps ++ (record { resource_id = id; name = name } ∷ []))
      ≡ some (record { resource_id = id; name = name })
unfolding first_row some_row
first_row-append id name [] h = let e = (str_eq_iff name name).1 refl in rw e refl
first_row-append id name (p ∷ ps) h = elim (Bool-cases (str_eq p.name name)) [
  | inl e ↦ absurd (ground (arith, e, h))
  | inr e ↦ rw e (first_row-append id name ps (ground (arith, e, h)))
]

-- On a DBMS that refuses nothing, a principal whose resource and name no row has yet is found by its
-- name once it is inserted.
pub get_principal_id-insert_principal :
    (id : ℕ) (name : Bytes) (db : Db)
    → some_row (λ (p : Principal). (p.resource_id == id) || str_eq p.name name) db.principals
      ≡ false
    → (dbms_insert_principal id name >> dbms_get_principal_id_from_name name) (quiet db) ≡ (
      ok id,
      quiet (record db {
        principals = db.principals ++ (record { resource_id = id; name = name } ∷ []);
      }),
    )
unfolding dbms_insert_principal dbms_get_principal_id_from_name with_principal select update
get_principal_id-insert_principal id name db fresh =
    rw fresh (rw (first_row-append id name db.principals fresh) refl)
