-- ===== src/Bind/Rows/Children.antt =====
-- The binds in a collection: `dbms_get_child_binds`, limestone/dbms_bind.c, lines 571-618.
use limestone.Prelude.{
  ℕ, ◌≡◌, ◌≢◌, refl, ◌⊎◌, inl, inr, ◌↔◌, Bool, true, false, not, ◌&&◌, List, [], ◌∷◌, ◌==◌, In,
  Bool-cases, arith,
}
use limestone.Store.{Bind, Db, Store, Result, ok, err, internal_server_error}
use limestone.Store.Laws.{select-holds}
use limestone.Bind.Rows.{child_rows, dbms_get_child_binds}

-- A bind of the collection, and not one to the collection itself if those are left out.
abbrev pub is_child : ℕ → Bool → Bind → Bool
is_child coll exclude_self b =
    (b.collection_id == coll) && not (exclude_self && (b.resource_id == b.collection_id))

abbrev pub IsChild : ℕ → Bool → Bind → Type 0
IsChild coll exclude_self b =
    (b.collection_id ≡ coll) × (exclude_self ≡ true → b.resource_id ≢ b.collection_id)

is_child_iff :
    (coll : ℕ) (exclude_self : Bool) (b : Bind)
    → (is_child coll exclude_self b ≡ true) ↔ IsChild coll exclude_self b
is_child_iff coll true b = ground arith
is_child_iff coll false b = ground arith

child_rows_iff :
    (coll : ℕ) (exclude_self : Bool) (bs head : List Bind) (b : Bind)
    → In b (child_rows coll exclude_self bs head)
      ↔ (In b head ⊎ (In b bs × (is_child coll exclude_self b ≡ true)))
unfolding child_rows
child_rows_iff coll exclude_self [] head b =
    ((λ m. inl m), λ h. elim h [ inl m ↦ m | inr (m, t) ↦ elim m [ ] ])
child_rows_iff coll exclude_self (c ∷ bs) head b =
    elim (Bool-cases (is_child coll exclude_self c)) [
      | inl e ↦
          let (to, from) = child_rows_iff coll exclude_self bs (c ∷ head) b in
          rw e (
            λ m. elim (to m) [
              | inl (inl q) ↦ inr (inl q, rw q e)
              | inl (inr h) ↦ inl h
              | inr (n, t) ↦ inr (inr n, t)
            ],
            λ h. elim h [
              | inl n ↦ from (inl (inr n))
              | inr (inl q, t) ↦ from (inl (inl q))
              | inr (inr n, t) ↦ from (inr (n, t))
            ],
          )
      | inr e ↦
          let (to, from) = child_rows_iff coll exclude_self bs head b in
          rw e (
            λ m. elim (to m) [ inl h ↦ inl h | inr (n, t) ↦ inr (inr n, t) ],
            λ h. elim h [
              | inl n ↦ from (inl n)
              | inr (inl q, t) ↦
                  let t' : is_child coll exclude_self c ≡ true = rw (← q) t in absurd (cc (e, t'))
              | inr (inr n, t) ↦ from (inr (n, t))
            ],
          )
    ]

abbrev pub Children : ℕ → Bool → Db → Result (List Bind) × Store → Type 0
Children coll exclude_self db (ok l, s') =
    ((b : Bind) → In b l ↔ (In b db.binds × IsChild coll exclude_self b)) × (s'.db ≡ db)
Children coll exclude_self db (err e, s') = (e ≡ internal_server_error) × (s'.db ≡ db)

-- Whatever statements the DBMS refuses: the call ends with the error 500, or with exactly the binds of
-- the collection, without those to the collection itself if they are left out, and changes nothing.
pub get_child_binds-Children :
    (coll : ℕ) (exclude_self : Bool) (s : Store)
    → Children coll exclude_self s.db (dbms_get_child_binds coll exclude_self s)
unfolding dbms_get_child_binds
get_child_binds-Children coll exclude_self s =
    select-holds (Children coll exclude_self s.db) internal_server_error
      (λ db. child_rows coll exclude_self db.binds []) s
      (λ s' same. (
        λ b.
            let (to, from) = child_rows_iff coll exclude_self s.db.binds [] b in
            let (in_to, in_from) = is_child_iff coll exclude_self b in
            (
              λ m. elim (to m) [ inl n ↦ elim n [ ] | inr (n, t) ↦ (n, in_to t) ],
              λ (n, t). from (inr (n, in_from t)),
            ),
        same,
      ))
      (λ s' same. (refl, same))
