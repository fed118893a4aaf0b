-- ===== src/Principal/Domain/Stored.antt =====
-- A user's domains written and read: limestone/dbms_principal.c, lines 134-237.
use limestone.Prelude.{
  ℕ, suc, ◌+◌, ◌≡◌, refl, ap, inl, inr, true, false, not, some, List, [], ◌∷◌, ◌++◌, map, Bytes,
  ◌==◌, ==_iff, length, keep, Bool-cases,
}
use limestone.Store.{UserDomain, Db, ok, quiet, ◌>>◌, select, update, ignore_error, some_row}
use limestone.Principal.Domain.{
  pair_of, domain_values, are_distinct, has_mark, is_too_long, with_domains, insert_domains,
  dbms_set_domain_map, dbms_get_domain_map,
}

-- The table with a user's domains replaced.
abbrev pub stored : ℕ → List (Bytes × Bytes) → Db → Db
stored p ds db = record db {
  user_domains =
      keep (λ d. not (d.principal_id == p)) db.user_domains
      ++ domain_values p db.user_domains_id_seq ds;
  user_domains_id_seq = db.user_domains_id_seq + length ds;
}

own_values :
    (p id : ℕ) (ds : List (Bytes × Bytes))
    → map pair_of (keep (λ d. d.principal_id == p) (domain_values p id ds)) ≡ ds
unfolding domain_values
own_values p id [] = refl
own_values p id (d ∷ ds) =
    let own : (p == p) ≡ true = (==_iff p p).1 refl in rw own (ap (d ∷◌) (own_values p (suc id) ds))

-- None of the rows that are left is the user's.
own_rows :
    (p id : ℕ) (ds : List (Bytes × Bytes)) (l : List UserDomain)
    → map pair_of (
        keep
          (λ d. d.principal_id == p)
          (keep (λ d. not (d.principal_id == p)) l ++ domain_values p id ds))
      ≡ ds
own_rows p id ds [] = own_values p id ds
own_rows p id ds (u ∷ l) = elim (Bool-cases (u.principal_id == p)) [
  | inl e ↦ rw e (own_rows p id ds l)
  | inr e ↦ rw e (rw e (own_rows p id ds l))
]

-- On a DBMS that refuses nothing, domains of which none comes twice and none has a question mark in
-- its name or its path or more than 255 characters there are read back as they were set, and the domains of other users stay.
pub get_domain_map-set_domain_map :
    (char_length : Bytes → ℕ) (p : ℕ) (d : Bytes × Bytes) (ds : List (Bytes × Bytes)) (db : Db)
    → are_distinct (d ∷ ds) ≡ true
    → some_row has_mark (d ∷ ds) ≡ false
    → some_row (is_too_long char_length) (d ∷ ds) ≡ false
    → (dbms_set_domain_map char_length p (some (d ∷ ds)) >> dbms_get_domain_map p) (quiet db)
      ≡ (ok (some (d ∷ ds)), quiet (stored p (d ∷ ds) db))
unfolding dbms_set_domain_map dbms_get_domain_map insert_domains with_domains update select
    ignore_error
get_domain_map-set_domain_map char_length p d ds db distinct unmarked short =
    rw unmarked (
      rw distinct (rw short (rw (own_rows p db.user_domains_id_seq (d ∷ ds) db.user_domains) refl)))
