-- ===== src/Principal/Group/Remove.antt =====
-- A principal that is taken out of a group: limestone/principal.c, lines 81-95.
use limestone.Prelude.{
  ℕ, ◌≤◌, ℤ, ◌≡◌, refl, true, Option, none, some, List, [], ◌∷◌, map, ◌==◌, ==_iff, keep, length,
  not, arith,
}
use limestone.Store.{TransitiveMember, Db, err, quiet, internal_server_error, update, some_row}
use limestone.Store.Rows.{some_row-In, In-some_row}
use limestone.Principal.Group.{
  is_member, is_key, is_affected, scalar, product, factor, has_key, update_counts,
  dbms_rem_prin_frm_grp, dbms_rem_prin_frm_grp_xitively, sabridge_rem_prin_frm_grp,
}

length-map : {A B : Type 0} (f : A → B) (l : List A) → length (map f l) ≡ length l
length-map f [] = refl
length-map f (x ∷ l) = omega (arith, length-map f l)

scalar_many : (ns : List ℤ) → 2 ≤ length ns → scalar ns ≡ none
scalar_many [] h = absurd (omega (arith, h))
scalar_many (n ∷ []) h = absurd (omega (arith, h))
scalar_many (n ∷ m ∷ ns) h = refl

product-none : (a : Option ℤ) → product a none ≡ none
product-none none = refl
product-none (some a) = refl

factor_many :
    (g p : ℕ) (ts : List TransitiveMember)
    → 2 ≤ length (keep (λ t. t.transitive_group_id == p) ts)
    → factor g p ts ≡ none
factor_many g p ts h =
    let rows = keep (λ (t : TransitiveMember). t.transitive_group_id == p) ts in
    let counts = map (λ (t : TransitiveMember). t.transitive_count) rows in
    let many : 2 ≤ length counts =
      omega (arith, h, length-map (λ (t : TransitiveMember). t.transitive_count) rows) in
    rw (scalar_many counts many) (
      product-none (
        scalar (
          map (λ (t : TransitiveMember). t.transitive_count)
            (keep (λ t. t.transitive_member_id == g) ts))))

affected_key :
    (g p : ℕ) (ts : List TransitiveMember)
    → has_key g p ts ≡ true
    → some_row (is_affected g p ts) ts ≡ true
unfolding some_row
affected_key g p ts h =
    let (r, i, t) = some_row-In (is_key g p) ts h in
    let eg : r.transitive_group_id ≡ g = ground (arith, t) in
    let ep : r.transitive_member_id ≡ p = ground (arith, t) in
    let own_g : (g == g) ≡ true = (==_iff g g).1 refl in
    let own_p : (p == p) ≡ true = (==_iff p p).1 refl in
    In-some_row (is_affected g p ts) r ts i (rw eg (rw ep (rw own_g (rw own_p refl))))

-- On a DBMS that refuses nothing: a principal with two or more members cannot be taken out of a group
-- that it is in. The call ends with 500, with the row deleted from group_members and the transitive
-- table as it was.
pub rem_prin_frm_grp_many :
    (g p : ℕ) (db : Db)
    → has_key g p db.transitive_group_members ≡ true
    → 2 ≤ length (keep (λ t. t.transitive_group_id == p) db.transitive_group_members)
    → sabridge_rem_prin_frm_grp g p (quiet db) ≡ (
      err internal_server_error,
      quiet (record db { group_members = keep (λ r. not (is_member g p r)) db.group_members }),
    )
unfolding sabridge_rem_prin_frm_grp dbms_rem_prin_frm_grp dbms_rem_prin_frm_grp_xitively
    update_counts update
rem_prin_frm_grp_many g p db there many =
    rw (affected_key g p db.transitive_group_members there)
      (rw (factor_many g p db.transitive_group_members many) refl)
