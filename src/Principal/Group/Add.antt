-- ===== src/Principal/Group/Add.antt =====
-- A principal that is added to a group: limestone/principal.c, lines 57-79.
use mathlib.Core.Path.{subst}
use mathlib.Core.Option.{some-injective}
use limestone.Prelude.{
  ℕ, ℤ, pos, negsuc, ◌+ℤ◌, ◌≡◌, refl, ap, ◌∙◌, ◌⊎◌, inl, inr, Bool, true, false, some, List, [],
  ◌∷◌, ◌++◌, ◌==◌, ==_iff, Bool-cases,
}
use limestone.Store.{
  GroupMember, Db, Store, Result, ok, err, internal_server_error, some_row, update, ◌>>◌, behind, M,
}
use limestone.Store.Laws.{update-holds, select-holds, ignored-holds, Settles}
use limestone.Principal.Group.{
  update_counts, is_member, with_new_rows, with_member, insert_member, dbms_is_prin_in_grp,
  dbms_will_loop_prin_add_grp, dbms_add_prin_to_group, dbms_add_prin_to_grp_xitively,
  sabridge_add_prin_to_grp, refuse,
}
use limestone.Principal.Group.Closure.{edge, IsAcyclic}
use limestone.Principal.Group.Loop.{IsSound, Foretold, will_loop-Settles}
use limestone.Principal.Group.Grown.{with_new_rows-IsClosure}
use limestone.Principal.Group.Keys.{IsClosure, update_counts-IsClosure}

-- What an addition comes to.
abbrev pub Added : ℕ → ℕ → Db → Result (Unit {0}) × Store → Type 0
Added g p db (ok _, s') =
    (s'.db.group_members ≡ db.group_members ++ (edge g p ∷ [])) × IsSound s'.db
Added g p db (err e, s') = (s'.db ≡ db) ⊎ (e ≡ internal_server_error)

with_member-eq :
    (g p : ℕ) (db d : Db)
    → with_member g p db ≡ some d
    → (d.group_members ≡ db.group_members ++ (edge g p ∷ []))
      × (d.transitive_group_members ≡ db.transitive_group_members)
unfolding with_member
with_member-eq g p db d = go (some_row (is_member g p) db.group_members)
  where
    go :
        (twice : Bool)
        → insert_member twice g p db ≡ some d
        → (d.group_members ≡ db.group_members ++ (edge g p ∷ []))
          × (d.transitive_group_members ≡ db.transitive_group_members)
    go false e =
        let later = record db { group_members = db.group_members ++ (edge g p ∷ []) } in
        rw (← some-injective later d e) (refl, refl)
    go true e = absurd (cc e)

-- Behind the insertion of the row, the statements on the transitive table end with the closure or fail.
xitively-Added :
    (g p : ℕ) (db : Db) (s : Store)
    → IsClosure db.group_members s.db.transitive_group_members
    → s.db.group_members ≡ db.group_members ++ (edge g p ∷ [])
    → IsAcyclic (db.group_members ++ (edge g p ∷ []))
    → Added g p db (dbms_add_prin_to_grp_xitively g p s)
unfolding dbms_add_prin_to_grp_xitively
xitively-Added g p db s closure rows free =
    update-holds
      (λ x. Added g p db (behind (λ _. update internal_server_error (with_new_rows g p)) x))
      internal_server_error (update_counts ◌+ℤ◌ g p) s
      (λ s1 e1.
        update-holds (Added g p db) internal_server_error (with_new_rows g p) s1
          (λ s2 e2.
            let (c1, same1) = update_counts-IsClosure db.group_members g p s.db s1.db e1 closure in
            let (c2, same2) = with_new_rows-IsClosure db.group_members g p s1.db s2.db e2 c1 in
            let now = same2 ∙ same1 ∙ rows in
            (now, record { closure = rw now c2; acyclic = rw now free }))
          (λ s2 same. inr refl))
      (λ s1 same. inr refl)

rows-Added :
    (g p : ℕ) (db : Db) (s : Store)
    → IsSound db
    → s.db ≡ db
    → IsAcyclic (db.group_members ++ (edge g p ∷ []))
    → Added g p db ((dbms_add_prin_to_group g p >> dbms_add_prin_to_grp_xitively g p) s)
unfolding dbms_add_prin_to_group
rows-Added g p db s sound same free =
    update-holds (λ x. Added g p db (behind (λ _. dbms_add_prin_to_grp_xitively g p) x))
      internal_server_error (with_member g p) s
      (λ s1 e1.
        let (rows, kept) =
          with_member-eq g p db s1.db (subst (λ d. with_member g p d ≡ some s1.db) same e1) in
        xitively-Added g p db s1 (rw kept sound.closure) rows free)
      (λ s1 again. inr refl)

refuse-Added :
    (g p : ℕ) (db : Db) (n : ℤ) (next : M (Unit {0})) (s : Store)
    → s.db ≡ db
    → (n ≡ pos 0 → Added g p db (next s))
    → Added g p db (refuse n next s)
refuse-Added g p db (pos n) next s same goes = elim (Bool-cases (n == 0)) [
  | inl z ↦ let e : n ≡ 0 = (==_iff n 0).0 z in rw z (goes (ap pos e))
  | inr other ↦ rw other (inl same)
]
refuse-Added g p db (negsuc n) next s same goes = inl same

-- The answer 0 is the only one that lets the row in.
Foretold-IsAcyclic :
    (g p : ℕ) (es : List GroupMember) (n : ℤ)
    → Foretold g p es n
    → n ≡ pos 0
    → IsAcyclic (es ++ (edge g p ∷ []))
Foretold-IsAcyclic g p es n (inl e) z = absurd (cc (e, z))
Foretold-IsAcyclic g p es n (inr (inl (e, f))) z = absurd (cc (e, z))
Foretold-IsAcyclic g p es n (inr (inr (e, f))) z = f

-- Where the transitive table is the closure of groups without a cycle, and whatever statements the
-- DBMS refuses: an addition that succeeds has put exactly the one row in, and the transitive table
-- is the closure of the rows again, which still have no cycle; one that ends with another status
-- than 500 has changed nothing.
pub add_prin_to_grp-Added :
    (g p : ℕ) (s : Store) → IsSound s.db → Added g p s.db (sabridge_add_prin_to_grp g p s)
unfolding sabridge_add_prin_to_grp dbms_is_prin_in_grp dbms_will_loop_prin_add_grp
add_prin_to_grp-Added g p s sound =
    ignored-holds (λ n s'. s'.db ≡ s.db) (Added g p s.db) (negsuc 0) _ _ s
      (select-holds (Settles (λ n s'. s'.db ≡ s.db) (negsuc 0)) internal_server_error _ s
        (λ s' same. same) (λ s' same. same))
      (λ n s1 same1. refuse-Added g p s.db n _ s1 same1 (λ _.
        ignored-holds (λ k s'. (s'.db ≡ s1.db) × Foretold g p s1.db.group_members k)
          (Added g p s.db) (negsuc 0) _ _ s1 (will_loop-Settles g p s1 (rw same1 sound))
          (λ k s2 (same2, told). refuse-Added g p s.db k _ s2 (same2 ∙ same1) (λ z.
            rows-Added g p s.db s2 sound (same2 ∙ same1) (
              subst (λ (d : Db). IsAcyclic (d.group_members ++ (edge g p ∷ []))) same1
                (Foretold-IsAcyclic g p s1.db.group_members k told z))))))
