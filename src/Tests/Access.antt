-- ===== src/Tests/Access.antt =====
-- Access control entries and their witnesses.
use limestone.Prelude.{
  ℕ, pos, ◌≡◌, refl, sym, ap, ◌∙◌, inl, inr, ◌==◌, ==_iff, true, false, none, List, [], ◌∷◌, Bytes,
  codes, length,
}
use limestone.Store.{
  AclInheritance, Db, Store, Result, ok, quiet, select, update, ignore_error, some_row,
}
use limestone.Bind.Rows.{first_row}
use limestone.Acl.{sabridge_acl_check_preconditions}
use limestone.Acl.Inherit.{dbms_inherit_parent_aces}
use limestone.Acl.Inherit.Reach.{IsKeyed}
use limestone.Acl.Inherit.Parent.{Inherited, inherit_parent_aces-Inherited}
use limestone.Acl.Write.{Entry, dav_repos_set_acl}
use limestone.Acl.Allow.{Question, dbms_is_allow}
use limestone.Acl.Allow.Decision.{Decided, is_allow-Decided}
use limestone.Tests.Data.{sample_db}

-- Principal 5 of group 3 may read below collection 2, but not resource 4.
abbrev guarded_db : Db
guarded_db = record sample_db {
  transitive_group_members =
      record { transitive_group_id = 3; transitive_member_id = 5; transitive_count = pos 1 } ∷ [];
  aces =
      record { id = 1; grants = true; protected = false; resource_id = 2; principal_id = 3 }
      ∷ record { id = 2; grants = false; protected = false; resource_id = 4; principal_id = 5 }
      ∷ [];
  dav_aces_privileges =
      record { ace_id = 1; privilege_id = 7 } ∷ record { ace_id = 2; privilege_id = 7 } ∷ [];
  acl_privileges =
      record { id = 7; name = codes "read"; priv_namespace_id = 1; lft = 1; rgt = 2 } ∷ [];
  acl_inheritance =
      record { resource_id = 2; path = 2 ∷ [] }
      ∷ record { resource_id = 3; path = 2 ∷ 3 ∷ [] }
      ∷ record { resource_id = 4; path = 2 ∷ 4 ∷ [] }
      ∷ [];
}

abbrev reading : ℕ → Question
reading res = record { priv_ns_id = 1; privilege = codes "read"; resource_id = res }

is_allow_test : (dbms_is_allow length (reading 3) 5 (6 ∷ []) none (quiet guarded_db)).0.0 ≡ 1
unfolding dbms_is_allow select some_row
is_allow_test = refl

is_allow_denied_test : (dbms_is_allow length (reading 4) 5 (6 ∷ []) none (quiet guarded_db)).0.0 ≡ 0
unfolding dbms_is_allow select some_row
is_allow_denied_test = refl

is_allow_example :
    Decided length
      (reading 4)
      5
      none
      (quiet guarded_db)
      (dbms_is_allow length (reading 4) 5 (6 ∷ []) none (quiet guarded_db))
is_allow_example = is_allow-Decided length (reading 4) 5 (6 ∷ []) none (quiet guarded_db)

-- Principal 5 is to read resource 4, whose entry denies it.
abbrev to_read : List Entry
to_read =
    record {
      ace = record {
        is_deny = false;
        principal = codes "/users/ann";
        privileges = codes "read" ∷ [];
      };
      principal_id = 5;
      is_protected = false;
    }
    ∷ []

abbrev same_string : Bytes → Bytes
same_string s = s

abbrev any_name : ℕ → Bytes
any_name n = codes "read"

abbrev next_ace : Db → ℕ
next_ace db = 9

abbrev dav_ns : Bytes → ℕ
dav_ns name = 1

abbrev read_set : Result (Unit {0}) × Store
read_set =
    dav_repos_set_acl same_string same_string any_name next_ace dav_ns 4 to_read (quiet guarded_db)

set_acl_test : read_set.0 ≡ ok tt
unfolding dav_repos_set_acl select update ignore_error some_row first_row
    sabridge_acl_check_preconditions
set_acl_test = refl

set_acl_read_test : (dbms_is_allow length (reading 4) 5 (6 ∷ []) none read_set.1).0.0 ≡ 1
unfolding dav_repos_set_acl dbms_is_allow select update ignore_error some_row first_row
    sabridge_acl_check_preconditions
set_acl_read_test = refl

-- Resource 8 is made in collection 3.
abbrev inherited : Result (Unit {0}) × Store
inherited = dbms_inherit_parent_aces length 8 3 (quiet guarded_db)

inherit_parent_aces_test : (dbms_is_allow length (reading 8) 5 (6 ∷ []) none inherited.1).0.0 ≡ 1
unfolding dbms_inherit_parent_aces dbms_is_allow select update some_row first_row
inherit_parent_aces_test = refl

apart :
    {a b x y : AclInheritance}
    → a ≡ x
    → b ≡ y
    → a.resource_id ≡ b.resource_id
    → (x.resource_id == y.resource_id) ≡ false
    → ⊥
apart {x = x} {y = y} p q e f =
    let id = λ (z : AclInheritance). z.resource_id in
    let t : (x.resource_id == y.resource_id) ≡ true =
      (==_iff x.resource_id y.resource_id).1 (sym (ap id p) ∙ e ∙ ap id q) in
    absurd (cc (t, f))

guarded_db-IsKeyed : IsKeyed guarded_db.acl_inheritance
guarded_db-IsKeyed a b i j e = elim i [
  | inl p ↦ elim j [
    | inl q ↦ p ∙ sym q
    | inr (inl q) ↦ absurd (apart p q e refl)
    | inr (inr (inl q)) ↦ absurd (apart p q e refl)
    | inr (inr (inr m)) ↦ elim m [ ]
  ]
  | inr (inl p) ↦ elim j [
    | inl q ↦ absurd (apart p q e refl)
    | inr (inl q) ↦ p ∙ sym q
    | inr (inr (inl q)) ↦ absurd (apart p q e refl)
    | inr (inr (inr m)) ↦ elim m [ ]
  ]
  | inr (inr (inl p)) ↦ elim j [
    | inl q ↦ absurd (apart p q e refl)
    | inr (inl q) ↦ absurd (apart p q e refl)
    | inr (inr (inl q)) ↦ p ∙ sym q
    | inr (inr (inr m)) ↦ elim m [ ]
  ]
  | inr (inr (inr m)) ↦ elim m [ ]
]

inherit_parent_aces_example : Inherited (reading 8) 8 3 guarded_db inherited
inherit_parent_aces_example =
    inherit_parent_aces-Inherited length (reading 8) 8 3 (quiet guarded_db) guarded_db-IsKeyed
