-- ===== src/Acl/Write.antt =====
-- Setting the entries of a resource: limestone/acl.c, lines 243-284, and limestone/dbms_acl.c, lines
-- 104-300.
pub mod Kept
pub mod Granted
pub mod Grown
pub mod Added
pub mod Set
use limestone.Prelude.{
  ℕ, Bool, true, false, not, ◌&&◌, ◌||◌, Option, none, some, List, [], ◌∷◌, ◌++◌, map, Bytes,
  str_eq, ◌==◌, keep, if◌then◌else◌,
}
use limestone.Store.{
  AceRow, AcePrivilege, AclPrivilege, Principal, Db, M, internal_server_error, conflict, forbidden,
  pure, fail, gets, ◌>>=◌, ◌>>◌, select, update, ignore_error, some_row,
}
use limestone.Bind.Rows.{first_row}
use limestone.Acl.{Ace, sabridge_acl_check_preconditions}

-- An entry to be set, which has no property: `principal_id` is what dav_repos_get_principal_id
-- returns for its principal.
pub record Entry : Type 0 where
  pub ace : Ace
  pub principal_id : ℕ
  pub is_protected : Bool

-- resource_id = ? AND protected = 'f'
abbrev pub is_own_ace : ℕ → AceRow → Bool
is_own_ace r a = (a.resource_id == r) && not a.protected

-- The deletion goes on to the privileges of the entries.
unfoldable pub without_own : ℕ → Db → Db
unfolding some_row
without_own r db = record db {
  aces = keep (λ a. not (is_own_ace r a)) db.aces;
  dav_aces_privileges =
      keep (λ x. not (some_row (λ a. (a.id == x.ace_id) && is_own_ace r a) db.aces))
        db.dav_aces_privileges;
}

unfoldable pub dbms_delete_own_aces : ℕ → M (Unit {0})
unfolding without_own
dbms_delete_own_aces r = update internal_server_error (λ db. some (without_own r db))

-- The entry of a joined row. `to_s` is dav_repos_principal_to_s of the principal that
-- dav_repos_get_prin_by_name makes, and `by_type` the name that dav_privilege_new_by_type gives.
abbrev pub ace_of : (Bytes → Bytes) → (ℕ → Bytes) → AceRow → Principal → AcePrivilege → Ace
ace_of to_s by_type a p x = record {
  is_deny = not a.grants;
  principal = to_s p.name;
  privileges = by_type x.privilege_id ∷ [];
}

abbrev join_principal :
    (Bytes → Bytes) → (ℕ → Bytes) → AceRow → Option Principal → List AcePrivilege → List Ace
join_principal to_s by_type a none xs = []
join_principal to_s by_type a (some p) xs =
    map (ace_of to_s by_type a p) (keep (λ x. x.ace_id == a.id) xs)

unfoldable pub protected_aces : (Bytes → Bytes) → (ℕ → Bytes) → ℕ → Db → List AceRow → List Ace
unfolding first_row
protected_aces to_s by_type r db [] = []
protected_aces to_s by_type r db (a ∷ as') =
    let rest = protected_aces to_s by_type r db as' in
    if (a.resource_id == r) && a.protected
    then join_principal to_s by_type a
        (first_row (λ (p : Principal). p.resource_id == a.principal_id) db.principals)
        db.dav_aces_privileges
      ++ rest
    else rest

unfoldable pub dbms_get_protected_aces : (Bytes → Bytes) → (ℕ → Bytes) → ℕ → M (List Ace)
unfolding protected_aces
dbms_get_protected_aces to_s by_type r =
    select internal_server_error (λ db. protected_aces to_s by_type r db db.aces)

-- A key of the table may be free.
abbrev pub inserted_ace : Bool → AceRow → Db → Option Db
inserted_ace true a db = none
inserted_ace false a db = some (record db { aces = db.aces ++ (a ∷ []) })

unfoldable pub with_ace : AceRow → Db → Option Db
unfolding some_row
with_ace a db = inserted_ace (some_row (λ (b : AceRow). b.id == a.id) db.aces) a db

abbrev pub inserted_privilege : Bool → AcePrivilege → Db → Option Db
inserted_privilege true x db = none
inserted_privilege false x db =
    some (record db { dav_aces_privileges = db.dav_aces_privileges ++ (x ∷ []) })

unfoldable pub with_privilege : AcePrivilege → Db → Option Db
unfolding some_row
with_privilege x db =
    inserted_privilege
      (some_row (λ (y : AcePrivilege). (y.ace_id == x.ace_id) && (y.privilege_id == x.privilege_id))
        db.dav_aces_privileges)
      x db

abbrev pub acl_privilege_id : Option AclPrivilege → ℕ
acl_privilege_id none = 0
acl_privilege_id (some p) = p.id

-- `ns_id` is what sabridge_get_namespace_id finds for the namespace of a privilege. The answers that
-- the request keeps in its cache are not used. A refused statement has no row.
unfoldable pub dbms_get_privilege_id : (Bytes → ℕ) → Bytes → M ℕ
unfolding first_row
dbms_get_privilege_id ns_id name = ignore_error 0 (
    select internal_server_error (λ db. acl_privilege_id (
      first_row (λ (p : AclPrivilege). str_eq p.name name && (p.priv_namespace_id == ns_id name))
        db.acl_privileges)))

-- How the INSERT ends is not looked at.
abbrev pub add_known : ℕ → ℕ → M (Unit {0})
add_known ace_id privilege_id =
    if privilege_id == 0
    then fail forbidden
    else ignore_error tt (
        update internal_server_error
          (with_privilege (record { ace_id = ace_id; privilege_id = privilege_id })))

unfoldable pub dbms_add_ace_privilege : (Bytes → ℕ) → Bytes → ℕ → M (Unit {0})
unfolding dbms_get_privilege_id with_privilege
dbms_add_ace_privilege ns_id name ace_id = dbms_get_privilege_id ns_id name >>= add_known ace_id

unfoldable pub add_privileges : (Bytes → ℕ) → ℕ → List Bytes → M (Unit {0})
unfolding dbms_add_ace_privilege
add_privileges ns_id ace_id [] = pure tt
add_privileges ns_id ace_id (p ∷ ps) =
    dbms_add_ace_privilege ns_id p ace_id >> add_privileges ns_id ace_id ps

abbrev pub ace_row : ℕ → ℕ → Entry → AceRow
ace_row id r e = record {
  id = id;
  grants = not e.ace.is_deny;
  protected = e.is_protected;
  resource_id = r;
  principal_id = e.principal_id;
}

-- `next_id` is the next number of the sequence aces_id_seq; the sequence starts with 1.
unfoldable pub dbms_add_ace : (Db → ℕ) → (Bytes → ℕ) → ℕ → Entry → M (Unit {0})
unfolding with_ace add_privileges
dbms_add_ace next_id ns_id r e = do
  id ← gets next_id
  update internal_server_error (with_ace (ace_row id r e))
  add_privileges ns_id id e.ace.privileges

unfoldable pub add_aces : (Db → ℕ) → (Bytes → ℕ) → ℕ → List Entry → M (Unit {0})
unfolding dbms_add_ace
add_aces next_id ns_id r [] = pure tt
add_aces next_id ns_id r (e ∷ es) = dbms_add_ace next_id ns_id r e >> add_aces next_id ns_id r es

abbrev pub or_fail : Bool → M (Unit {0}) → M (Unit {0}) → M (Unit {0})
or_fail true bad good = bad
or_fail false bad good = good

abbrev pub aces_of : List Entry → List Ace
aces_of acl = map (λ e. e.ace) acl

-- `basename` is the C library's function.
abbrev pub unless_conflicting :
    (Bytes → Bytes) → List Entry → List Ace → M (Unit {0}) → M (Unit {0})
unless_conflicting basename acl protected_acl next =
    or_fail (sabridge_acl_check_preconditions basename (aces_of acl) (aces_of acl)) (fail conflict)
      (or_fail (sabridge_acl_check_preconditions basename (aces_of acl) protected_acl)
        (fail forbidden) next)

unfoldable pub dav_repos_set_acl :
    (Bytes → Bytes)
    → (Bytes → Bytes)
    → (ℕ → Bytes)
    → (Db → ℕ)
    → (Bytes → ℕ)
    → ℕ
    → List Entry
    → M (Unit {0})
unfolding dbms_delete_own_aces dbms_get_protected_aces add_aces sabridge_acl_check_preconditions
dav_repos_set_acl basename to_s by_type next_id ns_id r acl = do
  dbms_delete_own_aces r
  protected_acl ← dbms_get_protected_aces to_s by_type r
  unless_conflicting basename acl protected_acl (add_aces next_id ns_id r acl)
