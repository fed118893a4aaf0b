-- ===== src/Principal/User.antt =====
-- Principals and users: limestone/dbms_principal.c, lines 27-132, 345-412 and 691-825.
pub mod Named
use limestone.Prelude.{
  ℕ, Bool, true, false, ◌&&◌, ◌||◌, not, Option, none, some, List, [], ◌∷◌, ◌++◌, map, Bytes,
  str_eq, ◌==◌, keep, if◌then◌else◌,
}
use limestone.Store.{
  Resource, ResourceType, Principal, GroupMember, User, Db, M, internal_server_error, pure, ◌>>=◌,
  select, update, ignore_error, some_row,
}
use limestone.Bind.Rows.{first_row}

-- A name with an @ is an e-mail address.
abbrev at_sign : ℕ
at_sign = 64

abbrev pub lookup_required : Bytes → Bool
lookup_required username = some_row (λ c. c == at_sign) username

abbrev pub principal_of : ℕ → List Principal → Option Principal
principal_of id ps = first_row (λ p. p.resource_id == id) ps

abbrev pub name_of : Option Principal → Option Bytes
name_of none = none
name_of (some p) = some p.name

-- The name of the principal of the user with an address; both keys are unique.
abbrev pub name_of_user : Option User → Db → Option Bytes
name_of_user none db = none
name_of_user (some u) db = name_of (principal_of u.principal_id db.principals)

abbrev pub user_with : Bytes → Db → Option User
user_with email db = first_row (λ u. str_eq u.email email) db.users

unfoldable pub dbms_get_canonical_username : Option Bytes → M (Option Bytes)
unfolding some_row first_row
dbms_get_canonical_username none = pure none
dbms_get_canonical_username (some username) =
    if lookup_required username
    then ignore_error none
        (select internal_server_error λ db. name_of_user (user_with username db) db)
    else pure (some username)

abbrev id_or_zero : Option Principal → ℕ
id_or_zero none = 0
id_or_zero (some p) = p.resource_id

abbrev pub principal_named : Bytes → Db → Option Principal
principal_named name db = first_row (λ p. str_eq p.name name) db.principals

unfoldable pub dbms_get_principal_id_from_name : Bytes → M ℕ
unfolding first_row
dbms_get_principal_id_from_name name =
    select internal_server_error λ db. id_or_zero (principal_named name db)

-- The schema wants no second row for a resource, and no name twice.
abbrev pub inserted_principal : Bool → ℕ → Bytes → Db → Option Db
inserted_principal true id name db = none
inserted_principal false id name db =
    some
      (record db { principals = db.principals ++ (record { resource_id = id; name = name } ∷ []) })

unfoldable pub with_principal : ℕ → Bytes → Db → Option Db
unfolding some_row
with_principal id name db =
    inserted_principal
      (some_row (λ (p : Principal). (p.resource_id == id) || str_eq p.name name) db.principals) id
      name db

unfoldable pub dbms_insert_principal : ℕ → Bytes → M (Unit {0})
unfolding with_principal
dbms_insert_principal id name = update internal_server_error (with_principal id name)

-- A query that is refused finds no user, and the address counts as free.
unfoldable pub dbms_is_email_available : Bytes → M Bool
unfolding some_row
dbms_is_email_available email = ignore_error true (
    select internal_server_error λ db. not (some_row (λ (u : User). str_eq u.email email) db.users))

abbrev pub user_of : ℕ → Db → Option User
user_of id db = first_row (λ u. u.principal_id == id) db.users

abbrev column : {A : Type 0} → (User → A) → Option User → Option A
column f none = none
column f (some u) = some (f u)

unfoldable pub dbms_get_user_email : ℕ → M (Option Bytes)
unfolding first_row
dbms_get_user_email principal_id =
    ignore_error none
      (select internal_server_error λ db. column (λ u. u.email) (user_of principal_id db))

unfoldable pub dbms_get_user_pwhash : ℕ → M (Option Bytes)
unfolding first_row
dbms_get_user_pwhash principal_id =
    ignore_error none
      (select internal_server_error λ db. column (λ u. u.pwhash) (user_of principal_id db))

abbrev or_false : Option Bool → Bool
or_false none = false
or_false (some b) = b

unfoldable pub dbms_get_user_login_to_all_domains : ℕ → M Bool
unfolding first_row
dbms_get_user_login_to_all_domains principal_id = ignore_error false (
    select internal_server_error
      λ db. or_false (column (λ u. u.login_to_all_domains) (user_of principal_id db)))

-- UPDATE users SET ... WHERE principal_id = ?
abbrev pub changed_user : (User → User) → ℕ → User → User
changed_user f id u = if u.principal_id == id then f u else u

abbrev pub update_users : (User → User) → ℕ → Db → Db
update_users f id db = record db { users = map (changed_user f id) db.users }

unfoldable pub dbms_set_user_pwhash : ℕ → Bytes → M (Unit {0})
dbms_set_user_pwhash id hash =
    update internal_server_error λ db. some (update_users (λ u. record u { pwhash = hash }) id db)

unfoldable pub dbms_set_user_login_to_all_domains : ℕ → Bool → M (Unit {0})
dbms_set_user_login_to_all_domains principal_id login =
    update internal_server_error
      λ db. some (update_users (λ u. record u { login_to_all_domains = login }) principal_id db)

-- The type of the resource of a principal, `none` for 0.
abbrev type_of : List Resource → Option Principal → Option ResourceType
type_of rs none = none
type_of rs (some p) = kind_at (first_row (λ r. r.id == p.resource_id) rs)
  where
    kind_at : Option Resource → Option ResourceType
    kind_at none = none
    kind_at (some r) = some r.kind

unfoldable pub dbms_get_principal_type_from_name : Bytes → M (Option ResourceType)
unfolding first_row
dbms_get_principal_type_from_name name =
    ignore_error none
      (select internal_server_error λ db. type_of db.resources (principal_named name db))
