-- ===== src/Acl/Inherit.antt =====
-- Whose entries a resource inherits: limestone/dbms_acl.c, lines 661-712.
pub mod Reach
pub mod Parent
use limestone.Prelude.{ℕ, Bool, true, false, Option, none, some, List, [], ◌∷◌, ◌++◌, ◌==◌, leb}
use limestone.Store.{AclInheritance, Db, M, internal_server_error, pure, ◌>>=◌, select, update}
use limestone.Bind.Rows.{first_row}

-- The column has 255 characters.
abbrev pub fitting : Bool → AclInheritance → Db → Option Db
fitting true row db = some (record db { acl_inheritance = db.acl_inheritance ++ (row ∷ []) })
fitting false row db = none

abbrev pub child_row : ℕ → List ℕ → AclInheritance
child_row r path = record { resource_id = r; path = path ++ (r ∷ []) }

-- Without a row for the parent nothing is inserted.
abbrev pub below_parent : (List ℕ → ℕ) → ℕ → Option AclInheritance → Db → Option Db
below_parent char_length r none db = some db
below_parent char_length r (some a) db =
    fitting (leb (char_length (a.path ++ (r ∷ []))) 255) (child_row r a.path) db

unfoldable pub inheritance_of : ℕ → Db → Option AclInheritance
unfolding first_row
inheritance_of r db = first_row (λ a. a.resource_id == r) db.acl_inheritance

abbrev pub inherit_unless : (List ℕ → ℕ) → ℕ → ℕ → Option AclInheritance → M (Unit {0})
unfolding inheritance_of
inherit_unless char_length r parent (some a) = pure tt
inherit_unless char_length r parent none =
    update internal_server_error (λ db. below_parent char_length r (inheritance_of parent db) db)

-- `char_length` is CHAR_LENGTH of the text of a path. The copy of the parent's id in the struct is
-- not modelled.
unfoldable pub dbms_inherit_parent_aces : (List ℕ → ℕ) → ℕ → ℕ → M (Unit {0})
unfolding inheritance_of
dbms_inherit_parent_aces char_length r parent =
    select internal_server_error (inheritance_of r) >>= inherit_unless char_length r parent
