-- ===== src/Versioning/Control.antt =====
-- Checking a resource in and out: limestone/version.c, lines 193-356.
pub mod Consistent
pub mod Written
pub mod Runs
pub mod Checkin
pub mod Sequence
use limestone.Prelude.{
  ℕ, suc, ◌+◌, Bool, true, false, ◌||◌, Option, none, some, ◌==◌, if◌then◌else◌,
}
use limestone.Store.{
  ResourceType, versioned, versioned_collection, version, collection_version, Db, M, Store, Result,
  ok, err, internal_server_error, conflict, pure, fail, ◌>>=◌, ◌>>◌, update, ignore_error,
}
use limestone.Versioning.{CheckedState, checked_in, checked_out, VersionedResource, empty_resource}
use limestone.Bridge.Delete.{dbms_delete_resource}
use limestone.Versioning.Load.{get_property}
use limestone.Versioning.Write.{dbms_set_checkin_out, dbms_insert_version, dbms_update_vhr}

abbrev pub is_checked_in : CheckedState → Bool
is_checked_in checked_in = true
is_checked_in _ = false

abbrev pub is_checked_out : CheckedState → Bool
is_checked_out checked_out = true
is_checked_out _ = false

abbrev pub is_version_controlled : Option ResourceType → Bool
is_version_controlled (some ResourceType.versioned) = true
is_version_controlled (some ResourceType.versioned_collection) = true
is_version_controlled _ = false

abbrev pub require : {A : Type 0} → Bool → M A → M A
require true next = next
require false next = fail conflict

unfoldable pub dav_repos_checkout : VersionedResource → M VersionedResource
unfolding get_property dbms_set_checkin_out
dav_repos_checkout r =
    get_property r.vhr_id
    >> require (is_checked_in r.checked_state) (dbms_set_checkin_out r checked_out r.vr_num)

-- The contents come back from the version: `copy_medium` is sabridge_get_property on the URI of the
-- version and sabridge_copy_medium. For a collection the first statement of dbms_restore_vcc is not
-- SQL, since the column behind USING has no parentheses, and is refused.
abbrev pub restore : (VersionedResource → M (Unit {0})) → VersionedResource → M (Unit {0})
restore copy_medium r = elim r.kind [
  | none ↦ pure tt
  | some k ↦ elim k [
    | ResourceType.versioned_collection ↦ update internal_server_error (λ db. none)
    | ResourceType.versioned ↦ copy_medium r
    | _ ↦ pure tt
  ]
]

unfoldable pub dav_repos_uncheckout :
    (VersionedResource → M (Unit {0})) → VersionedResource → M VersionedResource
unfolding get_property dbms_set_checkin_out
dav_repos_uncheckout copy_medium r =
    require (is_checked_out r.checked_state)
      (get_property r.vhr_id >> restore copy_medium r >> dbms_set_checkin_out r checked_in r.vr_num)

-- The resource of the new version as sabridge_mk_new_version leaves it.
abbrev version_kind : Option ResourceType → Option ResourceType
version_kind (some ResourceType.versioned) = some version
version_kind (some ResourceType.versioned_collection) = some collection_version
version_kind k = none

abbrev pub new_version : VersionedResource → ℕ → VersionedResource
new_version r id = record (empty_resource (some id)) {
  kind = version_kind r.kind;
  vcr_id = some r.serialno;
  vhr_id = r.vhr_id;
  version = r.vr_num + 1;
}

-- The first version becomes the root of the history.
abbrev pub set_root : VersionedResource → VersionedResource → M (Unit {0})
set_root r new =
    if r.vr_num == 0
    then dbms_update_vhr (record r { serialno = r.vhr_id; root_version_id = new.serialno })
    else pure tt

abbrev pub record_version : VersionedResource → VersionedResource → M VersionedResource
record_version r new =
    set_root r new >> dbms_insert_version new >> dbms_set_checkin_out r checked_in (r.vr_num + 1)

-- Behind an error the new version is deleted, and how that ends is not looked at.
abbrev pub or_delete :
    VersionedResource → Result VersionedResource × Store → Result VersionedResource × Store
or_delete new (ok r, s) = (ok r, s)
or_delete new (err e, s) =
    (ignore_error tt (
          dbms_delete_resource
            (record { serialno = new.serialno; kind = new.kind; sha1str = none }))
        >> fail e)
      s

abbrev pub recorded : VersionedResource → ℕ → M VersionedResource
recorded r id s = or_delete (new_version r id) (record_version r (new_version r id) s)

-- `mk_resource` makes the resource of a version and its contents, as sabridge_mk_new_version does with
-- dav_repos_create_resource, sabridge_copy_medium and dbms_copy_resource_collection_version.
unfoldable pub dav_repos_checkin :
    (VersionedResource → ℕ → M ℕ) → VersionedResource → M VersionedResource
unfolding get_property dbms_delete_resource dbms_update_vhr dbms_insert_version dbms_set_checkin_out
dav_repos_checkin mk_resource r = require (is_version_controlled r.kind) (
    require (is_checked_out r.checked_state)
      (get_property r.vhr_id >> mk_resource r (r.vr_num + 1) >>= recorded r))
