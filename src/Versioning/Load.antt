-- ===== src/Versioning/Load.antt =====
-- What sabridge_get_property runs for a resource given by its id: limestone/bridge.c, lines 36-109, with
-- dbms_get_deltav_props and dbms_get_creator_displayname, limestone/dbms_deltav.c, lines 25-83.
pub mod Reading
use limestone.Prelude.{
  ℕ, zero, suc, ◌≡◌, refl, ◌∙◌, Bool, true, false, Option, none, some, ◌||◌, ◌==◌,
}
use limestone.Store.{
  Vcr, Version, ResourceType, Db, M, Store, Result, ok, err, internal_server_error, pure, ◌>>=◌,
  ◌>>◌, behind, select, ignore_error, settled,
}
use limestone.Store.Laws.{select-holds}
use limestone.Bridge.Delete.{
  DavResource, dbms_get_resource, dbms_get_media_props, media_props, has_body,
}
use limestone.Versioning.{
  VersionedResource, empty_resource, dbms_get_vcr_props, dbms_get_version_number,
  dbms_get_version_resource_props, dbms_get_vhr_root_version_id, dbms_get_vhr_props, numbered,
  state_of, controlled, version_row, vhr_row,
}

-- The name of the creator, which the caller does not read here.
abbrev pub dbms_get_creator_displayname : M (Unit {0})
dbms_get_creator_displayname = select internal_server_error (λ db. tt)

abbrev pub nothing : {A : Type 0} → M A → M (Unit {0})
nothing m = m >>= λ _. pure tt

-- The error of dbms_get_version_resource_props is overwritten.
unfoldable pub dbms_get_deltav_props : ℕ → Option ResourceType → M (Unit {0})
unfolding dbms_get_vcr_props dbms_get_version_resource_props dbms_get_vhr_props
dbms_get_deltav_props id none = pure tt
dbms_get_deltav_props id (some kind) = elim kind [
  | ResourceType.versioned ↦ nothing (dbms_get_vcr_props (empty_resource (some id)))
  | ResourceType.versioned_collection ↦ nothing (dbms_get_vcr_props (empty_resource (some id)))
  | ResourceType.version ↦
      ignore_error tt (nothing (dbms_get_version_resource_props (empty_resource (some id))))
      >> dbms_get_creator_displayname
  | ResourceType.collection_version ↦
      ignore_error tt (nothing (dbms_get_version_resource_props (empty_resource (some id))))
      >> dbms_get_creator_displayname
  | ResourceType.version_history ↦ nothing (dbms_get_vhr_props (empty_resource (some id)))
  | _ ↦ pure tt
]

-- The error of dbms_get_redirect_props is not looked at, that of dbms_get_collection_props is.
abbrev pub other_props : Option ResourceType → M (Unit {0})
other_props none = pure tt
other_props (some kind) = elim kind [
  | ResourceType.redirect ↦ ignore_error tt (select internal_server_error (λ db. tt))
  | ResourceType.collection ↦ select internal_server_error (λ db. tt)
  | ResourceType.versioned_collection ↦ select internal_server_error (λ db. tt)
  | _ ↦ pure tt
]

unfoldable pub media_and_deltav : DavResource → M (Unit {0})
unfolding dbms_get_media_props dbms_get_deltav_props
media_and_deltav r = dbms_get_media_props r >>= λ m. dbms_get_deltav_props r.serialno r.kind

abbrev pub named : ℕ → DavResource
named id = record { serialno = id; kind = none; sha1str = none }

unfoldable pub get_property : ℕ → M (Unit {0})
unfolding dbms_get_resource media_and_deltav
get_property zero = pure tt
get_property (suc n) = ignore_error (named (suc n)) (dbms_get_resource (named (suc n))) >>= λ r.
    other_props r.kind >> media_and_deltav r
