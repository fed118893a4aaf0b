-- ===== src/Versioning/Begin.antt =====
-- Putting a resource under version control: limestone/version.c, lines 162-201,
-- limestone/deltav_bridge.c, lines 31-124, and limestone/dbms.c, lines 518-544.
pub mod First
use limestone.Prelude.{ℕ, Bool, true, false, Option, none, some, List, map, ◌==◌, if◌then◌else◌}
use limestone.Store.{
  Resource, ResourceType, plain, collection, versioned, versioned_collection, Db, M,
  internal_server_error, conflict, pure, fail, ◌>>=◌, ◌>>◌, update, ignore_error,
}
use limestone.Versioning.{VersionedResource, empty_resource}
use limestone.Versioning.Write.{dbms_insert_vhr, dbms_insert_version, dbms_insert_vcr}
use limestone.Versioning.Auto.{av_none, av_version_control, dbms_get_collection_props}

abbrev pub kind_set : ResourceType → ℕ → Resource → Resource
kind_set k id r = if r.id == id then record r { kind = k } else r

abbrev pub retyped : ResourceType → ℕ → Db → Db
retyped k id db = record db { resources = map (kind_set k id) db.resources }

-- `none` is the type 0, whose name is none of the enumeration.
unfoldable pub dbms_update_resource_type :
    VersionedResource → Option ResourceType → M VersionedResource
dbms_update_resource_type r none = update internal_server_error (λ db. none) >>= λ u. pure r
dbms_update_resource_type r (some k) =
    update internal_server_error (λ db. some (retyped k r.serialno db)) >>= λ u.
    pure (record r { kind = some k })

abbrev pub new_kind : Option ResourceType → Option ResourceType
new_kind (some ResourceType.plain) = some versioned
new_kind (some ResourceType.collection) = some versioned_collection
new_kind _ = none

-- What the first version is: the resource itself where it was made by the request.
abbrev pub first_version :
    (VersionedResource → ℕ → M ℕ) → VersionedResource → ℕ → Bool → M VersionedResource
first_version mk_resource r vhr true = pure (empty_resource (some r.serialno))
first_version mk_resource r vhr false = ignore_error 0 (mk_resource r 1) >>= λ id.
    pure (record (empty_resource (some id)) { vcr_id = some r.serialno; vhr_id = vhr; version = 1 })

abbrev pub insert_unless : Bool → VersionedResource → M (Unit {0})
insert_unless true new = pure tt
insert_unless false new = ignore_error tt (dbms_insert_version new)

-- The switch on the parent's av_new_children; other values leave the type.
abbrev pub inherited_type : ℕ → Option ℕ → ℕ
inherited_type old none = old
inherited_type old (some av) =
    if av == av_version_control
    then av_none
    else if av == 1
    then 1
    else if av == 2
    then 2
    else if av == 3
    then 3
    else if av == 4
    then 4
    else if av == av_none
    then av_none
    else old

abbrev pub begun : VersionedResource → ℕ → VersionedResource → Option ℕ → VersionedResource
begun r vhr new av = record r {
  vhr_id = vhr;
  vr_num = new.version;
  checked_id = new.serialno;
  autoversion_type = inherited_type r.autoversion_type av;
}

abbrev pub vhr_of : ℕ → ℕ → VersionedResource
vhr_of vhr root = record (empty_resource (some vhr)) { root_version_id = root }

unfoldable pub insert_resource :
    ℕ → VersionedResource → ℕ → VersionedResource → M (Option VersionedResource)
unfolding dbms_get_collection_props dbms_insert_vcr
insert_resource parent_id r vhr new =
    ignore_error none (dbms_get_collection_props parent_id) >>= λ av.
    dbms_insert_vcr (begun r vhr new av) >>= λ r'. pure (some r')

unfoldable pub insert_history : Bool → ℕ → VersionedResource → M (Unit {0})
unfolding dbms_insert_vhr dbms_insert_version
insert_history auto_version vhr new =
    ignore_error tt (dbms_insert_vhr (vhr_of vhr new.serialno)) >> insert_unless auto_version new

abbrev pub record_history :
    Bool → ℕ → VersionedResource → ℕ → VersionedResource → M (Option VersionedResource)
record_history auto_version parent_id r vhr new =
    insert_history auto_version vhr new >> insert_resource parent_id r vhr new

module _ (mk_vhr : VersionedResource → M (Option ℕ)) (mk_versions_collection : ℕ → M (Unit {0}))
    (mk_resource : VersionedResource → ℕ → M ℕ) where
  unfoldable pub make_version : Bool → VersionedResource → ℕ → M VersionedResource
  make_version auto_version r vhr =
      ignore_error tt (mk_versions_collection vhr) >> first_version mk_resource r vhr auto_version

  -- The history is the one that sabridge_mk_vhr made; where it made none, a NULL is read.
  abbrev pub in_history : Bool → ℕ → VersionedResource → Option ℕ → M (Option VersionedResource)
  in_history auto_version parent_id r none = pure none
  in_history auto_version parent_id r (some vhr) =
      make_version auto_version r vhr >>= record_history auto_version parent_id r vhr

  -- Each error but the last is overwritten.
  unfoldable pub sabridge_vsn_control : Bool → ℕ → VersionedResource → M (Option VersionedResource)
  unfolding dbms_update_resource_type make_version insert_history insert_resource
  sabridge_vsn_control auto_version parent_id r =
      ignore_error r (dbms_update_resource_type r (new_kind r.kind)) >>= λ r1.
      ignore_error none (mk_vhr r1) >>= in_history auto_version parent_id r1

  abbrev control : Bool → Bool → Bool → ℕ → VersionedResource → M (Unit {0})
  control false is_versioned auto_created parent_id r = fail conflict
  control true true auto_created parent_id r = pure tt
  control true false auto_created parent_id r =
      ignore_error none (sabridge_vsn_control auto_created parent_id r) >> pure tt

  -- `create` is dav_repos_create_resource; `exists`, `regular` and `is_versioned` are of the dav_resource.
  -- The error of sabridge_vsn_control is not returned.
  unfoldable pub dav_repos_vsn_control :
      M VersionedResource → Bool → Bool → Bool → ℕ → VersionedResource → M (Unit {0})
  unfolding sabridge_vsn_control
  dav_repos_vsn_control create true regular is_versioned parent_id r =
      control regular is_versioned false parent_id r
  dav_repos_vsn_control create false regular is_versioned parent_id r =
      create >>= λ new. control regular is_versioned true parent_id new
