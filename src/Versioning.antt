-- ===== src/Versioning.antt =====
-- Reading versions, version histories and versioned resources: limestone/dbms_deltav.c, lines 62-385.
pub mod Write
pub mod Load
pub mod Control
pub mod Auto
pub mod Begin
use limestone.Prelude.{
  ℕ, Bool, true, false, not, ◌&&◌, ◌||◌, Option, none, some, List, [], ◌∷◌, ◌++◌, map, ◌==◌, keep,
  if◌then◌else◌,
}
use limestone.Store.{
  Resource, ResourceType, plain, collection, versioned, versioned_collection, Vcr, Version, Vhr, Db,
  M, internal_server_error, pure, fail, ◌>>=◌, ◌>>◌, select, update, some_row,
}
use limestone.Bind.Rows.{first_row}

-- The DAV_RESOURCE_* states.
pub data CheckedState : Type 0 where
  not_versioned checked_in checked_out : CheckedState

-- The dav_repos_resource, as far as versions go. `kind` is `none` for the type 0 of a resource that
-- has no row, and a version without a versioned resource has the `vcr_id` `none`.
pub record VersionedResource : Type 0 where
  pub serialno : ℕ
  pub kind : Option ResourceType
  pub checked_state : CheckedState
  pub checked_id : ℕ
  pub vhr_id : ℕ
  pub vr_num : ℕ
  pub autoversion_type : ℕ
  pub version : ℕ
  pub vcr_id : Option ℕ
  pub root_version_id : ℕ
  pub lastversion : Bool

abbrev pub find_vcr : ℕ → List Vcr → Option Vcr
find_vcr id cs = first_row (λ c. c.resource_id == id) cs

abbrev pub find_version : ℕ → List Version → Option Version
find_version id vs = first_row (λ v. v.resource_id == id) vs

abbrev pub find_vhr : ℕ → List Vhr → Option Vhr
find_vhr id hs = first_row (λ h. h.resource_id == id) hs

abbrev pub state_of : Bool → CheckedState
state_of true = checked_in
state_of false = checked_out

-- No row is an error here.
abbrev pub numbered : VersionedResource → Option Version → M VersionedResource
numbered r none = fail internal_server_error
numbered r (some v) = pure (record r { vr_num = v.number })

unfoldable pub dbms_get_version_number : VersionedResource → M VersionedResource
unfolding first_row
dbms_get_version_number r = do
  row ← select internal_server_error λ db. find_version r.checked_id db.versions
  numbered r row

abbrev pub controlled : VersionedResource → Option Vcr → M VersionedResource
controlled r none = pure (record r { checked_state = not_versioned })
controlled r (some c) = dbms_get_version_number (record r {
  checked_state = state_of c.checked_in;
  checked_id = c.checked_id;
  vhr_id = c.vhr_id;
  autoversion_type = c.version_type;
})

unfoldable pub dbms_get_vcr_props : VersionedResource → M VersionedResource
unfolding first_row dbms_get_version_number
dbms_get_vcr_props r = do
  row ← select internal_server_error λ db. find_vcr r.serialno db.vcrs
  controlled r row

abbrev pub is_vcr : ℕ → Option ℕ → Bool
is_vcr id none = false
is_vcr id (some n) = n == id

-- WHERE number=? AND vcr_id=?
abbrev pub is_version : ℕ → ℕ → Version → Bool
is_version vcr num v = (v.number == num) && is_vcr vcr v.vcr_id

abbrev pub id_of : Option Version → M ℕ
id_of none = fail internal_server_error
id_of (some v) = pure v.resource_id

unfoldable pub dbms_get_version_id : VersionedResource → ℕ → M ℕ
unfolding first_row
dbms_get_version_id r version_num = do
  row ← select internal_server_error λ db. first_row (is_version r.serialno version_num) db.versions
  id_of row

-- The struct for the versioned resource of a version: the fields that its row sets.
abbrev pub empty_resource : Option ℕ → VersionedResource
empty_resource id = record {
  serialno = (elim id [ none ↦ 0 | some n ↦ n ]);
  kind = none;
  checked_state = not_versioned;
  checked_id = 0;
  vhr_id = 0;
  vr_num = 0;
  autoversion_type = 0;
  version = 0;
  vcr_id = none;
  root_version_id = 0;
  lastversion = false;
}

abbrev pub version_row : VersionedResource → Option Version → M VersionedResource
version_row vr none = pure vr
version_row vr (some v) = do
  vcr ← dbms_get_vcr_props (empty_resource v.vcr_id)
  pure (record vr {
    version = v.number;
    vcr_id = v.vcr_id;
    lastversion = vr.lastversion || (vcr.checked_id == vr.serialno);
  })

unfoldable pub dbms_get_version_resource_props : VersionedResource → M VersionedResource
unfolding first_row dbms_get_vcr_props
dbms_get_version_resource_props vr = do
  row ← select internal_server_error λ db. find_version vr.serialno db.versions
  version_row vr row

abbrev pub root_row : VersionedResource → Option Vhr → VersionedResource
root_row vhr none = vhr
root_row vhr (some h) = record vhr { root_version_id = h.root_version_id }

unfoldable pub dbms_get_vhr_root_version_id : VersionedResource → M VersionedResource
unfolding first_row
dbms_get_vhr_root_version_id vhr = do
  row ← select internal_server_error λ db. find_vhr vhr.serialno db.vhrs
  pure (root_row vhr row)

abbrev pub vhr_row : VersionedResource → Option Vcr → M VersionedResource
vhr_row vhr none = pure vhr
vhr_row vhr (some c) = dbms_get_vhr_root_version_id (record vhr {
  vcr_id = some c.resource_id;
  checked_state = state_of c.checked_in;
  checked_id = c.checked_id;
})

unfoldable pub dbms_get_vhr_props : VersionedResource → M VersionedResource
unfolding first_row dbms_get_vhr_root_version_id
dbms_get_vhr_props vhr = do
  row ← select internal_server_error λ db. first_row (λ c. c.vhr_id == vhr.serialno) db.vcrs
  vhr_row vhr row
