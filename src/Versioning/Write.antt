-- ===== src/Versioning/Write.antt =====
-- Writing versions, histories and versioned resources: limestone/dbms_deltav.c, lines 385-600 and
-- 797-848.
use limestone.Prelude.{
  ℕ, Bool, true, false, not, ◌&&◌, Option, none, some, [], ◌∷◌, ◌++◌, map, ◌==◌, if◌then◌else◌,
}
use limestone.Store.{
  Resource, ResourceType, plain, collection, Vcr, Version, Vhr, Db, M, internal_server_error, pure,
  ◌>>=◌, ◌>>◌, update, some_row,
}
use limestone.Versioning.{CheckedState, checked_in, VersionedResource, dbms_get_version_id}

abbrev pub is_in_state : CheckedState → Bool
is_in_state checked_in = true
is_in_state _ = false

abbrev pub set_row : CheckedState → ℕ → ℕ → Vcr → Vcr
set_row state checked id c =
    if c.resource_id == id
    then record c { checked_in = is_in_state state; checked_id = checked }
    else c

abbrev pub set_checked : CheckedState → ℕ → ℕ → Db → Db
set_checked state checked id db = record db { vcrs = map (set_row state checked id) db.vcrs }

abbrev pub version_to_set : VersionedResource → ℕ → M ℕ
version_to_set r num =
    if (r.vr_num == num) && not (r.checked_id == 0)
    then pure r.checked_id
    else dbms_get_version_id r num

unfoldable pub dbms_set_checkin_out : VersionedResource → CheckedState → ℕ → M VersionedResource
unfolding dbms_get_version_id
dbms_set_checkin_out r state version_num = do
  checked ← version_to_set r version_num
  update internal_server_error λ db. some (set_checked state checked r.serialno db)
  pure (record r { checked_id = checked; checked_state = state; vr_num = version_num })

-- A table with one more row, where the schema's key is free. Foreign keys are deferred to the commit.
abbrev pub inserted_version : Bool → Version → Db → Option Db
inserted_version true v db = none
inserted_version false v db = some (record db { versions = db.versions ++ (v ∷ []) })

unfoldable pub with_version : Version → Db → Option Db
unfolding some_row
with_version v db =
    inserted_version (some_row (λ (w : Version). w.resource_id == v.resource_id) db.versions) v db

abbrev pub version_of : VersionedResource → Version
version_of r = record {
  resource_id = r.serialno;
  number = r.version;
  vcr_id = r.vcr_id;
  vhr_id = r.vhr_id;
}

unfoldable pub dbms_insert_version : VersionedResource → M (Unit {0})
unfolding with_version
dbms_insert_version new_version =
    update internal_server_error (with_version (version_of new_version))

abbrev pub inserted_vhr : Bool → Vhr → Db → Option Db
inserted_vhr true h db = none
inserted_vhr false h db = some (record db { vhrs = db.vhrs ++ (h ∷ []) })

unfoldable pub with_vhr : Vhr → Db → Option Db
unfolding some_row
with_vhr h db = inserted_vhr (some_row (λ (k : Vhr). k.resource_id == h.resource_id) db.vhrs) h db

unfoldable pub dbms_insert_vhr : VersionedResource → M (Unit {0})
unfolding with_vhr
dbms_insert_vhr vhr =
    update internal_server_error
      (with_vhr (record { resource_id = vhr.serialno; root_version_id = vhr.root_version_id }))

abbrev root_set : ℕ → ℕ → Vhr → Vhr
root_set root id h = if h.resource_id == id then record h { root_version_id = root } else h

unfoldable pub dbms_update_vhr : VersionedResource → M (Unit {0})
dbms_update_vhr vhr =
    update internal_server_error
      λ db. some (record db { vhrs = map (root_set vhr.root_version_id vhr.serialno) db.vhrs })

abbrev pub inserted_vcr : Bool → Vcr → Db → Option Db
inserted_vcr true c db = none
inserted_vcr false c db = some (record db { vcrs = db.vcrs ++ (c ∷ []) })

unfoldable pub with_vcr : Vcr → Db → Option Db
unfolding some_row
with_vcr c db = inserted_vcr (some_row (λ (k : Vcr). k.resource_id == c.resource_id) db.vcrs) c db

abbrev pub vcr_of : VersionedResource → Vcr
vcr_of r = record {
  resource_id = r.serialno;
  checked_id = r.checked_id;
  vhr_id = r.vhr_id;
  checked_in = true;
  version_type = r.autoversion_type;
  checkin_on_unlock = 0;
}

unfoldable pub dbms_insert_vcr : VersionedResource → M VersionedResource
unfolding with_vcr
dbms_insert_vcr r = do
  update internal_server_error (with_vcr (vcr_of r))
  pure (record r { checked_state = checked_in })

abbrev type_set : ℕ → ℕ → Vcr → Vcr
type_set av id c = if c.resource_id == id then record c { version_type = av } else c

unfoldable pub dbms_set_autoversion_type : VersionedResource → ℕ → M VersionedResource
dbms_set_autoversion_type r av_type = do
  update internal_server_error
      λ db. some (record db { vcrs = map (type_set av_type r.serialno) db.vcrs })
  pure (record r { autoversion_type = av_type })

abbrev unlock_set : ℕ → Vcr → Vcr
unlock_set id c = if c.resource_id == id then record c { checkin_on_unlock = 1 } else c

unfoldable pub dbms_set_checkin_on_unlock : VersionedResource → M (Unit {0})
dbms_set_checkin_on_unlock r =
    update internal_server_error
      λ db. some (record db { vcrs = map (unlock_set r.serialno) db.vcrs })

abbrev pub set_kind : (ℕ → Bool) → (ResourceType → Option ResourceType) → Resource → Resource
set_kind named to r =
    if named r.id then elim (to r.kind) [ none ↦ r | some k ↦ record r { kind = k } ] else r

-- UPDATE resources SET type = ? WHERE id IN (...) AND type = ?
abbrev pub retype : (ResourceType → Option ResourceType) → ℕ → Db → Db
retype to vhr db = record db {
  resources =
      map (set_kind (λ id. some_row (λ c. (c.vhr_id == vhr) && (c.resource_id == id)) db.vcrs) to)
        db.resources;
}

abbrev pub unversioned : ResourceType → Option ResourceType
unversioned ResourceType.versioned = some plain
unversioned _ = none

abbrev pub unversioned_collection : ResourceType → Option ResourceType
unversioned_collection ResourceType.versioned_collection = some collection
unversioned_collection _ = none

unfoldable pub dbms_unversion_vhr_vcrs : VersionedResource → M (Unit {0})
unfolding some_row
dbms_unversion_vhr_vcrs vhr =
    update internal_server_error (λ db. some (retype unversioned vhr.serialno db))
    >> update internal_server_error (λ db. some (retype unversioned_collection vhr.serialno db))
