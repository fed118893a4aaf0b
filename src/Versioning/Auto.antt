-- ===== src/Versioning/Auto.antt =====
-- Whether a resource is versioned without being asked: limestone/version.c, lines 96-157, and
-- limestone/dbms.c, lines 293-346.
use limestone.Prelude.{ℕ, Bool, not, ◌&&◌, Option, none, some, map, ◌==◌, if◌then◌else◌}
use limestone.Store.{
  Collection, M, internal_server_error, pure, ◌>>=◌, select, update, ignore_error,
}
use limestone.Bind.Rows.{first_row}

-- The DAV_AUTO_VERSION_* constants.
pub data AutoVersion : Type 0 where
  never always locked : AutoVersion

-- The DAV_AV_* constants.
abbrev av_checkout_checkin : ℕ
av_checkout_checkin = 1

abbrev av_checkout_unlocked_checkin : ℕ
av_checkout_unlocked_checkin = 2

abbrev av_checkout : ℕ
av_checkout = 3

abbrev av_locked_checkout : ℕ
av_locked_checkout = 4

abbrev pub av_none : ℕ
av_none = 5

abbrev pub av_version_control : ℕ
av_version_control = 6

abbrev pub new_children : Option Collection → Option ℕ
new_children none = none
new_children (some c) = some c.auto_version_new_children

-- The property of a collection, `none` where it has no row.
unfoldable pub dbms_get_collection_props : ℕ → M (Option ℕ)
unfolding first_row
dbms_get_collection_props id =
    select internal_server_error
      λ db. new_children (first_row (λ c. c.resource_id == id) db.collections)

abbrev children_set : ℕ → ℕ → Collection → Collection
children_set av id c =
    if c.resource_id == id then record c { auto_version_new_children = av } else c

unfoldable pub dbms_set_collection_new_children_av_type : ℕ → ℕ → M (Unit {0})
dbms_set_collection_new_children_av_type id av =
    update internal_server_error
      λ db. some (record db { collections = map (children_set av id) db.collections })

-- The dav_resource, as far as it is read here; `regular` is its type.
pub record DavState : Type 0 where
  pub regular : Bool
  pub exists : Bool
  pub collection : Bool
  pub versioned : Bool
  pub working : Bool

abbrev of_checked_in : ℕ → AutoVersion
of_checked_in av =
    if av == av_checkout_unlocked_checkin
    then always
    else if av == av_checkout_checkin
    then always
    else if av == av_checkout
    then always
    else if av == av_locked_checkout
    then locked
    else never

abbrev of_checked_out : ℕ → AutoVersion
of_checked_out av =
    if av == av_checkout_checkin
    then always
    else if av == av_checkout_unlocked_checkin
    then always
    else if av == av_locked_checkout
    then locked
    else never

-- A collection without a row leaves the field at 0, which is not DAV_AV_NONE.
abbrev of_parent : Option ℕ → AutoVersion
of_parent none = always
of_parent (some av) = if av == av_none then never else always

unfoldable pub dav_repos_auto_versionable : DavState → ℕ → ℕ → M AutoVersion
unfolding dbms_get_collection_props
dav_repos_auto_versionable resource parent_id autoversion_type =
    if not resource.regular
    then pure never
    else if not resource.exists && resource.collection
    then pure never
    else if not resource.exists
    then (do av ← ignore_error none (dbms_get_collection_props parent_id); pure (of_parent av))
    else if not resource.versioned
    then pure never
    else if not resource.working
    then pure (of_checked_in autoversion_type)
    else pure (of_checked_out autoversion_type)
