-- ===== src/Bridge/Collect.antt =====
-- One round of the garbage collector between the start and the end of its transaction: limestone/gc.c,
-- lines 90-113, with `sabridge_get_property`, limestone/bridge.c, lines 36-109, as far as the collector
-- reads what it fills in (dbms_get_deltav_props fills in other fields).
pub mod Load
pub mod Safe
pub mod Queued
pub mod Quiet
pub mod Reclaim
use limestone.Prelude.{
  ℕ, zero, suc, Bool, true, false, Option, none, some, List, [], ◌∷◌, map, if◌then◌else◌, ◌==◌, ltb,
}
use limestone.Store.{
  Bind, Db, ResourceType, M, Status, internal_server_error, pure, ◌>>=◌, ◌>>◌, select, ignore_error,
}
use limestone.Bind.Rows.{dbms_get_child_binds}
use limestone.Bind.Cleanup.{dbms_insert_cleanup_reqs, dbms_next_cleanup_req}
use limestone.Bridge.Delete.{
  DavResource, dbms_get_resource, dbms_get_media_props, sabridge_delete_if_orphaned,
}

-- The statements for redirects and collections only fill in fields that the collector does not read.
abbrev pub get_other_props : Option ResourceType → M (Unit {0})
get_other_props (some ResourceType.redirect) = select internal_server_error (λ db. tt)
get_other_props (some ResourceType.collection) = select internal_server_error (λ db. tt)
get_other_props (some ResourceType.versioned_collection) = select internal_server_error (λ db. tt)
get_other_props _ = pure tt

unfoldable pub sabridge_get_property : DavResource → M DavResource
unfolding dbms_get_resource dbms_get_media_props ignore_error
sabridge_get_property r = do
  r' ← ignore_error r (dbms_get_resource r)
  ignore_error tt (get_other_props r'.kind)
  ignore_error r' (dbms_get_media_props r')

-- The children of what was deleted are asked to be collected next.
abbrev pub queue_children : List Bind → Bool → M Bool
queue_children children false = pure false
queue_children children true = do
  ignore_error tt (dbms_insert_cleanup_reqs (map (λ (b : Bind). b.resource_id) children))
  pure true

unfoldable pub collect_resource : (DavResource → M (Unit {0})) → Bool → DavResource → M Bool
unfolding dbms_get_child_binds sabridge_delete_if_orphaned dbms_insert_cleanup_reqs ignore_error
collect_resource remove_vhr keep_files r = do
  children ← ignore_error [] (dbms_get_child_binds r.serialno true)
  deleted ← ignore_error false (sabridge_delete_if_orphaned remove_vhr keep_files r)
  queue_children children deleted

-- The collection of a resource that a request names, if one does.
unfoldable pub collect : (DavResource → M (Unit {0})) → Bool → ℕ → M Bool
unfolding sabridge_get_property collect_resource
collect remove_vhr keep_files zero = pure false
collect remove_vhr keep_files (suc n) = do
  r ← sabridge_get_property (record { serialno = suc n; kind = none; sha1str = none })
  collect_resource remove_vhr keep_files r

-- Returns whether a resource was deleted. Without a request the collector sleeps.
unfoldable pub gc_round : (DavResource → M (Unit {0})) → Bool → M Bool
unfolding dbms_next_cleanup_req collect ignore_error
gc_round remove_vhr keep_files = do
  id ← ignore_error 0 dbms_next_cleanup_req
  collect remove_vhr keep_files id
