-- ===== src/Bridge/Collect/Quiet.antt =====
-- A round of the collector of limestone/gc.c, lines 75-122, without failures.
use limestone.Prelude.{
  ℕ, suc, ◌≡◌, refl, ap, ◌∙◌, Bool, true, false, not, Option, none, some, List, [], ◌∷◌, map, ◌==◌,
  ltb, keep,
}
use limestone.Store.{
  Bind, Cleanup, Resource, collection, Db, M, Result, Store, ok, quiet, select, update,
  ignore_error, pure, ◌>>◌, behind, settled, delete_resources,
}
use limestone.Bind.Rows.{first_row, child_rows, dbms_get_child_binds}
use limestone.Bind.Path.Quiet.{find_shortest_path_none}
use limestone.Bind.Lookup.{root_collection_id}
use limestone.Bridge.Delete.{
  DavResource, dbms_get_resource, media_props, dbms_get_media_props, dbms_delete_resource,
  sabridge_delete_resource, delete_unreached, sabridge_delete_if_orphaned,
}
use limestone.Bridge.Delete.Orphan.{IsOrphan}
use limestone.Bridge.Collect.{
  get_other_props, sabridge_get_property, queue_children, collect_resource, collect, gc_round,
}
use limestone.Bind.Cleanup.{
  union, with_requests, dbms_insert_cleanup_reqs, first_request, without_request, requested,
  drop_if, drop_request, dbms_next_cleanup_req,
}

-- What `sabridge_get_property` fills in for a collection.
abbrev pub loaded_collection : ℕ → DavResource
loaded_collection i = record { serialno = i; kind = some collection; sha1str = none }

-- A collection that no route leads to is deleted with the rows that refer to it.
delete_if_orphaned_collection :
    (remove_vhr : DavResource → M (Unit {0})) (keep_files : Bool) (i : ℕ) (db : Db)
    → IsOrphan i db
    → sabridge_delete_if_orphaned remove_vhr keep_files (loaded_collection i) (quiet db)
      ≡ (ok true, quiet (delete_resources (λ j. j == i) db))
unfolding sabridge_delete_if_orphaned sabridge_delete_resource dbms_delete_resource update
delete_if_orphaned_collection remove_vhr keep_files i db orphan =
    ap (behind (delete_unreached remove_vhr keep_files (loaded_collection i)))
      (find_shortest_path_none db root_collection_id i orphan)
    ∙ refl

-- The resources of the binds in a collection, without that of a bind to itself.
abbrev pub children_of : ℕ → Db → List ℕ
children_of i db = map (λ (b : Bind). b.resource_id) (child_rows i true db.binds [])

-- The queue with the new requests, one for each resource.
abbrev pub queue_all : List ℕ → Db → Db
queue_all [] db = db
queue_all (i ∷ is) db = with_requests (union [] (i ∷ is)) db

insert_cleanup_reqs-quiet :
    (ids : List ℕ) (db : Db)
    → dbms_insert_cleanup_reqs ids (quiet db) ≡ (ok tt, quiet (queue_all ids db))
unfolding dbms_insert_cleanup_reqs update
insert_cleanup_reqs-quiet [] db = refl
insert_cleanup_reqs-quiet (i ∷ is) db = refl

abbrev told : Result (Unit {0}) × Store → Result Bool × Store
told x = behind (λ _. pure true) (settled tt x)

collect_resource-orphan :
    (remove_vhr : DavResource → M (Unit {0})) (keep_files : Bool) (i : ℕ) (db : Db)
    → IsOrphan i db
    → collect_resource remove_vhr keep_files (loaded_collection i) (quiet db)
      ≡ (ok true, quiet (queue_all (children_of i db) (delete_resources (λ j. j == i) db)))
unfolding collect_resource dbms_get_child_binds select ignore_error
collect_resource-orphan remove_vhr keep_files i db orphan =
    let children = child_rows i true db.binds [] in
    ap (λ x. behind (queue_children children) (settled false x))
      (delete_if_orphaned_collection remove_vhr keep_files i db orphan)
    ∙ ap told (insert_cleanup_reqs-quiet (children_of i db) (delete_resources (λ j. j == i) db))

next_cleanup_req-quiet :
    (db : Db) (c : Cleanup)
    → first_request db.cleanup ≡ some c
    → ltb 0 c.id ≡ true
    → dbms_next_cleanup_req (quiet db) ≡ (ok c.resource_id, quiet (without_request (some c) db))
unfolding dbms_next_cleanup_req drop_request requested select update ignore_error
next_cleanup_req-quiet db c asked above =
    ap (λ o. (drop_request o >> pure (requested o)) (quiet db)) asked
    ∙ ap (λ b. (drop_if b c >> pure c.resource_id) (quiet db)) above

-- What comes behind the row of the resource.
abbrev fill_in : DavResource → M DavResource
fill_in r = ignore_error tt (get_other_props r.kind) >> ignore_error r (dbms_get_media_props r)

get_property-collection :
    (n : ℕ) (db : Db) (x : Resource)
    → first_row (λ (r : Resource). r.id == n) db.resources ≡ some x
    → x.kind ≡ collection
    → sabridge_get_property (record { serialno = n; kind = none; sha1str = none }) (quiet db)
      ≡ (ok (loaded_collection n), quiet db)
unfolding sabridge_get_property dbms_get_resource dbms_get_media_props media_props select
    ignore_error
get_property-collection n db x there kind =
    let r : DavResource = record { serialno = n; kind = none; sha1str = none } in
    ap
      (λ (o : Option Resource).
        fill_in (elim o [ none ↦ r | some y ↦ record r { kind = some y.kind } ]) (quiet db))
      there
    ∙ ap (λ k. fill_in (record r { kind = some k }) (quiet db)) kind

-- The request that is answered is taken off the queue, and the collection is deleted with what refers
-- to it.
abbrev pub reclaimed : ℕ → Cleanup → Db → Db
reclaimed n c db =
    delete_resources (λ j. j == n)
      (record db { cleanup = keep (λ d. not (d.id == c.id)) db.cleanup })

-- The run in terms of the statements.
pub gc_round-orphan :
    (remove_vhr : DavResource → M (Unit {0})) (keep_files : Bool) (db : Db) (c : Cleanup) (n : ℕ)
    (x : Resource)
    → first_request db.cleanup ≡ some c
    → ltb 0 c.id ≡ true
    → c.resource_id ≡ suc n
    → first_row (λ (r : Resource). r.id == suc n) db.resources ≡ some x
    → x.kind ≡ collection
    → IsOrphan (suc n) db
    → gc_round remove_vhr keep_files (quiet db)
      ≡ (ok true, quiet (queue_all (children_of (suc n) db) (reclaimed (suc n) c db)))
unfolding gc_round collect without_request ignore_error
gc_round-orphan remove_vhr keep_files db c n x asked above names there kind orphan =
    let d = without_request (some c) db in
    ap (λ y. behind (collect remove_vhr keep_files) (settled 0 y))
      (next_cleanup_req-quiet db c asked above)
    ∙ ap (λ i. collect remove_vhr keep_files i (quiet d)) names
    ∙ ap (behind (collect_resource remove_vhr keep_files))
        (get_property-collection (suc n) d x there kind)
    ∙ collect_resource-orphan remove_vhr keep_files (suc n) d orphan
