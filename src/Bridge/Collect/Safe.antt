-- ===== src/Bridge/Collect/Safe.antt =====
-- The garbage collector of limestone/gc.c, lines 75-122, on a resource that can still be reached.
use mathlib.Core.Path.{subst}
use mathlib.Core.Option.{some-injective}
use limestone.Prelude.{
  ℕ, zero, suc, ◌≡◌, refl, sym, ap, ◌∙◌, ◌⊎◌, inl, inr, Bool, true, false, Option, none, some, List,
  [], Bytes, ltb,
}
use limestone.Store.{
  Cleanup, Db, Store, Result, M, ok, err, internal_server_error, pure, behind, ◌>>◌, update,
}
use limestone.Store.Laws.{select-holds, behind_select-holds, update-holds, Settles, ignored-holds}
use limestone.Bind.Rows.{dbms_get_child_binds}
use limestone.Bind.Path.Route.{Route}
use limestone.Bind.Lookup.{root_collection_id}
use limestone.Bind.Cleanup.{
  first_request, without_request, requested, drop_if, drop_request, dbms_next_cleanup_req,
}
use limestone.Bridge.Delete.{DavResource, sabridge_delete_if_orphaned}
use limestone.Bridge.Collect.Load.{Same, SameDb, Loaded, get_property-Loaded}
use limestone.Bridge.Delete.Orphan.{Verdict, delete_if_orphaned-Verdict}
use limestone.Bridge.Collect.{
  sabridge_get_property, queue_children, collect_resource, collect, gc_round,
}

-- Reading the list of children changes nothing.
get_child_binds-SameDb :
    (coll : ℕ) (s : Store) → Settles (SameDb s.db) [] (dbms_get_child_binds coll true s)
unfolding dbms_get_child_binds
get_child_binds-SameDb coll s =
    select-holds (Settles (SameDb s.db) []) internal_server_error _ s (λ s' same. same)
      (λ s' same. same)

-- A resource that a route leads to is not deleted.
abbrev NotDeleted : Db → Bool → Store → Type 0
NotDeleted db deleted s = (deleted ≡ false) × (s.db ≡ db)

Verdict-end :
    (i : ℕ) (db : Db) (ns : List Bytes) (r : Result Bool × Store)
    → Route db.binds root_collection_id i ns
    → Verdict i db r
    → Settles (NotDeleted db) false r
Verdict-end i db ns (ok true, s) route (orphan, _) = absurd (orphan ns route)
Verdict-end i db ns (ok false, s) route (_, same) = (refl, same)
Verdict-end i db ns (err e, s) route same = (refl, same ns route)

abbrev Spared : Db → Result Bool × Store → Type 0
Spared db (r, s) = (r ≡ ok false) × (s.db ≡ db)

collect_resource-Spared :
    (remove_vhr : DavResource → M (Unit {0})) (keep_files : Bool) (r : DavResource)
    (ns : List Bytes) (s : Store)
    → Route s.db.binds root_collection_id r.serialno ns
    → Spared s.db (collect_resource remove_vhr keep_files r s)
unfolding collect_resource
collect_resource-Spared remove_vhr keep_files r ns s route =
    ignored-holds (SameDb s.db) (Spared s.db) [] (dbms_get_child_binds r.serialno true) _ s
      (get_child_binds-SameDb r.serialno s)
      (λ children t same.
        ignored-holds (NotDeleted s.db) (Spared s.db) false
          (sabridge_delete_if_orphaned remove_vhr keep_files r) (queue_children children) t
          (Verdict-end r.serialno s.db ns _ route (
            subst
              (λ db. Verdict r.serialno db (sabridge_delete_if_orphaned remove_vhr keep_files r t))
              same (delete_if_orphaned-Verdict remove_vhr keep_files r t)))
          (λ deleted u (spared, kept).
            subst (λ d. Spared s.db (queue_children children d u)) (sym spared) (refl, kept)))

Loaded_then :
    (i : ℕ) (db : Db) (P : Result Bool × Store → Type 0) (f : DavResource → M Bool)
    (r : Result DavResource × Store)
    → Loaded i db r
    → ((r' : DavResource) (s' : Store) → Same i db r' s' → P (f r' s'))
    → P (behind f r)
Loaded_then i db P f (ok r', s') same next = next r' s' same
Loaded_then i db P f (err e, s') impossible next = elim impossible [ ]

collect-Spared :
    (remove_vhr : DavResource → M (Unit {0})) (keep_files : Bool) (id : ℕ) (ns : List Bytes)
    (s : Store)
    → Route s.db.binds root_collection_id id ns
    → Spared s.db (collect remove_vhr keep_files id s)
unfolding collect
collect-Spared remove_vhr keep_files zero ns s route = (refl, refl)
collect-Spared remove_vhr keep_files (suc n) ns s route =
    let r : DavResource = record { serialno = suc n; kind = none; sha1str = none } in
    Loaded_then (suc n) s.db (Spared s.db) (collect_resource remove_vhr keep_files)
      (sabridge_get_property r s) (get_property-Loaded r s)
      (λ r' s' (i, same).
        subst (λ db. Spared db (collect_resource remove_vhr keep_files r' s')) same
          (collect_resource-Spared remove_vhr keep_files r' ns s' (
            subst (λ db. Route db.binds root_collection_id r'.serialno ns) (sym same)
              (subst (λ j. Route s.db.binds root_collection_id j ns) (sym i) route))))

-- The database is the one before, with the request or without it.
abbrev MayLose : Option Cleanup → Db → Unit {0} → Store → Type 0
MayLose c db _ s = (s.db ≡ db) ⊎ (s.db ≡ without_request c db)

drop_row :
    (c : Cleanup) (db : Db) (s : Store)
    → s.db ≡ db
    → Settles
        (MayLose (some c) db)
        tt
        (update internal_server_error (λ d. some (without_request (some c) d)) s)
drop_row c db s same =
    update-holds (Settles (MayLose (some c) db) tt) internal_server_error
      (λ d. some (without_request (some c) d)) s
      (λ s' e. inr (sym (some-injective _ _ e) ∙ ap (without_request (some c)) same))
      (λ s' kept. inl (kept ∙ same))

-- What a call for the next request leaves: its id, with or without the request, or no id.
abbrev Taken : Option Cleanup → Db → ℕ → Store → Type 0
Taken c db id s = ((id ≡ requested c) ⊎ (id ≡ 0)) × ((s.db ≡ db) ⊎ (s.db ≡ without_request c db))

drop_if-Taken :
    (above : Bool) (c : Cleanup) (db : Db) (s : Store)
    → s.db ≡ db
    → Settles (Taken (some c) db) 0 ((drop_if above c >> pure c.resource_id) s)
unfolding requested
drop_if-Taken false c db s same = (inl refl, inl same)
drop_if-Taken true c db s same =
    ignored-holds (MayLose (some c) db) (Settles (Taken (some c) db) 0) tt
      (update internal_server_error (λ d. some (without_request (some c) d)))
      (λ _. pure c.resource_id) s (drop_row c db s same) (λ _ t lost. (inl refl, lost))

drop_request-Taken :
    (c : Option Cleanup) (db : Db) (s : Store)
    → s.db ≡ db
    → Settles (Taken c db) 0 ((drop_request c >> pure (requested c)) s)
unfolding drop_request requested
drop_request-Taken none db s same = (inl refl, inl same)
drop_request-Taken (some c) db s same = drop_if-Taken (ltb 0 c.id) c db s same

next_cleanup_req-Taken :
    (s : Store) → Settles (Taken (first_request s.db.cleanup) s.db) 0 (dbms_next_cleanup_req s)
unfolding dbms_next_cleanup_req
next_cleanup_req-Taken s =
    let c = first_request s.db.cleanup in
    behind_select-holds (Settles (Taken c s.db) 0) internal_server_error
      (λ db. first_request db.cleanup) (λ c'. drop_request c' >> pure (requested c')) s
      (λ s' same. drop_request-Taken c s.db s' same) (λ s' same. (inr refl, inl same))

without_request-binds : (c : Option Cleanup) (db : Db) → (without_request c db).binds ≡ db.binds
unfolding without_request
without_request-binds none db = refl
without_request-binds (some c) db = refl

abbrev pub SparedRequest : Db → Result Bool × Store → Type 0
SparedRequest db (r, s) =
    (r ≡ ok false) × ((s.db ≡ db) ⊎ (s.db ≡ without_request (first_request db.cleanup) db))

Spared-end :
    (db : Db) (t : Store) (r : Result Bool × Store)
    → (t.db ≡ db) ⊎ (t.db ≡ without_request (first_request db.cleanup) db)
    → Spared t.db r
    → SparedRequest db r
Spared-end db t (r, s) (inl e) (no_deletion, same) = (no_deletion, inl (same ∙ e))
Spared-end db t (r, s) (inr e) (no_deletion, same) = (no_deletion, inr (same ∙ e))

-- The binds are the same in either database.
left-binds :
    (c : Option Cleanup) (db : Db) (t : Store)
    → (t.db ≡ db) ⊎ (t.db ≡ without_request c db)
    → t.db.binds ≡ db.binds
left-binds c db t (inl e) = ap (λ (d : Db). d.binds) e
left-binds c db t (inr e) = ap (λ (d : Db). d.binds) e ∙ without_request-binds c db

collect_taken :
    (remove_vhr : DavResource → M (Unit {0})) (keep_files : Bool) (ns : List Bytes)
    (c : Option Cleanup) (db : Db) (id : ℕ) (t : Store)
    → Route db.binds root_collection_id (requested c) ns
    → t.db.binds ≡ db.binds
    → (id ≡ requested c) ⊎ (id ≡ 0)
    → Spared t.db (collect remove_vhr keep_files id t)
unfolding collect
collect_taken remove_vhr keep_files ns c db id t route same (inl e) =
    collect-Spared remove_vhr keep_files id ns t
      (rw same (subst (λ j. Route db.binds root_collection_id j ns) (sym e) route))
collect_taken remove_vhr keep_files ns c db id t route same (inr e) = rw e (refl, refl)

-- If a route leads from the root collection to the resource that the next request names, then a
-- round of the collector deletes nothing, whatever statements the DBMS refuses: it ends without an
-- error, and the database is the one before, with the request or without it.
pub gc_round_spares :
    (remove_vhr : DavResource → M (Unit {0})) (keep_files : Bool) (ns : List Bytes) (s : Store)
    → Route s.db.binds root_collection_id (requested (first_request s.db.cleanup)) ns
    → SparedRequest s.db (gc_round remove_vhr keep_files s)
unfolding gc_round
gc_round_spares remove_vhr keep_files ns s route =
    let c = first_request s.db.cleanup in
    ignored-holds (Taken c s.db) (SparedRequest s.db) 0 dbms_next_cleanup_req
      (collect remove_vhr keep_files) s (next_cleanup_req-Taken s)
      (λ id t (named, left).
        Spared-end s.db t (collect remove_vhr keep_files id t) left (
          collect_taken remove_vhr keep_files ns c s.db id t route (left-binds c s.db t left)
            named))
