-- ===== src/Bridge/Delete/Orphan.antt =====
-- What `sabridge_delete_if_orphaned` (limestone/bridge.c, lines 896-915) deletes, and when.
use mathlib.Core.Path.{subst}
use mathlib.Core.Option.{some-injective}
use limestone.Prelude.{
  ℕ, ◌≡◌, ◌≢◌, refl, Bool, true, false, not, none, some, List, [], Bytes, ◌==◌, In, In-keep, arith,
}
use limestone.Store.{
  Resource, Db, Store, Result, M, ok, err, internal_server_error, delete_resources, behind, pure,
}
use limestone.Store.Laws.{behind-holds, update-holds}
use limestone.Bind.Path.{Outcome, shortest_path, out_of_fuel, dbms_find_shortest_path}
use limestone.Bind.Path.Route.{Route}
use limestone.Bind.Path.Search.{Answers, find_shortest_path_excl_binds-Answers}
use limestone.Bind.Lookup.{root_collection_id}
use limestone.Bridge.Delete.{
  DavResource, dbms_delete_resource, sabridge_delete_resource, delete_unreached,
  sabridge_delete_if_orphaned,
}

-- No row of the table of resources has the id.
abbrev pub IsGone : ℕ → Db → Type 0
IsGone i db = (x : Resource) → In x db.resources → x.id ≢ i

-- From the root collection no route leads to the resource.
abbrev pub IsOrphan : ℕ → Db → Type 0
IsOrphan i db = (ns : List Bytes) → ¬ Route db.binds root_collection_id i ns

-- What the ends of the call say, with the database before it.
abbrev pub Verdict : ℕ → Db → Result Bool × Store → Type 0
Verdict i db (ok true, s') = IsOrphan i db × IsGone i s'.db
Verdict i db (ok false, s') =
    ((ns : List Bytes) × Route db.binds root_collection_id i ns) × (s'.db ≡ db)
Verdict i db (err e, s') = (ns : List Bytes) → Route db.binds root_collection_id i ns → s'.db ≡ db

delete_resources-IsGone : (i : ℕ) (db : Db) → IsGone i (delete_resources (λ j. j == i) db)
unfolding delete_resources
delete_resources-IsGone i db x m =
    let (inside, spared) = In-keep (λ (r : Resource). not (r.id == i)) x db.resources m in
    ground (arith, spared)

-- After a deletion that reports no error the row is gone.
abbrev Deleted : {A : Type 0} → ℕ → Result A × Store → Type 0
Deleted i (ok a, s') = IsGone i s'.db
Deleted i (err e, s') = Unit

dbms_delete_resource-Deleted :
    (r : DavResource) (s : Store) → Deleted r.serialno (dbms_delete_resource r s)
unfolding dbms_delete_resource
dbms_delete_resource-Deleted r s =
    behind-holds (Deleted r.serialno) _ _
      (λ _ t.
        update-holds (Deleted r.serialno) internal_server_error
          (λ db. some (delete_resources (λ i. i == r.serialno) db)) t
          (λ t' e.
            subst (IsGone r.serialno) (some-injective _ _ e)
              (delete_resources-IsGone r.serialno t.db))
          (λ _ _. tt))
      (λ _ _. tt)

delete_resource-Deleted :
    (remove_vhr : DavResource → M (Unit {0})) (keep_files : Bool) (r : DavResource) (s : Store)
    → Deleted r.serialno (sabridge_delete_resource remove_vhr keep_files r s)
unfolding sabridge_delete_resource
delete_resource-Deleted remove_vhr keep_files r s =
    behind-holds (Deleted r.serialno) _ _ (λ _ t. dbms_delete_resource-Deleted r t) (λ _ _. tt)

IsOrphan-Verdict :
    (i : ℕ) (db : Db) (s : Store)
    → IsOrphan i db
    → (d : Result (Unit {0}) × Store) → Deleted i d
    → Verdict i db (behind (λ _. pure true) d)
IsOrphan-Verdict i db s orphan (ok _, t) gone = (orphan, gone)
IsOrphan-Verdict i db s orphan (err e, t) _ = λ ns route. absurd (orphan ns route)

verdict :
    (remove_vhr : DavResource → M (Unit {0})) (keep_files : Bool) (r : DavResource) (s : Store)
    (search : Result Outcome × Store)
    → Answers s.db.binds root_collection_id r.serialno [] search.0 × (search.1.db ≡ s.db)
    → Verdict r.serialno s.db (behind (delete_unreached remove_vhr keep_files r) search)
verdict remove_vhr keep_files r s (ok (shortest_path (some p)), t) ((ns, _, route), same) =
    ((ns, route), same)
verdict remove_vhr keep_files r s (ok (shortest_path none), t) (none_there, same) =
    IsOrphan-Verdict r.serialno s.db s (none_there refl) _
      (delete_resource-Deleted remove_vhr keep_files r t)
verdict remove_vhr keep_files r s (ok out_of_fuel, t) (impossible, same) = elim impossible [ ]
verdict remove_vhr keep_files r s (err e, t) (_, same) = λ ns route. same

-- Whatever statements the DBMS refuses: if the call reports that it deleted the resource, then no
-- route led to it from the root collection, and its row is gone; if it reports that it did not, then
-- there is such a route, and the database is as it was; and where there is a route, an error leaves
-- the database as it was too.
pub delete_if_orphaned-Verdict :
    (remove_vhr : DavResource → M (Unit {0})) (keep_files : Bool) (r : DavResource) (s : Store)
    → Verdict r.serialno s.db (sabridge_delete_if_orphaned remove_vhr keep_files r s)
unfolding sabridge_delete_if_orphaned dbms_find_shortest_path
delete_if_orphaned-Verdict remove_vhr keep_files r s =
    verdict remove_vhr keep_files r s _
      (find_shortest_path_excl_binds-Answers root_collection_id r.serialno [] s)
