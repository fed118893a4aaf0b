-- ===== src/Tests/Paths.antt =====
-- The binds of the small server, and what leads to its resources.
use mathlib.Core.Path.{subst}
use limestone.Prelude.{
  true, ◌≡◌, refl, sym, inl, inr, false, none, some, [], ◌∷◌, ◌++◌, codes, In, arith,
}
use limestone.Store.{Bind, Db, collection, select, update, ok, quiet, M, pure}
use limestone.Text.Uri.{compact_uri}
use limestone.Text.Uri.Compact.{segments}
use limestone.Bind.Rows.{
  find_bind, dbms_insert_bind, dbms_delete_bind, dbms_get_child_binds, dbms_rebind_resource,
}
use limestone.Bind.Rows.Unique.{IsUnique}
use limestone.Bind.Rows.Insert.{row_of, Inserted, insert_bind-Inserted}
use limestone.Bind.Rows.Delete.{Deleted, delete_bind-Deleted}
use limestone.Bind.Rows.Children.{Children, get_child_binds-Children}
use limestone.Bind.Rows.Rebind.{Moved, rebind_resource-Moved}
use limestone.Bind.Path.{shortest_path, dbms_find_shortest_path, dbms_find_shortest_path_excl_binds}
use limestone.Bind.Path.Route.{Route, Spells}
use limestone.Bind.Path.Search.{find_shortest_path_excl_binds-Answers}
use limestone.Bind.Path.Exclusion.{excluded_bind_used}
use limestone.Bind.Lookup.{Found, found, has_question_mark, any_question_mark, dbms_lookup_uri}
use limestone.Bind.Lookup.Resolve.{lookup_uri_sound, lookup_uri_complete}
use limestone.Bind.Lookup.RoundTrip.{IsName, lookup-find_shortest_path}
use limestone.Bind.Cleanup.{first_request, requested}
use limestone.Bridge.Delete.{DavResource, sabridge_delete_if_orphaned}
use limestone.Bridge.Delete.Orphan.{Verdict, delete_if_orphaned-Verdict}
use limestone.Bridge.Reverse.{Reverses, sabridge_reverse_lookup, reverse_lookup-Reverses}
use limestone.Bridge.Collect.{gc_round}
use limestone.Bridge.Collect.Safe.{SparedRequest, gc_round_spares}
use limestone.Tests.Data.{two_rows, sample_db}

-- The search finds /a/b.
find_shortest_path_excl_binds_example : Spells two_rows 2 4 (codes "/a/b") × (sample_db ≡ sample_db)
unfolding dbms_find_shortest_path_excl_binds select
find_shortest_path_excl_binds_example =
    find_shortest_path_excl_binds-Answers 2 4 [] (quiet sample_db)

two_rows-IsUnique : IsUnique two_rows
unfolding find_bind
two_rows-IsUnique = (refl, (refl, tt))

first-IsName : IsName (codes "a")
unfolding has_question_mark
first-IsName = record { filled = λ e. cc; whole = (refl, tt); plain = refl }

second-IsName : IsName (codes "b")
unfolding has_question_mark
second-IsName = record { filled = λ e. cc; whole = (refl, tt); plain = refl }

two_names : (b : Bind) → In b two_rows → IsName b.name
two_names b (inl e) = rw e first-IsName
two_names b (inr (inl e)) = rw e second-IsName
two_names b (inr (inr m)) = elim m [ ]

sample_search :
    dbms_find_shortest_path 2 4 (quiet sample_db)
    ≡ (ok (shortest_path (some (codes "/a/b"))), quiet sample_db)
unfolding dbms_find_shortest_path select
sample_search = refl

lookup-find_shortest_path_example :
    (l : Found) × (dbms_lookup_uri segments (codes "/a/b") (quiet sample_db)
      ≡ (ok (found l), quiet sample_db))
    × (l.resource_id ≡ some 4)
lookup-find_shortest_path_example =
    lookup-find_shortest_path segments sample_db 4 (codes "/a/b") (λ s. refl) two_rows-IsUnique
      two_names sample_search

way_to_b : Route two_rows 2 4 (codes "a" ∷ codes "b" ∷ [])
way_to_b = (_, inl refl, refl, refl, (_, inr (inl refl), refl, refl, refl))

sample_names : segments (compact_uri (codes "/a//b/")) ≡ codes "a" ∷ codes "b" ∷ []
unfolding segments compact_uri
sample_names = refl

sample_found : Found
sample_found = record {
  resource_id = some 4;
  parent_id = 0;
  bind_id = 11;
  updated_at = 100;
  uri = none;
}

sample_lookup :
    dbms_lookup_uri segments (codes "/a//b/") (quiet sample_db)
    ≡ (ok (found sample_found), quiet sample_db)
unfolding dbms_lookup_uri select segments compact_uri sample_found
sample_lookup = refl

lookup_uri_sound_example : Route two_rows 2 4 (segments (compact_uri (codes "/a//b/")))
unfolding sample_found
lookup_uri_sound_example =
    lookup_uri_sound segments (codes "/a//b/") (quiet sample_db) (quiet sample_db) sample_found 4
      sample_lookup refl

sample_clean : any_question_mark (segments (compact_uri (codes "/a//b/"))) ≡ false
unfolding any_question_mark segments compact_uri
sample_clean = refl

lookup_uri_complete_example :
    (l : Found) × (dbms_lookup_uri segments (codes "/a//b/") (quiet sample_db)
      ≡ (ok (found l), quiet sample_db))
    × (l.resource_id ≡ some 4)
lookup_uri_complete_example =
    lookup_uri_complete segments (codes "/a//b/") sample_db 4 two_rows-IsUnique sample_clean
      (subst (Route two_rows 2 4) (sym sample_names) way_to_b)

excluded_bind_used_example :
    dbms_find_shortest_path_excl_binds 2 4 (10 ∷ []) (quiet sample_db)
    ≡ (ok (shortest_path (some (codes "/a/b"))), quiet sample_db)
excluded_bind_used_example =
    excluded_bind_used sample_db 10 11 2 3 4 100 (codes "a") (codes "b") refl (λ e. ground arith)
      (λ e. ground arith) (λ e. ground arith) (λ e. ground arith)

sample_with : Db
sample_with = record sample_db {
  binds = two_rows ++ (row_of 12 200 6 3 (codes "c") ∷ []);
  binds_id_seq = 13;
}

insert_bind_example : Inserted 200 6 3 (codes "c") sample_db (ok tt, quiet sample_with)
unfolding dbms_insert_bind update sample_with
insert_bind_example = insert_bind-Inserted 200 6 3 (codes "c") (quiet sample_db) two_rows-IsUnique

delete_bind_example :
    Deleted 3 4 (codes "b") sample_db (dbms_delete_bind 3 4 (codes "b") (quiet sample_db))
delete_bind_example = delete_bind-Deleted 3 4 (codes "b") (quiet sample_db) two_rows-IsUnique

no_versions : DavResource → M (Unit {0})
no_versions r = pure tt

orphan_resource : DavResource
orphan_resource = record { serialno = 6; kind = some collection; sha1str = none }

-- The resource without a bind is deleted.
delete_if_orphaned_example :
    Verdict 6 sample_db
      (sabridge_delete_if_orphaned no_versions false orphan_resource (quiet sample_db))
unfolding orphan_resource
delete_if_orphaned_example =
    delete_if_orphaned-Verdict no_versions false orphan_resource (quiet sample_db)

sample_asked :
    Route two_rows 2 (requested (first_request sample_db.cleanup)) (codes "a" ∷ codes "b" ∷ [])
unfolding requested first_request
sample_asked = way_to_b

gc_round_spares_example : SparedRequest sample_db (gc_round no_versions false (quiet sample_db))
gc_round_spares_example =
    gc_round_spares no_versions false (codes "a" ∷ codes "b" ∷ []) (quiet sample_db) sample_asked

rebind_resource_example :
    Moved 300 3
      (codes "b")
      2
      (codes "c")
      sample_db
      (dbms_rebind_resource 300 3 (codes "b") 2 (codes "c") (quiet sample_db))
rebind_resource_example = rebind_resource-Moved 300 3 (codes "b") 2 (codes "c") (quiet sample_db)

-- The resource without a bind has no URI.
reverse_lookup_example :
    Reverses (codes "/r") 6 sample_db (sabridge_reverse_lookup (codes "/r") 6 (quiet sample_db))
reverse_lookup_example = reverse_lookup-Reverses (codes "/r") 6 (quiet sample_db)

get_child_binds_example : Children 2 true sample_db (dbms_get_child_binds 2 true (quiet sample_db))
get_child_binds_example = get_child_binds-Children 2 true (quiet sample_db)
