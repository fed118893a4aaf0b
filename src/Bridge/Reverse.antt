-- ===== src/Bridge/Reverse.antt =====
-- The URI of a resource: `sabridge_reverse_lookup`, limestone/bridge.c, lines 876-894.
use limestone.Prelude.{ℕ, ◌≡◌, refl, ap, none, some, List, [], ◌∷◌, ◌++◌, Bytes}
use limestone.Store.{Db, Store, M, Result, ok, err, internal_server_error, pure, ◌>>=◌, behind}
use limestone.Text.Uri.{slash}
use limestone.Bind.Path.{Outcome, shortest_path, out_of_fuel, dbms_find_shortest_path}
use limestone.Bind.Path.Route.{Route, render}
use limestone.Bind.Path.Search.{Answers, find_shortest_path_excl_binds-Answers}
use limestone.Bind.Lookup.{root_collection_id}

-- The URI that is set, or strcmp called with a NULL.
pub data Reverse : Type 0 where
  uri : Bytes → Reverse
  null_read : Reverse

abbrev pub or_slash : Bytes → Bytes
or_slash [] = slash ∷ []
or_slash (c ∷ s) = c ∷ s

abbrev pub reversed : Bytes → Outcome → Reverse
reversed root_path (shortest_path (some p)) = uri (root_path ++ or_slash p)
reversed root_path (shortest_path none) = null_read
reversed root_path out_of_fuel = null_read

unfoldable pub sabridge_reverse_lookup : Bytes → ℕ → M Reverse
unfolding dbms_find_shortest_path
sabridge_reverse_lookup root_path serialno = do
  path ← dbms_find_shortest_path root_collection_id serialno
  pure (reversed root_path path)

-- What the ends of the call say.
abbrev pub Reverses : Bytes → ℕ → Db → Result Reverse × Store → Type 0
Reverses root_path i db (ok (uri u), s') =
    ((ns : List Bytes) × Route db.binds root_collection_id i ns
      × (u ≡ root_path ++ or_slash (render ns)))
    × (s'.db ≡ db)
Reverses root_path i db (ok null_read, s') =
    ((ns : List Bytes) → ¬ Route db.binds root_collection_id i ns) × (s'.db ≡ db)
Reverses root_path i db (err e, s') = (e ≡ internal_server_error) × (s'.db ≡ db)

Answers-Reverses :
    (root_path : Bytes) (i : ℕ) (db : Db) (r : Result Outcome × Store)
    → Answers db.binds root_collection_id i [] r.0
    → r.1.db ≡ db
    → Reverses root_path i db (behind (λ o. pure (reversed root_path o)) r)
Answers-Reverses root_path i db (ok (shortest_path (some p)), s) (ns, spelled, route) same =
    ((ns, route, ap (λ x. root_path ++ or_slash x) spelled), same)
Answers-Reverses root_path i db (ok (shortest_path none), s) orphan same = (orphan refl, same)
Answers-Reverses root_path i db (ok out_of_fuel, s) impossible same = elim impossible [ ]
Answers-Reverses root_path i db (err e, s) failed same = (failed, same)

-- Whatever statements the DBMS refuses, the call changes nothing. It sets a URI that spells a route
-- from the root collection to the resource behind the root path, a slash standing for the root
-- collection itself, or it ends with the error 500; or it reads a NULL, and then no such route exists.
pub reverse_lookup-Reverses :
    (root_path : Bytes) (i : ℕ) (s : Store)
    → Reverses root_path i s.db (sabridge_reverse_lookup root_path i s)
unfolding sabridge_reverse_lookup dbms_find_shortest_path
reverse_lookup-Reverses root_path i s =
    let (answers, same) = find_shortest_path_excl_binds-Answers root_collection_id i [] s in
    Answers-Reverses root_path i s.db _ answers same
