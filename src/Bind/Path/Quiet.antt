-- ===== src/Bind/Path/Quiet.antt =====
-- The search of limestone/dbms_bind.c on a DBMS that refuses no statement.
use mathlib.Core.Path.{subst}
use limestone.Prelude.{
  ℕ, zero, suc, ◌+◌, ◌≡◌, refl, ap, ◌∙◌, inl, inr, none, some, List, [], ◌∷◌, ◌++◌, Bytes, ◌==◌,
  keep, length, Bool-cases,
}
use limestone.Store.{Db, M, ok, quiet, select}
use limestone.Bind.Path.{
  is_selected, Hash, Scanned, found, more, scan, Outcome, shortest_path, out_of_fuel, continue,
  search_rounds, dbms_find_shortest_path,
}
use limestone.Bind.Path.Route.{Route}
use limestone.Bind.Path.Search.{Answers, find_shortest_path_excl_binds-Answers}

-- The call ends without an error and leaves the store.
abbrev Ends : Db → M Outcome → Type 0
Ends db m = (o : Outcome) × (m (quiet db) ≡ (ok o, quiet db))

continue-Ends :
    (db : Db) (go : List ℕ → Hash → M Outcome) (r : Scanned)
    → ((new : List ℕ) (h : Hash) → Ends db (go new h))
    → Ends db (continue go r)
continue-Ends db go (found p) step = (shortest_path (some p), refl)
continue-Ends db go (more h []) step = (shortest_path none, refl)
continue-Ends db go (more h (f ∷ fs)) step = step (f ∷ fs) h

search_rounds-Ends :
    (db : Db) (n from : ℕ) (excl fathers : List ℕ) (h : Hash)
    → Ends db (search_rounds n from excl fathers h)
unfolding search_rounds select
search_rounds-Ends db zero from excl fathers h = (out_of_fuel, refl)
search_rounds-Ends db (suc n) from excl fathers h =
    continue-Ends db (λ new h'. search_rounds n from [] (fathers ++ new) h')
      (scan from (keep (is_selected excl fathers) db.binds) h [])
      (λ new h'. search_rounds-Ends db n from [] (fathers ++ new) h')

find_shortest_path-Ends : (db : Db) (from to : ℕ) → Ends db (dbms_find_shortest_path from to)
unfolding dbms_find_shortest_path
find_shortest_path-Ends db from to = elim (Bool-cases (from == to)) [
  | inl e ↦ rw e (shortest_path (some []), refl)
  | inr e ↦ rw e (search_rounds-Ends db (length db.binds + 1) from [] (to ∷ []) ((to, []) ∷ []))
]

no_path :
    (db : Db) (from to : ℕ) (o : Outcome)
    → ((ns : List Bytes) → ¬ Route db.binds from to ns)
    → Answers db.binds from to [] (ok o)
    → o ≡ shortest_path none
no_path db from to (shortest_path (some p)) none_there (ns, _, route) = absurd (none_there ns route)
no_path db from to (shortest_path none) none_there _ = refl
no_path db from to out_of_fuel none_there impossible = elim impossible [ ]

-- Where no route leads from one resource to another, the search returns no path.
pub find_shortest_path_none :
    (db : Db) (from to : ℕ)
    → ((ns : List Bytes) → ¬ Route db.binds from to ns)
    → dbms_find_shortest_path from to (quiet db) ≡ (ok (shortest_path none), quiet db)
unfolding dbms_find_shortest_path
find_shortest_path_none db from to none_there =
    let (o, ends) = find_shortest_path-Ends db from to in
    let answers = (find_shortest_path_excl_binds-Answers from to [] (quiet db)).0 in
    let is =
      no_path db from to o none_there
        (subst (Answers db.binds from to []) (ap (λ x. x.0) ends) answers) in
    ends ∙ ap (λ x. (ok x, quiet db)) is
