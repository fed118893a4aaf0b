-- ===== src/Bind/Path/Exclusion.antt =====
-- The binds that `dbms_find_shortest_path_excl_binds` (limestone/dbms_bind.c, lines 165-267) is told to
-- leave out: its list is used up in the first round.
use limestone.Prelude.{ℕ, ◌≡◌, ◌≢◌, some, List, [], ◌∷◌, ◌++◌, Bytes, arith}
use limestone.Store.{Bind, Db, ok, quiet, select}
use limestone.Text.Uri.{slash}
use limestone.Bind.Path.{shortest_path, dbms_find_shortest_path_excl_binds}

-- A table of two binds, from a collection to a collection in it and from that one to a resource.
abbrev pub two_binds : ℕ → Bytes → ℕ → ℕ → ℕ → Bytes → ℕ → ℕ → List Bind
two_binds i n a b j m c t =
    record { id = i; name = n; collection_id = a; resource_id = b; updated_at = t }
    ∷ record { id = j; name = m; collection_id = b; resource_id = c; updated_at = t }
    ∷ []

-- Where the one way from a collection a to a resource c goes through a collection b between them,
-- the search that is told to leave out the upper bind, from a to b, returns the path through it.
pub excluded_bind_used :
    (db : Db) (i j a b c t : ℕ) (n m : Bytes)
    → db.binds ≡ two_binds i n a b j m c t
    → i ≢ j
    → a ≢ b
    → b ≢ c
    → a ≢ c
    → dbms_find_shortest_path_excl_binds a c (i ∷ []) (quiet db)
      ≡ (ok (shortest_path (some (slash ∷ n ++ (slash ∷ m ++ [])))), quiet db)
unfolding dbms_find_shortest_path_excl_binds select
excluded_bind_used db i j a b c t n m rows ij ab bc ac = rw rows (ground arith)
