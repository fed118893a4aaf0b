-- ===== src/Bind/PathBinds.antt =====
-- The binds along a path: `dbms_get_path_binds`, limestone/dbms_bind.c, lines 510-541.
use limestone.Prelude.{List, [], ◌∷◌, Bytes, ℕ}
use limestone.Store.{M, pure, ◌>>=◌, ignore_error}
use limestone.Bind.Rows.{BindInfo, bind_info, dbms_get_bind}
use limestone.Prelude.{none}
use limestone.Bind.Lookup.{root_collection_id}

-- The errors of `dbms_get_bind` are not looked at: a bind that is not got has zeros.
pub path_binds_from : ℕ → List Bytes → M (List BindInfo)
unfolding dbms_get_bind ignore_error
path_binds_from parent [] = pure []
path_binds_from parent (name ∷ names) = do
  b ← ignore_error (bind_info none) (dbms_get_bind parent name)
  bs ← path_binds_from b.resource_id names
  pure (b ∷ bs)

unfoldable pub dbms_get_path_binds : (Bytes → List Bytes) → Bytes → M (List BindInfo)
unfolding path_binds_from
dbms_get_path_binds strtok path = path_binds_from root_collection_id (strtok path)
