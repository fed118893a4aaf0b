-- ===== src/Lock/Indirect.antt =====
-- Taking away the indirect locks of a resource that its lock roots do not reach any more:
-- limestone/lock_bridge.c, lines 24-52.
pub mod Idle
use mathlib.Core.Path.{subst}
use limestone.Prelude.{
  ℕ, ◌≡◌, refl, sym, ap, ◌∙◌, inl, inr, Bool, true, false, not, ◌&&◌, ◌||◌, Option, none, some,
  List, [], ◌∷◌, ◌==◌, ==_iff, In, Bool-cases, if◌then◌else◌, arith,
}
use limestone.Store.{Db, Store, M, Result, ok, err, pure, ◌>>=◌, ◌>>◌, ignore_error}
use limestone.Store.Laws.{bind-eq-ok, bind-eq-err}
use limestone.Bind.Path.{Outcome, shortest_path, out_of_fuel, dbms_find_shortest_path}
use limestone.Lock.Read.{
  Lock, Query, Joined, lock_of, is_expired, turns_indirect, sort_rows, dbms_get_locks,
}
use limestone.Lock.Write.{dbms_remove_indirect_lock}

-- Whether `path` is NULL; it is after an error too.
abbrev is_unreached : Outcome → Bool
is_unreached (shortest_path (some p)) = false
is_unreached (shortest_path none) = true
is_unreached out_of_fuel = true

abbrev remove_if : Bool → ℕ → ℕ → Bool → M Bool
remove_if true lock serialno removed = do
  ignore_error tt (dbms_remove_indirect_lock lock serialno)
  pure true
remove_if false lock serialno removed = pure removed

-- The loop; the errors of its calls are not looked at.
unfoldable pub remove_unreached : ℕ → List Lock → Bool → M Bool
unfolding dbms_find_shortest_path dbms_remove_indirect_lock ignore_error
remove_unreached serialno [] removed = pure removed
remove_unreached serialno (l ∷ ls) removed = do
  path ← ignore_error (shortest_path none) (dbms_find_shortest_path l.res_id serialno)
  removed' ← remove_if (is_unreached path) l.lock_id serialno removed
  remove_unreached serialno ls removed'

-- Returns `removed`.
unfoldable pub sabridge_remove_all_indirect : Query → M Bool
unfolding remove_unreached
sabridge_remove_all_indirect q = do
  locks ← ignore_error [] (dbms_get_locks (record q { resolve_indirect = false }))
  remove_unreached q.serialno locks false
