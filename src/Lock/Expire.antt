-- ===== src/Lock/Expire.antt =====
-- `dbms_delete_exp_locks`, limestone/dbms_locks.c, lines 117-171.
pub mod Locked
pub mod Null
use limestone.Prelude.{
  ℕ, Bool, true, false, not, ◌&&◌, ◌||◌, Option, none, some, List, [], ◌∷◌, ◌==◌, keep, map,
  if◌then◌else◌,
}
use limestone.Store.{
  Resource, ResourceType, LockRow, Db, M, Status, internal_server_error, pure, gets, ◌>>=◌, ◌>>◌,
  select, update, some_row, delete_locks, delete_resources,
}
use limestone.Bind.Path.{is_in}

-- The text `exp_locknull_ids`. A second id is printed as ",%ld" over the first, which no statement
-- can hold.
pub data IdText : Type 0 where
  absent : IdText
  one : ℕ → IdText
  comma_first : ℕ → IdText

unfoldable pub locknull_text : IdText → List ℕ → IdText
locknull_text t [] = t
locknull_text absent (i ∷ is) = locknull_text (one i) is
locknull_text (one j) (i ∷ is) = locknull_text (comma_first i) is
locknull_text (comma_first j) (i ∷ is) = locknull_text (comma_first i) is

abbrev is_locknull : ResourceType → Bool
is_locknull ResourceType.locknull = true
is_locknull _ = false

-- The locks with the ids, and the resources that they are on.
abbrev pub is_lock_in : List ℕ → LockRow → Bool
is_lock_in ids l = is_in ids l.id

-- SELECT id FROM resources … AND type = 'LockNull'
abbrev pub is_locked_null : List ℕ → Db → Resource → Bool
is_locked_null ids db r =
    is_locknull r.kind && some_row (λ l. is_lock_in ids l && (l.resource_id == r.id)) db.locks

unfoldable pub locknull_ids : List ℕ → Db → List ℕ
unfolding some_row
locknull_ids ids db = map (λ (r : Resource). r.id) (keep (is_locked_null ids db) db.resources)

-- DELETE FROM resources WHERE id IN (…) AND id NOT IN (SELECT resource_id FROM locks …)
abbrev pub without_unlocked : ℕ → Db → Db
without_unlocked i db =
    if some_row (λ (l : LockRow). l.resource_id == i) db.locks
    then db
    else delete_resources (λ r. r == i) db

unfoldable pub delete_locknulls : IdText → M (Unit {0})
unfolding some_row delete_resources
delete_locknulls absent = pure tt
delete_locknulls (one i) = update internal_server_error (λ db. some (without_unlocked i db))
delete_locknulls (comma_first i) = update internal_server_error (λ db. none)

unfoldable pub dbms_delete_exp_locks : List ℕ → M (Unit {0})
unfolding locknull_ids locknull_text delete_locknulls delete_locks
dbms_delete_exp_locks ids = do
  nulls ← select internal_server_error (locknull_ids ids)
  update internal_server_error (λ db. some (delete_locks (is_lock_in ids) db))
  delete_locknulls (locknull_text absent nulls)
