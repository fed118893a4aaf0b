-- ===== src/Lock/Write.antt =====
-- Writing locks: limestone/dbms_locks.c, lines 230-262, 295-474, and limestone/lock.c, lines 264-291.
pub mod Prefix
pub mod Add
use limestone.Prelude.{
  ℕ, zero, suc, ◌+◌, Bool, true, false, not, ◌&&◌, ◌||◌, Option, none, some, List, [], ◌∷◌, ◌++◌,
  Bytes, ◌==◌, str_eq, keep, map, length, if◌then◌else◌,
}
use limestone.Store.{
  LockRow, LockResource, BindLock, Principal, Db, M, Status, Result, ok, err, internal_server_error,
  precondition_failed, pure, fail, gets, ◌>>=◌, ◌>>◌, select, update, ignore_error, some_row,
  delete_locks,
}
use limestone.Text.Uuid.{behind}
use limestone.Bind.Rows.{first_row, BindInfo}
use limestone.Bind.PathBinds.{dbms_get_path_binds}
use limestone.Lock.Read.{Scope, shared, exclusive, Lock, Query, Joined, dbms_get_locks_by_where_str}

abbrev is_exclusive : Scope → Bool
is_exclusive exclusive = true
is_exclusive shared = false

abbrev depth_of : Bool → ℕ
depth_of true = 1
depth_of false = 0

abbrev pub lock_row : ℕ → ℕ → Bytes → Lock → ℕ → LockRow
lock_row id serialno root_path l owner = record {
  id = id;
  uuid = l.uuid;
  resource_id = serialno;
  owner_id = owner;
  exclusive = is_exclusive l.scope;
  depth = depth_of l.infinite;
  expires_at = l.timeout;
  lockroot = behind (length root_path) l.lockroot;
}

-- The schema forbids an owner that is NULL, for want of a principal of the name, and a UUID that is
-- there already.
unfoldable pub with_lock : ℕ → Bytes → Lock → Db → Option Db
unfolding first_row some_row behind
with_lock serialno root_path l db =
    let twice = some_row (λ (r : LockRow). str_eq r.uuid l.uuid) db.locks in
    elim (first_row (λ (p : Principal). str_eq p.name l.auth_user) db.principals) [
      | none ↦ none
      | some p ↦
          if twice
          then none
          else some (record db {
            locks = db.locks ++ (lock_row db.locks_id_seq serialno root_path l p.resource_id ∷ []);
            locks_id_seq = db.locks_id_seq + 1;
          })
    ]

-- Returns the id of the new row.
unfoldable pub dbms_insert_lock : ℕ → Bytes → Lock → M ℕ
unfolding with_lock
dbms_insert_lock serialno root_path l = do
  id ← gets (λ db. db.locks_id_seq)
  update internal_server_error (with_lock serialno root_path l)
  pure id

-- UNIQUE (bind_id, lock_id)
unfoldable pub add_bind_locks : ℕ → List BindInfo → List BindLock → Option (List BindLock)
unfolding some_row
add_bind_locks id [] rows = some rows
add_bind_locks id (b ∷ bs) rows =
    let rest = add_bind_locks id bs (record { lock_id = id; bind_id = b.bind_id } ∷ rows) in
    if some_row (λ (r : BindLock). (r.lock_id == id) && (r.bind_id == b.bind_id)) rows
    then none
    else rest

pub with_bind_locks : ℕ → List BindInfo → Db → Option Db
unfolding add_bind_locks
with_bind_locks id bs db = elim (add_bind_locks id bs db.binds_locks) [
  | none ↦ none
  | some rows ↦ some (record db { binds_locks = rows })
]

unfoldable pub dbms_insert_binds_locks : ℕ → List BindInfo → M (Unit {0})
unfolding with_bind_locks
dbms_insert_binds_locks id [] = pure tt
dbms_insert_binds_locks id (b ∷ bs) = update internal_server_error (with_bind_locks id (b ∷ bs))

-- PRIMARY KEY (lock_id, resource_id)
abbrev pub is_pair : ℕ → ℕ → LockResource → Bool
is_pair lock res r = (r.lock_id == lock) && (r.resource_id == res)

unfoldable pub add_lock_resources : List ℕ → ℕ → List LockResource → Option (List LockResource)
unfolding some_row
add_lock_resources [] res rows = some rows
add_lock_resources (i ∷ is) res rows =
    let rest = add_lock_resources is res (record { lock_id = i; resource_id = res } ∷ rows) in
    if some_row (is_pair i res) rows then none else rest

abbrev pub put_rows : Db → Option (List LockResource) → Option Db
put_rows db none = none
put_rows db (some rows) = some (record db { locks_resources = rows })

unfoldable pub with_lock_resources : List ℕ → ℕ → Db → Option Db
unfolding add_lock_resources
with_lock_resources ids res db = put_rows db (add_lock_resources ids res db.locks_resources)

-- The ids are those of the chain of locks.
unfoldable pub dbms_add_indirect_locks : ℕ → List ℕ → M (Unit {0})
unfolding with_lock_resources
dbms_add_indirect_locks res [] = pure tt
dbms_add_indirect_locks res (i ∷ is) =
    update internal_server_error (with_lock_resources (i ∷ is) res)

unfoldable pub dbms_remove_lock : Bytes → M (Unit {0})
unfolding delete_locks
dbms_remove_lock uuid =
    update internal_server_error (λ db. some (delete_locks (λ l. str_eq l.uuid uuid) db))

-- The pattern language of LIKE: % for any bytes, _ for one byte, and \ before a byte itself.
unfoldable pub some_suffix : (Bytes → Bool) → Bytes → Bool
some_suffix f [] = f []
some_suffix f (c ∷ s) = f (c ∷ s) || some_suffix f s

abbrev one_byte : (Bytes → Bool) → Bytes → Bool
one_byte f [] = false
one_byte f (c ∷ s) = f s

abbrev pub this_byte : ℕ → (Bytes → Bool) → Bytes → Bool
this_byte p f [] = false
this_byte p f (c ∷ s) = (c == p) && f s

abbrev pub no_bytes : Bytes → Bool
no_bytes [] = true
no_bytes (c ∷ s) = false

unfoldable pub like : Bytes → Bytes → Bool
unfolding some_suffix
like [] = no_bytes
like (p ∷ []) =
    if p == b'%'
    then some_suffix no_bytes
    else if p == b'_'
    then one_byte no_bytes
    else this_byte p no_bytes
like (p ∷ q ∷ ps) =
    let rest = like (q ∷ ps) in
    let escaped = this_byte q (like ps) in
    if p == b'%'
    then some_suffix rest
    else if p == b'_'
    then one_byte rest
    else if p == 92
    then escaped
    else this_byte p rest

unfoldable pub dbms_remove_direct_locks_w_prefix : Bytes → M (Unit {0})
unfolding like delete_locks
dbms_remove_direct_locks_w_prefix prefix =
    update internal_server_error
      λ db. some (delete_locks (λ l. like (prefix ++ (b'%' ∷ [])) l.lockroot) db)

unfoldable pub dbms_remove_indirect_lock : ℕ → ℕ → M (Unit {0})
dbms_remove_indirect_lock lock res = update internal_server_error λ db.
    some (record db { locks_resources = keep (λ r. not (is_pair lock res r)) db.locks_resources })

abbrev pub refreshed : ℕ → ℕ → LockRow → LockRow
refreshed id time l = if l.id == id then record l { expires_at = time } else l

abbrev refresh_found : ℕ → List Lock → M Lock
refresh_found time [] = fail precondition_failed
refresh_found time (l ∷ ls) = do
  update internal_server_error
      (λ db. some (record db { locks = map (refreshed l.lock_id time) db.locks }))
  pure (record l { timeout = time })

unfoldable pub dbms_refresh_lock : Query → Bytes → ℕ → M Lock
unfolding some_row dbms_get_locks_by_where_str
dbms_refresh_lock q uuid time = do
  found ←
      dbms_get_locks_by_where_str (record q { resolve_indirect = true })
        (λ db row.
          some_row (is_pair row.lock.id q.serialno) db.locks_resources
          && str_eq row.lock.uuid uuid
          && (row.lock.resource_id == row.resource_id))
  refresh_found time found

-- The loop over the chain of locks.
unfoldable pub remove_each : List ℕ → ℕ → M (Unit {0})
unfolding dbms_remove_indirect_lock
remove_each [] res = pure tt
remove_each (i ∷ is) res = do dbms_remove_indirect_lock i res; remove_each is res

-- `lock` is the first of the chain and `more` are the ids of the others. The path binds are read
-- also after an error of the insertion.
pub append_direct : (Bytes → List Bytes) → ℕ → Bytes → Lock → M ℕ
unfolding dbms_insert_lock dbms_get_path_binds dbms_insert_binds_locks
append_direct strtok serialno root_path l s =
    let (inserted, s') = dbms_insert_lock serialno root_path l s in
    (do
      binds ← dbms_get_path_binds strtok (behind (length root_path) l.lockroot)
      id ← (λ t. (inserted, t))
      dbms_insert_binds_locks id binds
      pure id)
      s'

unfoldable pub dav_repos_append_locks :
    (Bytes → List Bytes) → ℕ → Bytes → Bool → Lock → List ℕ → M (Unit {0})
unfolding append_direct remove_each dbms_add_indirect_locks
dav_repos_append_locks strtok serialno root_path make_indirect l more = do
  id ← (if make_indirect then pure l.lock_id else append_direct strtok serialno root_path l)
  remove_each (id ∷ more) serialno
  dbms_add_indirect_locks serialno (id ∷ more)
