-- ===== src/Lock/Read.antt =====
-- Reading locks: limestone/dbms_locks.c, lines 28-115 and 173-228, and limestone/lock.c, lines 229-262.
pub mod Live
pub mod Where
pub mod Sticky
use limestone.Prelude.{
  ℕ, ◌+◌, ◌*◌, Bool, true, false, not, ◌&&◌, ◌||◌, Option, none, some, List, [], ◌∷◌, ◌++◌, Bytes,
  ◌==◌, leb, str_eq, keep, length, if◌then◌else◌,
}
use limestone.Store.{
  LockRow, LockResource, Principal, Db, M, Status, Result, ok, err, internal_server_error, pure,
  fail, gets, ◌>>=◌, ◌>>◌, select, ignore_error,
}
use limestone.Bind.Rows.{first_row}
use limestone.Lock.Expire.{dbms_delete_exp_locks}

pub data Scope : Type 0 where
  shared exclusive : Scope

pub data RecType : Type 0 where
  direct indirect : RecType

-- The dav_lock; `infinite` is depth DAV_INFINITY, and timeout 0 is a lock that does not expire.
pub record Lock : Type 0 where
  pub lock_id : ℕ
  pub uuid : Bytes
  pub scope : Scope
  pub rectype : RecType
  pub infinite : Bool
  pub timeout : ℕ
  pub auth_user : Bytes
  pub res_id : ℕ
  pub lockroot : Bytes

-- A row of locks_resources joined with its lock and the lock's owner.
pub record Joined : Type 0 where
  pub resource_id : ℕ
  pub lock : LockRow
  pub owner : Principal

pub join_owners : LockResource → LockRow → List Principal → List Joined
join_owners r l [] = []
join_owners r l (p ∷ ps) =
    if p.resource_id == l.owner_id
    then record { resource_id = r.resource_id; lock = l; owner = p } ∷ join_owners r l ps
    else join_owners r l ps

pub join_locks : LockResource → List LockRow → List Principal → List Joined
unfolding join_owners
join_locks r [] ps = []
join_locks r (l ∷ ls) ps =
    if l.id == r.lock_id then join_owners r l ps ++ join_locks r ls ps else join_locks r ls ps

unfoldable pub join_rows : List LockResource → List LockRow → List Principal → List Joined
unfolding join_locks
join_rows [] ls ps = []
join_rows (r ∷ rs) ls ps = join_locks r ls ps ++ join_rows rs ls ps

-- The resource that is asked about, the root path of the server, whether indirect locks are
-- resolved, and the time.
pub record Query : Type 0 where
  pub serialno : ℕ
  pub root_path : Bytes
  pub resolve_indirect : Bool
  pub now : ℕ

abbrev scope_of : Bool → Scope
scope_of true = exclusive
scope_of false = shared

-- The lock that a row becomes; `is_indirect` is the flag of the loop, set by this row or before it.
unfoldable pub lock_of : Query → Bool → Joined → Lock
lock_of q is_indirect row = record {
  lock_id = row.lock.id;
  uuid = row.lock.uuid;
  scope = scope_of row.lock.exclusive;
  rectype = if is_indirect && not q.resolve_indirect then indirect else direct;
  infinite = if is_indirect && not q.resolve_indirect then false else not (row.lock.depth == 0);
  timeout = row.lock.expires_at;
  auth_user = row.owner.name;
  res_id = if is_indirect && not q.resolve_indirect then q.serialno else row.lock.resource_id;
  lockroot = q.root_path ++ row.lock.lockroot;
}

abbrev pub is_expired : ℕ → Lock → Bool
is_expired now l = not (l.timeout == 0) && leb l.timeout now

-- What the loop leaves: the locks, and the ids of the expired ones.
pub record Sorted : Type 0 where
  pub locks : List Lock
  pub expired : List ℕ

abbrev pub add_lock : ℕ → Lock → Sorted → Sorted
add_lock now l rest =
    if is_expired now l
    then record rest { expired = l.lock_id ∷ rest.expired }
    else record rest { locks = l ∷ rest.locks }

abbrev pub turns_indirect : Query → Joined → Bool
turns_indirect q row = not (row.lock.resource_id == q.serialno)

unfoldable pub sort_rows : Query → Bool → List Joined → Sorted
unfolding lock_of
sort_rows q is_indirect [] = record { locks = []; expired = [] }
sort_rows q is_indirect (row ∷ rows) =
    let flag = is_indirect || turns_indirect q row in
    add_lock q.now (lock_of q flag row) (sort_rows q flag rows)

-- The expired locks are deleted, and an error there is not looked at.
pub drop_expired : List ℕ → M (Unit {0})
unfolding ignore_error
drop_expired [] = pure tt
drop_expired (i ∷ is) = ignore_error tt (dbms_delete_exp_locks (i ∷ is))

-- `where` is the condition of the statement on the joined rows, which may look into other tables.
unfoldable pub dbms_get_locks_by_where_str : Query → (Db → Joined → Bool) → M (List Lock)
unfolding join_rows sort_rows drop_expired
dbms_get_locks_by_where_str q condition = do
  rows ←
      select internal_server_error
        λ db. keep (condition db) (join_rows db.locks_resources db.locks db.principals)
  let sorted = sort_rows q false rows
  drop_expired sorted.expired
  pure sorted.locks

unfoldable pub dbms_get_locks : Query → M (List Lock)
unfolding dbms_get_locks_by_where_str
dbms_get_locks q = dbms_get_locks_by_where_str q (λ db row. row.resource_id == q.serialno)

-- The token's text stands in the statement; it is a NULL for DAV:no-lock.
unfoldable pub dbms_find_lock_by_token : Query → Bytes → M (List Lock)
unfolding dbms_get_locks_by_where_str
dbms_find_lock_by_token q uuid =
    dbms_get_locks_by_where_str (record q { resolve_indirect = false })
      (λ db row. (row.resource_id == q.serialno) && str_eq row.lock.uuid uuid)

-- SELECT COUNT(lock_id) FROM locks_resources WHERE resource_id=?
unfoldable pub dbms_resource_has_locks : ℕ → M ℕ
dbms_resource_has_locks serialno =
    select internal_server_error
      λ db. length (keep (λ (r : LockResource). r.resource_id == serialno) db.locks_resources)
