-- ===== src/Bind/Rows.antt =====
-- The statements on single binds: limestone/dbms_bind.c, lines 132-163, 277-378, 445-508 and 571-618.
pub mod Unique
pub mod Insert
pub mod Delete
pub mod Rebind
pub mod Children
use limestone.Prelude.{
  ℕ, ◌+◌, Bool, not, ◌&&◌, Option, none, some, List, [], ◌∷◌, ◌++◌, Bytes, ◌==◌, ltb, str_eq, keep,
  if◌then◌else◌,
}
use limestone.Store.{Bind, Db, M, internal_server_error, select, update, delete_binds}

-- collection_id = ? AND name = ?
abbrev pub is_at : ℕ → Bytes → Bind → Bool
is_at coll name b = (b.collection_id == coll) && str_eq b.name name

-- The first row that passes a test.
unfoldable pub first_row : {A : Type 0} → (A → Bool) → List A → Option A
first_row p [] = none
first_row p (b ∷ bs) = if p b then some b else first_row p bs

unfoldable pub find_bind : ℕ → Bytes → List Bind → Option Bind
unfolding first_row
find_bind coll name bs = first_row (is_at coll name) bs

-- collection_id=? AND resource_id=? AND name=?
abbrev pub is_bind : ℕ → ℕ → Bytes → Bind → Bool
is_bind coll res name b = is_at coll name b && (b.resource_id == res)

-- The rows of binds_locks go with the bind.
unfoldable pub dbms_delete_bind : ℕ → ℕ → Bytes → M (Unit {0})
unfolding delete_binds
dbms_delete_bind coll res name =
    update internal_server_error (λ db. some (delete_binds (is_bind coll res name) db))

-- The schema forbids a second bind of the name in the collection.
abbrev pub placed : ℕ → ℕ → ℕ → Bytes → Db → Option Bind → Option Db
placed now res coll name db (some b) = none
placed now res coll name db none = some (record db {
  binds =
      db.binds
      ++ (record {
        id = db.binds_id_seq;
        name = name;
        collection_id = coll;
        resource_id = res;
        updated_at = now;
      }
          ∷ []);
  binds_id_seq = db.binds_id_seq + 1;
})

abbrev pub new_bind : ℕ → ℕ → ℕ → Bytes → Db → Option Db
new_bind now res coll name db = placed now res coll name db (find_bind coll name db.binds)

-- A NULL name is sent as NULL, which the schema forbids.
unfoldable pub dbms_insert_bind : ℕ → ℕ → ℕ → Option Bytes → M (Unit {0})
unfolding find_bind
dbms_insert_bind now res coll none = update internal_server_error (λ db. none)
dbms_insert_bind now res coll (some name) =
    update internal_server_error (new_bind now res coll name)

-- Zero where there is no such bind.
unfoldable pub dbms_get_bind_resource_id : ℕ → Bytes → M ℕ
unfolding find_bind
dbms_get_bind_resource_id coll name =
    select internal_server_error
      λ db. elim (find_bind coll name db.binds) [ none ↦ 0 | some b ↦ b.resource_id ]

-- What `dbms_get_bind` fills in, zeros where there is no row.
pub record BindInfo : Type 0 where
  pub bind_id : ℕ
  pub resource_id : ℕ
  pub updated_at : ℕ

abbrev pub bind_info : Option Bind → BindInfo
bind_info none = record { bind_id = 0; resource_id = 0; updated_at = 0 }
bind_info (some b) = record {
  bind_id = b.id;
  resource_id = b.resource_id;
  updated_at = b.updated_at;
}

unfoldable pub dbms_get_bind : ℕ → Bytes → M BindInfo
unfolding find_bind
dbms_get_bind coll name =
    select internal_server_error λ db. bind_info (find_bind coll name db.binds)

-- UPDATE binds SET collection_id=?, name=?, updated_at=? WHERE collection_id=? AND name=?
abbrev pub move_row : ℕ → ℕ → Bytes → ℕ → Bytes → Bind → Bind
move_row now src_coll src_name dst_coll dst_name b =
    if is_at src_coll src_name b
    then record b { collection_id = dst_coll; name = dst_name; updated_at = now }
    else b

unfoldable pub move_rows : ℕ → ℕ → Bytes → ℕ → Bytes → List Bind → List Bind
move_rows now src_coll src_name dst_coll dst_name [] = []
move_rows now src_coll src_name dst_coll dst_name (b ∷ bs) =
    move_row now src_coll src_name dst_coll dst_name b
    ∷ move_rows now src_coll src_name dst_coll dst_name bs

-- A bind at the source may only move to a place that no other bind has.
abbrev pub moved_to : List Bind → Db → Option Bind → Option Bind → Option Db
moved_to rows db none taken = some db
moved_to rows db (some b) none = some (record db { binds = rows })
moved_to rows db (some b) (some c) = none

abbrev pub is_taken : ℕ → Bytes → ℕ → Bytes → Bind → Bool
is_taken src_coll src_name dst_coll dst_name b =
    is_at dst_coll dst_name b && not (is_at src_coll src_name b)

abbrev pub moved : ℕ → ℕ → Bytes → ℕ → Bytes → Db → Option Db
moved now src_coll src_name dst_coll dst_name db =
    moved_to (move_rows now src_coll src_name dst_coll dst_name db.binds) db
      (find_bind src_coll src_name db.binds)
      (first_row (is_taken src_coll src_name dst_coll dst_name) db.binds)

unfoldable pub dbms_rebind_resource : ℕ → ℕ → Bytes → ℕ → Bytes → M (Unit {0})
unfolding find_bind move_rows
dbms_rebind_resource now src_coll src_name dst_coll dst_name =
    update internal_server_error (moved now src_coll src_name dst_coll dst_name)

-- The rows as a list that is built from its end, so in reverse.
unfoldable pub child_rows : ℕ → Bool → List Bind → List Bind → List Bind
child_rows coll exclude_self [] head = head
child_rows coll exclude_self (b ∷ bs) head = child_rows coll exclude_self bs (
    if (b.collection_id == coll) && not (exclude_self && (b.resource_id == b.collection_id))
    then b ∷ head
    else head)

unfoldable pub dbms_get_child_binds : ℕ → Bool → M (List Bind)
unfolding child_rows
dbms_get_child_binds coll exclude_self =
    select internal_server_error λ db. child_rows coll exclude_self db.binds []

-- greatest(updated_at, MAX(updated_at)) over the binds of a collection
unfoldable pub max_updated_at : ℕ → ℕ → List Bind → ℕ
max_updated_at coll latest [] = latest
max_updated_at coll latest (b ∷ bs) =
    max_updated_at coll
      (if (b.collection_id == coll) && ltb latest b.updated_at then b.updated_at else latest) bs
