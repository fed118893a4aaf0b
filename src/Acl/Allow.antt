-- ===== src/Acl/Allow.antt =====
-- Whether a principal has a privilege on a resource: limestone/dbms_acl.c, lines 437-573.
pub mod Order
pub mod Rule
pub mod Decision
use limestone.Prelude.{
  ℕ, suc, ◌+◌, ◌≡◌, Bool, true, false, not, ◌&&◌, ◌||◌, Option, none, some, List, [], ◌∷◌, map,
  Bytes, length, str_eq, ◌==◌, ltb, leb, keep, if◌then◌else◌,
}
use limestone.Store.{
  AceRow, AcePrivilege, AclPrivilege, AclInheritance, TransitiveMember, Db, Store, Result, ok, err,
  internal_server_error, select, some_row,
}
use limestone.Bind.Rows.{first_row}

abbrev pub is_one_of : ℕ → List ℕ → Bool
is_one_of n ms = some_row (λ m. n == m) ms

-- The membership rows of a principal: itself and the groups above it.
unfoldable pub groups_of : ℕ → List TransitiveMember → List ℕ
groups_of p ts = p ∷ map (λ t. t.transitive_group_id) (keep (λ t. t.transitive_member_id == p) ts)

-- What is asked for.
pub record Question : Type 0 where
  pub priv_ns_id : ℕ
  pub privilege : Bytes
  pub resource_id : ℕ

-- The privilege that is asked for, or one whose interval has that of it in it.
unfoldable pub includes : Question → List AclPrivilege → ℕ → Bool
unfolding some_row
includes q privs id =
    some_row
      (λ par.
        (par.id == id)
        && some_row
            (λ chi.
              str_eq chi.name q.privilege
              && (chi.priv_namespace_id == q.priv_ns_id)
              && leb par.lft chi.lft
              && leb chi.rgt par.rgt)
            privs)
      privs

-- The resource that is asked for, or one on its path.
unfoldable pub inherits_from : Question → List AclInheritance → ℕ → Bool
unfolding some_row
inherits_from q rows res =
    some_row
      (λ par.
        (par.resource_id == res)
        && some_row
            (λ chi. (chi.resource_id == q.resource_id) && is_one_of par.resource_id chi.path) rows)
      rows

-- The entries that the query joins for a principal.
unfoldable pub applies : Question → ℕ → Db → AceRow → Bool
unfolding groups_of includes inherits_from some_row
applies q p db a =
    is_one_of a.principal_id (groups_of p db.transitive_group_members)
    && some_row (λ x. (x.ace_id == a.id) && includes q db.acl_privileges x.privilege_id)
        db.dav_aces_privileges
    && inherits_from q db.acl_inheritance a.resource_id

abbrev path_of : Option AclInheritance → List ℕ
path_of none = []
path_of (some r) = r.path

-- An entry with its place in ORDER BY p_id, protected DESC, CHAR_LENGTH(par_res_path) DESC, id.
pub record Placed : Type 0 where
  pub ace : AceRow
  pub path_length : ℕ

abbrev pub place : (List ℕ → ℕ) → Db → AceRow → Placed
place char_length db a = record {
  ace = a;
  path_length =
      char_length (path_of (first_row (λ r. r.resource_id == a.resource_id) db.acl_inheritance));
}

-- Protected entries, longer paths, lower ids.
abbrev pub precedes : Bool → Bool → ℕ → ℕ → ℕ → ℕ → Bool
precedes true false m n i j = true
precedes false true m n i j = false
precedes true true m n i j = ltb n m || ((m == n) && ltb i j)
precedes false false m n i j = ltb n m || ((m == n) && ltb i j)

abbrev pub comes_before : Placed → Placed → Bool
comes_before a b =
    precedes a.ace.protected b.ace.protected a.path_length b.path_length a.ace.id b.ace.id

abbrev pub earlier : Placed → Option Placed → Option Placed
earlier a none = some a
earlier a (some b) = if comes_before b a then some b else some a

-- DISTINCT ON (p_id)
unfoldable pub first_placed : List Placed → Option Placed
first_placed [] = none
first_placed (a ∷ as') = earlier a (first_placed as')

-- `char_length` is CHAR_LENGTH of the text of a path.
unfoldable pub first_entry : (List ℕ → ℕ) → Question → ℕ → Db → Option Placed
unfolding applies first_placed first_row
first_entry char_length q p db =
    first_placed (map (place char_length db) (keep (applies q p db) db.aces))

-- A row of the answer: the order of its principal, and whether its entry grants.
pub record Answer : Type 0 where
  pub order : ℕ
  pub grants : Bool

abbrev pub answer_row : ℕ → Option Placed → List Answer → List Answer
answer_row order none rest = rest
answer_row order (some a) rest = record { order = order; grants = a.ace.grants } ∷ rest

unfoldable pub answers : (List ℕ → ℕ) → Question → ℕ → List ℕ → Db → List Answer
unfolding first_entry
answers char_length q order [] db = []
answers char_length q order (p ∷ ps) db =
    answer_row order (first_entry char_length q p db) (answers char_length q (suc order) ps db)

-- ace_cache of the resource.
pub record AceCache : Type 0 where
  pub principal_id : ℕ
  pub priv_ns_id : ℕ
  pub privilege : Bytes
  pub is_allow : Bool

-- The rows that are not fetched yet, and the last one.
pub record Cursor : Type 0 where
  pub rows : List Answer
  pub next_order : ℕ
  pub next_is_allow : Bool
  pub ret_val : Bool
  pub cache : Option AceCache

abbrev pub fetch : ℕ → Cursor → List Answer → Cursor
fetch max_order c [] = record c { next_order = max_order + 1 }
fetch max_order c (a ∷ rows) = record c {
  rows = rows;
  next_order = a.order;
  next_is_allow = a.grants;
  ret_val = if a.order == 1 then a.grants else c.ret_val;
}

abbrev pub fetch_if : Bool → ℕ → Cursor → Cursor
fetch_if true max_order c = fetch max_order c c.rows
fetch_if false max_order c = c

-- The cache is made anew for each principal.
abbrev pub cached : Question → ℕ → ℕ → Cursor → Cursor
cached q order p c = record c {
  cache = some (record {
    principal_id = p;
    priv_ns_id = q.priv_ns_id;
    privilege = q.privilege;
    is_allow = (c.next_order == order) && c.next_is_allow;
  });
}

unfoldable pub go_through : Question → ℕ → ℕ → List ℕ → Cursor → Cursor
go_through q max_order order [] c = c
go_through q max_order order (p ∷ ps) c =
    go_through q max_order (suc order) ps
      (cached q order p (fetch_if (ltb c.next_order order) max_order c))

abbrev pub is_hit : Question → ℕ → AceCache → Bool
is_hit q p c =
    (c.principal_id == p) && (c.priv_ns_id == q.priv_ns_id) && str_eq c.privilege q.privilege

-- TRUE, FALSE and HTTP_INTERNAL_SERVER_ERROR.
abbrev pub int_of : Bool → ℕ
int_of b = if b then 1 else 0

abbrev pub start_cursor : List Answer → Option AceCache → Cursor
start_cursor rows cache = record {
  rows = rows;
  next_order = 0;
  next_is_allow = false;
  ret_val = false;
  cache = cache;
}

abbrev pub concluded :
    Question
    → List ℕ
    → Option AceCache
    → Result (List Answer) × Store
    → (ℕ × Option AceCache) × Store
concluded q ps cache (ok rows, s) =
    let c = go_through q (length ps) 1 ps (start_cursor rows cache) in
    ((int_of c.ret_val, c.cache), s)
concluded q ps cache (err e, s) = ((500, cache), s)

abbrev pub super_user_id : ℕ
super_user_id = 1

-- The principals are the ids of the list, which has one at least. Returns the cache with the answer.
unfoldable pub query_allow :
    (List ℕ → ℕ) → Question → List ℕ → Option AceCache → Store → (ℕ × Option AceCache) × Store
unfolding answers go_through
query_allow char_length q ps cache s =
    concluded q ps cache (select internal_server_error (answers char_length q 1 ps) s)

abbrev pub unless_cached :
    Question
    → ℕ
    → Option AceCache
    → (Store → (ℕ × Option AceCache) × Store)
    → Store
    → (ℕ × Option AceCache) × Store
unless_cached q p none next s = next s
unless_cached q p (some c) next s =
    if is_hit q p c then ((int_of c.is_allow, some c), s) else next s

unfoldable pub dbms_is_allow :
    (List ℕ → ℕ) → Question → ℕ → List ℕ → Option AceCache → Store → (ℕ × Option AceCache) × Store
unfolding query_allow
dbms_is_allow char_length q p ps cache s =
    if p == super_user_id
    then ((1, cache), s)
    else unless_cached q p cache (query_allow char_length q (p ∷ ps) cache) s

-- What dav_repos_is_allow makes of it.
abbrev pub is_permitted : ℕ → Bool
is_permitted n = not (n == 0)
