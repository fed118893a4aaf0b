-- ===== src/Principal/Group.antt =====
-- Members of groups: limestone/principal.c, lines 57-95, limestone/dbms_principal.c, lines 415-690.
pub mod Closure
pub mod Joined
pub mod Keys
pub mod Grown
pub mod Loop
pub mod Add
pub mod Remove
use limestone.Prelude.{
  ℕ, ℤ, pos, negsuc, ◌+ℤ◌, ◌-ℤ◌, ◌*ℤ◌, is_zero, is_positive, int_eq, Bool, true, false, not, ◌&&◌,
  ◌||◌, Option, none, some, List, [], ◌∷◌, ◌++◌, map, ◌==◌, keep, if◌then◌else◌,
}
use limestone.Store.{
  GroupMember, TransitiveMember, Db, M, internal_server_error, conflict, pure, fail, ◌>>=◌, ◌>>◌,
  select, update, ignore_error, some_row,
}

abbrev pub is_member : ℕ → ℕ → GroupMember → Bool
is_member grp prin r = (r.group_id == grp) && (r.member_id == prin)

-- Whether the ids are a row's key.
abbrev pub is_key : ℕ → ℕ → TransitiveMember → Bool
is_key grp prin r = (r.transitive_group_id == grp) && (r.transitive_member_id == prin)

-- 0 or 1 for whether the query has a row, -1 for a query that fails.
abbrev pub row_or_none : Bool → ℤ
row_or_none b = if b then pos 1 else pos 0

unfoldable pub dbms_is_prin_in_grp : ℕ → ℕ → M ℤ
unfolding some_row
dbms_is_prin_in_grp prin_id grp_id = ignore_error (negsuc 0) (
    select internal_server_error
      λ db. row_or_none (some_row (is_member grp_id prin_id) db.group_members))

-- The groups above a group, and the principals below one, by the rows that count.
abbrev pub above : ℕ → List TransitiveMember → List ℕ
above grp ts =
    map (λ r. r.transitive_group_id)
      (keep (λ r. (r.transitive_member_id == grp) && is_positive r.transitive_count) ts)

abbrev pub below : ℕ → List TransitiveMember → List ℕ
below prin ts =
    map (λ r. r.transitive_member_id)
      (keep (λ r. (r.transitive_group_id == prin) && is_positive r.transitive_count) ts)

abbrev pub is_among : ℕ → List ℕ → Bool
is_among n ms = some_row (λ m. n == m) ms

-- Whether g and m share a cid.
abbrev pub joins : List ℕ → List ℕ → Bool
joins gs ms = some_row (λ g. is_among g ms) gs

unfoldable pub dbms_will_loop_prin_add_grp : ℕ → ℕ → M ℤ
unfolding some_row
dbms_will_loop_prin_add_grp grp_id prin_id = ignore_error (negsuc 0) (
    select internal_server_error λ db. row_or_none (
      joins (grp_id ∷ above grp_id db.transitive_group_members)
        (prin_id ∷ below prin_id db.transitive_group_members)))

-- The schema wants no second row for a group and a member. Foreign keys are deferred to the commit.
abbrev pub insert_member : Bool → ℕ → ℕ → Db → Option Db
insert_member false grp prin db = some (record db {
  group_members = db.group_members ++ (record { group_id = grp; member_id = prin } ∷ []);
})
insert_member true grp prin db = none

unfoldable pub with_member : ℕ → ℕ → Db → Option Db
unfolding some_row
with_member grp prin db = insert_member (some_row (is_member grp prin) db.group_members) grp prin db

unfoldable pub dbms_add_prin_to_group : ℕ → ℕ → M (Unit {0})
unfolding with_member
dbms_add_prin_to_group group_id principal_id =
    update internal_server_error (with_member group_id principal_id)

-- The value of a subquery in an expression, 1 where it has no row; more rows are an error.
abbrev pub scalar : List ℤ → Option ℤ
scalar [] = some (pos 1)
scalar (n ∷ []) = some n
scalar (n ∷ m ∷ ns) = none

abbrev pub product : Option ℤ → Option ℤ → Option ℤ
product (some a) (some b) = some (a *ℤ b)
product _ _ = none

-- The subqueries name no column of the row that is updated: t.transitive_group_id =
-- transitive_group_id compares a column of t with itself.
abbrev pub factor : ℕ → ℕ → List TransitiveMember → Option ℤ
factor grp prin ts =
    product (scalar (map (λ t. t.transitive_count) (keep (λ t. t.transitive_member_id == grp) ts)))
      (scalar (map (λ t. t.transitive_count) (keep (λ t. t.transitive_group_id == prin) ts)))

-- grp and its parents, prin and its members.
abbrev pub parents : ℕ → List TransitiveMember → List ℕ
parents grp ts =
    grp ∷ map (λ r. r.transitive_group_id) (keep (λ r. r.transitive_member_id == grp) ts)

abbrev pub members : ℕ → List TransitiveMember → List ℕ
members prin ts =
    prin ∷ map (λ r. r.transitive_member_id) (keep (λ r. r.transitive_group_id == prin) ts)

abbrev pub is_affected : ℕ → ℕ → List TransitiveMember → TransitiveMember → Bool
is_affected grp prin ts r =
    is_among r.transitive_group_id (parents grp ts)
    && is_among r.transitive_member_id (members prin ts)

abbrev pub recount : (ℤ → ℤ) → (TransitiveMember → Bool) → TransitiveMember → TransitiveMember
recount f affected r =
    if affected r then record r { transitive_count = f r.transitive_count } else r

-- A subquery is computed for the first row that is updated.
abbrev pub recounted : (ℤ → ℤ → ℤ) → (TransitiveMember → Bool) → Bool → Option ℤ → Db → Option Db
recounted op affected false n db = some db
recounted op affected true none db = none
recounted op affected true (some n) db = some (record db {
  transitive_group_members = map (recount (λ c. op c n) affected) db.transitive_group_members;
})

unfoldable pub update_counts : (ℤ → ℤ → ℤ) → ℕ → ℕ → Db → Option Db
unfolding some_row
update_counts op grp prin db =
    let ts = db.transitive_group_members in
    let affected = is_affected grp prin ts in
    recounted op affected (some_row affected ts) (factor grp prin ts) db

-- An id with the number of paths, as the subqueries g and m of the INSERT have them.
pub record Counted : Type 0 where
  pub id : ℕ
  pub paths : ℤ

-- UNION (SELECT ?, 1)
abbrev pub union_self : ℕ → List Counted → List Counted
union_self id cs =
    if some_row (λ c. (c.id == id) && int_eq c.paths (pos 1)) cs
    then cs
    else record { id = id; paths = pos 1 } ∷ cs

abbrev pub up_of : TransitiveMember → Counted
up_of r = record { id = r.transitive_group_id; paths = r.transitive_count }

abbrev pub down_of : TransitiveMember → Counted
down_of r = record { id = r.transitive_member_id; paths = r.transitive_count }

abbrev pub ups : ℕ → List TransitiveMember → List Counted
ups grp ts = map up_of (keep (λ r. r.transitive_member_id == grp) ts)

abbrev pub downs : ℕ → List TransitiveMember → List Counted
downs prin ts = map down_of (keep (λ r. r.transitive_group_id == prin) ts)

abbrev pub joined_row : Counted → Counted → TransitiveMember
joined_row g m = record {
  transitive_group_id = g.id;
  transitive_member_id = m.id;
  transitive_count = g.paths *ℤ m.paths;
}

abbrev pub cross_join : List Counted → List Counted → List TransitiveMember
cross_join [] ms = []
cross_join (g ∷ gs) ms = map (joined_row g) ms ++ cross_join gs ms

abbrev pub has_key : ℕ → ℕ → List TransitiveMember → Bool
has_key grp prin ts = some_row (is_key grp prin) ts

unfoldable pub new_rows : ℕ → ℕ → List TransitiveMember → List TransitiveMember
unfolding some_row
new_rows grp prin ts =
    keep (λ r. not (has_key r.transitive_group_id r.transitive_member_id ts))
      (cross_join (union_self grp (ups grp ts)) (union_self prin (downs prin ts)))

-- The schema wants no key twice.
unfoldable pub are_insertable : List TransitiveMember → Bool
unfolding some_row
are_insertable [] = true
are_insertable (r ∷ rs) =
    not (has_key r.transitive_group_id r.transitive_member_id rs) && are_insertable rs

unfoldable pub with_new_rows : ℕ → ℕ → Db → Option Db
unfolding new_rows are_insertable
with_new_rows grp prin db =
    let rows = new_rows grp prin db.transitive_group_members in
    if are_insertable rows
    then some (record db { transitive_group_members = db.transitive_group_members ++ rows })
    else none

unfoldable pub dbms_add_prin_to_grp_xitively : ℕ → ℕ → M (Unit {0})
unfolding update_counts with_new_rows
dbms_add_prin_to_grp_xitively grp_id prin_id =
    update internal_server_error (update_counts ◌+ℤ◌ grp_id prin_id)
    >> update internal_server_error (with_new_rows grp_id prin_id)

abbrev pub refuse : ℤ → M (Unit {0}) → M (Unit {0})
refuse n next = if int_eq n (pos 0) then next else fail conflict

-- The check for a member passes the ids to `dbms_is_prin_in_grp` in the other order.
unfoldable pub sabridge_add_prin_to_grp : ℕ → ℕ → M (Unit {0})
unfolding dbms_is_prin_in_grp dbms_will_loop_prin_add_grp dbms_add_prin_to_group
    dbms_add_prin_to_grp_xitively
sabridge_add_prin_to_grp grp_id prin_id = do
  already ← dbms_is_prin_in_grp grp_id prin_id
  refuse already (do
    loops ← dbms_will_loop_prin_add_grp grp_id prin_id
    refuse loops
        (dbms_add_prin_to_group grp_id prin_id >> dbms_add_prin_to_grp_xitively grp_id prin_id))

unfoldable pub dbms_rem_prin_frm_grp : ℕ → ℕ → M (Unit {0})
dbms_rem_prin_frm_grp grp_id prin_id = update internal_server_error λ db.
    some
      (record db { group_members = keep (λ r. not (is_member grp_id prin_id r)) db.group_members })

-- DELETE of the affected rows that have come to 0.
abbrev pub without_zeros : ℕ → ℕ → Db → Option Db
without_zeros grp prin db =
    let ts = db.transitive_group_members in
    some (record db {
      transitive_group_members =
          keep (λ r. not (is_affected grp prin ts r && is_zero r.transitive_count)) ts;
    })

unfoldable pub dbms_rem_prin_frm_grp_xitively : ℕ → ℕ → M (Unit {0})
unfolding update_counts
dbms_rem_prin_frm_grp_xitively grp_id prin_id =
    update internal_server_error (update_counts ◌-ℤ◌ grp_id prin_id)
    >> update internal_server_error (without_zeros grp_id prin_id)

unfoldable pub sabridge_rem_prin_frm_grp : ℕ → ℕ → M (Unit {0})
unfolding dbms_rem_prin_frm_grp dbms_rem_prin_frm_grp_xitively
sabridge_rem_prin_frm_grp grp_id prin_id =
    dbms_rem_prin_frm_grp grp_id prin_id >> dbms_rem_prin_frm_grp_xitively grp_id prin_id
