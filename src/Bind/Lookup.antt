-- ===== src/Bind/Lookup.antt =====
-- From a URI to a bind: `dbms_lookup_uri`, limestone/dbms_bind.c, lines 24-130.
pub mod Resolve
pub mod RoundTrip
use limestone.Prelude.{
  ℕ, zero, suc, ◌+◌, ◌-◌, Bool, true, false, ◌||◌, Option, none, some, List, [], ◌∷◌, Bytes, ◌==◌,
  ltb, length, if◌then◌else◌,
}
use limestone.Store.{
  Resource, Bind, Db, M, Status, internal_server_error, pure, gets, ◌>>=◌, select,
}
use limestone.Text.Uri.{slash, compact_uri}
use limestone.Bind.Rows.{first_row, find_bind}

abbrev pub root_collection_id : ℕ
root_collection_id = 2

-- ROOT_UPDATED_AT, 2006-07-14 13:15:49
abbrev pub root_updated_at : ℕ
root_updated_at = 1152882949

-- The fields of the dbms_bind_list that are filled in; `none` is the resource id -1.
pub record Found : Type 0 where
  pub resource_id : Option ℕ
  pub parent_id : ℕ
  pub bind_id : ℕ
  pub updated_at : ℕ
  pub uri : Option Bytes

-- `p_bind` is left NULL or is set; or the statement is not sent, since a name in its text has a
-- question mark, which `dbms_prepare` takes for a parameter.
pub data Lookup : Type 0 where
  not_found : Lookup
  found : Found → Lookup
  not_sent : Lookup

-- The binds that the left outer joins find, one for each name as long as there is one.
pub joined : ℕ → List Bytes → List Bind → List Bind
unfolding find_bind
joined coll [] bs = []
joined coll (n ∷ ns) bs = elim (find_bind coll n bs) [
  | none ↦ []
  | some b ↦ b ∷ joined b.resource_id ns bs
]

pub latest : ℕ → List Bind → ℕ
latest t [] = t
latest t (b ∷ bs) = latest (if ltb t b.updated_at then b.updated_at else t) bs

pub lastmodified_of : Option Resource → ℕ
lastmodified_of none = 0
lastmodified_of (some r) = r.lastmodified

-- The URI up to its k-th slash.
pub before_slash : ℕ → Bytes → Bytes
before_slash k [] = []
before_slash k (c ∷ s) =
    let later = c ∷ before_slash (k - 1) s in
    let on = c ∷ before_slash k s in if c == slash then (if k == 1 then [] else later) else on

pub last_bind : Bind → List Bind → Bind
last_bind b [] = b
last_bind b (c ∷ bs) = last_bind c bs

-- What is filled in where a bind was found for every name.
pub whole_row : Bind → List Bind → Db → Found
unfolding latest lastmodified_of last_bind first_row
whole_row b bs db =
    let last = last_bind b bs in
    let resource = first_row (λ (r : Resource). r.id == last.resource_id) db.resources in
    record {
      resource_id = some last.resource_id;
      parent_id = 0;
      bind_id = last.id;
      updated_at = latest (lastmodified_of resource) (b ∷ bs);
      uri = none;
    }

-- What is filled in where binds were found for the first names only.
pub part_row : Bytes → Bind → List Bind → Found
unfolding latest before_slash last_bind
part_row uri b bs = record {
  resource_id = none;
  parent_id = (last_bind b bs).resource_id;
  bind_id = 0;
  updated_at = latest 0 (b ∷ bs);
  uri = some (before_slash (length (b ∷ bs) + 1) uri);
}

pub read_row : Bytes → List Bytes → List Bind → Db → Lookup
unfolding whole_row part_row
read_row uri names [] db = not_found
read_row uri names (b ∷ bs) db =
    if length (b ∷ bs) == length names then found (whole_row b bs db) else found (part_row uri b bs)

unfoldable pub has_question_mark : Bytes → Bool
has_question_mark [] = false
has_question_mark (c ∷ s) = (c == b'?') || has_question_mark s

unfoldable pub any_question_mark : List Bytes → Bool
unfolding has_question_mark
any_question_mark [] = false
any_question_mark (n ∷ ns) = has_question_mark n || any_question_mark ns

abbrev pub root_found : Found
root_found = record {
  resource_id = some root_collection_id;
  parent_id = 0;
  bind_id = 0;
  updated_at = root_updated_at;
  uri = none;
}

-- The statement is sent and its row read.
unfoldable pub lookup_names : Bytes → List Bytes → M Lookup
unfolding joined read_row any_question_mark
lookup_names uri [] = pure (found root_found)
lookup_names uri (n ∷ ns) =
    if any_question_mark (n ∷ ns)
    then pure not_sent
    else select internal_server_error
        λ db. read_row uri (n ∷ ns) (joined root_collection_id (n ∷ ns) db.binds) db

-- `strtok` gives the successive tokens of apr_strtok(…, "/"), the library's.
unfoldable pub dbms_lookup_uri : (Bytes → List Bytes) → Bytes → M Lookup
unfolding lookup_names
dbms_lookup_uri strtok uri = let u = compact_uri uri in lookup_names u (strtok u)
