-- ===== src/Bind/Lookup/Resolve.antt =====
-- The joins of `dbms_lookup_uri`, limestone/dbms_bind.c, against routes through the table.
use mathlib.Core.Path.{subst}
use mathlib.Core.Option.{some-injective}
use limestone.Text.Uri.{compact_uri}
use limestone.Prelude.{
  ℕ, suc, ◌≡◌, ◌≢◌, refl, sym, ap, ◌∙◌, inl, inr, true, false, none, some, List, [], ◌∷◌, Bytes,
  ◌==◌, length, Bool-cases, Option-cases, arith,
}
use limestone.Store.{Bind, Db, Store, ok, quiet, internal_server_error, select}
use limestone.Store.Laws.{select_case, select-quiet}
use limestone.Bind.Rows.{find_bind}
use limestone.Bind.Rows.Unique.{IsUnique, find_bind_sound, find_bind_complete}
use limestone.Bind.Path.Route.{Route}
use limestone.Bind.Lookup.{
  root_collection_id, root_found, Found, Lookup, found, not_sent, joined, last_bind, whole_row,
  part_row, read_row, any_question_mark, lookup_names, dbms_lookup_uri,
}

-- Where the binds lead that were found from a collection on.
abbrev pub end_of : ℕ → List Bind → ℕ
end_of coll [] = coll
end_of coll (b ∷ bs) = end_of b.resource_id bs

last_bind-end_of :
    (b : Bind) (bs : List Bind) → (last_bind b bs).resource_id ≡ end_of b.resource_id bs
unfolding last_bind
last_bind-end_of b [] = refl
last_bind-end_of b (c ∷ bs) = last_bind-end_of c bs

joined-some :
    (coll : ℕ) (n : Bytes) (ns : List Bytes) (bs : List Bind) (b : Bind)
    → find_bind coll n bs ≡ some b
    → joined coll (n ∷ ns) bs ≡ b ∷ joined b.resource_id ns bs
unfolding joined
joined-some coll n ns bs b e = rw (e, joined)

joined-none :
    (coll : ℕ) (n : Bytes) (ns : List Bytes) (bs : List Bind)
    → find_bind coll n bs ≡ none
    → joined coll (n ∷ ns) bs ≡ []
unfolding joined
joined-none coll n ns bs e = rw (e, joined)

whole_row_id :
    (b : Bind) (bs : List Bind) (db : Db) (r : ℕ)
    → (whole_row b bs db).resource_id ≡ some r
    → (last_bind b bs).resource_id ≡ r
unfolding whole_row
whole_row_id b bs db r e = cc

whole_row_at :
    (b : Bind) (bs : List Bind) (db : Db)
    → (whole_row b bs db).resource_id ≡ some (last_bind b bs).resource_id
unfolding whole_row
whole_row_at b bs db = refl

part_row_id :
    (uri : Bytes) (b : Bind) (bs : List Bind) (r : ℕ) → (part_row uri b bs).resource_id ≢ some r
unfolding part_row
part_row_id uri b bs r e = cc

-- If a bind was found for each name, the names spell a route to where the binds lead.
pub joined_sound :
    (coll : ℕ) (ns : List Bytes) (bs : List Bind)
    → length (joined coll ns bs) ≡ length ns
    → Route bs coll (end_of coll (joined coll ns bs)) ns
unfolding joined
joined_sound coll [] bs e = refl
joined_sound coll (n ∷ ns) bs e = elim (Option-cases (find_bind coll n bs)) [
  | inl absent ↦
      absurd (omega (arith, sym e ∙ ap (λ l. length l) (joined-none coll n ns bs absent)))
  | inr (b, at) ↦
      let (m, p, q) = find_bind_sound coll n bs at in
      let step = joined-some coll n ns bs b at in
      let len : length (joined b.resource_id ns bs) ≡ length ns =
        omega (arith, sym e ∙ ap (λ l. length l) step) in
      subst (λ js. Route bs coll (end_of coll js) (n ∷ ns)) (sym step)
        (b, m, p, q, joined_sound b.resource_id ns bs len)
]

-- In a table without two binds at a place a route is found whole.
pub joined_complete :
    (coll r : ℕ) (ns : List Bytes) (bs : List Bind)
    → IsUnique bs
    → Route bs coll r ns
    → (length (joined coll ns bs) ≡ length ns) × (end_of coll (joined coll ns bs) ≡ r)
unfolding joined
joined_complete coll r [] bs u e = (refl, e)
joined_complete coll r (n ∷ ns) bs u (b, m, p, q, rest) =
    let at : find_bind coll n bs ≡ some b =
      ap (λ c. find_bind c n bs) (sym p)
      ∙ (ap (λ k. find_bind b.collection_id k bs) (sym q) ∙ find_bind_complete b bs u m) in
    let step = joined-some coll n ns bs b at in
    let (len, stop) = joined_complete b.resource_id r ns bs u rest in
    subst (λ js. (length js ≡ suc (length ns)) × (end_of coll js ≡ r)) (sym step) (ap suc len, stop)

-- What a lookup that returns says of the table: an id that it gives is the end of the route that
-- the names spell.
abbrev pub Says : List Bind → List Bytes → Lookup → Type 0
Says bs names (found l) = (r : ℕ) → l.resource_id ≡ some r → Route bs root_collection_id r names
Says bs names _ = Unit

read_row-Says :
    (uri n : Bytes) (ns : List Bytes) (db : Db) (js : List Bind)
    → joined root_collection_id (n ∷ ns) db.binds ≡ js
    → Says db.binds (n ∷ ns) (read_row uri (n ∷ ns) js db)
unfolding read_row
read_row-Says uri n ns db [] e = tt
read_row-Says uri n ns db (b ∷ bs) e = elim (Bool-cases (length (b ∷ bs) == length (n ∷ ns))) [
  | inl whole ↦
      rw (whole, read_row)
        λ r is.
          let len : length (joined root_collection_id (n ∷ ns) db.binds) ≡ length (n ∷ ns) =
            ap (λ l. length l) e ∙ ground arith in
          let stop : end_of root_collection_id (joined root_collection_id (n ∷ ns) db.binds) ≡ r =
            ap (end_of root_collection_id) e
            ∙ (sym (last_bind-end_of b bs) ∙ whole_row_id b bs db r is) in
          subst (λ x. Route db.binds root_collection_id x (n ∷ ns)) stop
            (joined_sound root_collection_id (n ∷ ns) db.binds len)
  | inr part ↦ rw (part, read_row) λ r is. absurd (part_row_id uri b bs r is)
]

lookup_names-Says :
    (uri : Bytes) (names : List Bytes) (s s' : Store) (l : Lookup)
    → lookup_names uri names s ≡ (ok l, s')
    → Says s.db.binds names l
unfolding lookup_names
lookup_names-Says uri [] s s' l e =
    let is : found root_found ≡ l = cc in
    subst (Says s.db.binds []) is (λ r at. some-injective _ _ at)
lookup_names-Says uri (n ∷ ns) s s' l e = elim (Bool-cases (any_question_mark (n ∷ ns))) [
  | inl marked ↦
      let is : not_sent ≡ l = ground (arith, marked) in subst (Says s.db.binds (n ∷ ns)) is tt
  | inr clean ↦
      let row =
        λ (db : Db). read_row uri (n ∷ ns) (joined root_collection_id (n ∷ ns) db.binds) db in
      let (t, _, ended) = select_case internal_server_error row s in
      let asked : select internal_server_error row s ≡ (ok l, s') = rw clean at e in
      elim ended [
        | inl refused ↦ cc
        | inr answered ↦
            let is : row s.db ≡ l = cc in
            subst (Says s.db.binds (n ∷ ns)) is (read_row-Says uri n ns s.db _ refl)
      ]
]

-- A resource id that the lookup of a URI returns is reached from the root collection by binds with
-- the names that the URI is cut into.
pub lookup_uri_sound :
    (strtok : Bytes → List Bytes) (uri : Bytes) (s s' : Store) (l : Found) (r : ℕ)
    → dbms_lookup_uri strtok uri s ≡ (ok (found l), s')
    → l.resource_id ≡ some r
    → Route s.db.binds root_collection_id r (strtok (compact_uri uri))
unfolding dbms_lookup_uri
lookup_uri_sound strtok uri s s' l r e is =
    lookup_names-Says (compact_uri uri) (strtok (compact_uri uri)) s s' (found l) e r is

read_row_complete :
    (uri n : Bytes) (ns : List Bytes) (db : Db) (r : ℕ) (js : List Bind)
    → length js ≡ suc (length ns)
    → end_of root_collection_id js ≡ r
    → (l : Found) × (read_row uri (n ∷ ns) js db ≡ found l) × (l.resource_id ≡ some r)
unfolding read_row
read_row_complete uri n ns db r [] len stop = absurd (omega arith)
read_row_complete uri n ns db r (b ∷ bs) len stop =
    let whole : (length (b ∷ bs) == length (n ∷ ns)) ≡ true = ground arith in
    (
      whole_row b bs db,
      rw (whole, read_row),
      whole_row_at b bs db ∙ ap some (last_bind-end_of b bs ∙ stop),
    )

lookup_names_complete :
    (uri : Bytes) (names : List Bytes) (db : Db) (r : ℕ)
    → IsUnique db.binds
    → any_question_mark names ≡ false
    → Route db.binds root_collection_id r names
    → (l : Found) × (lookup_names uri names (quiet db) ≡ (ok (found l), quiet db))
      × (l.resource_id ≡ some r)
unfolding lookup_names
lookup_names_complete uri [] db r unique clean e = (root_found, refl, ap some e)
lookup_names_complete uri (n ∷ ns) db r unique clean route =
    let (len, stop) = joined_complete root_collection_id r (n ∷ ns) db.binds unique route in
    let js = joined root_collection_id (n ∷ ns) db.binds in
    let (l, is, id) = read_row_complete uri n ns db r js len stop in
    (l, rw clean (select-quiet _ _ db ∙ ap (λ x. (ok x, quiet db)) is), id)

-- On a DBMS that refuses nothing, in a table without two binds at a place, and with no question mark
-- in the names, the lookup of a
-- URI whose names lead from the root collection to a resource returns the id of that resource.
pub lookup_uri_complete :
    (strtok : Bytes → List Bytes) (uri : Bytes) (db : Db) (r : ℕ)
    → IsUnique db.binds
    → any_question_mark (strtok (compact_uri uri)) ≡ false
    → Route db.binds root_collection_id r (strtok (compact_uri uri))
    → (l : Found) × (dbms_lookup_uri strtok uri (quiet db) ≡ (ok (found l), quiet db))
      × (l.resource_id ≡ some r)
unfolding dbms_lookup_uri
lookup_uri_complete strtok uri db r unique clean route =
    lookup_names_complete (compact_uri uri) (strtok (compact_uri uri)) db r unique clean route
