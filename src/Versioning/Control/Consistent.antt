-- ===== src/Versioning/Control/Consistent.antt =====
-- The struct of a versioned resource against the tables.
use mathlib.Core.Option.{some-injective}
use limestone.Prelude.{
  ℕ, ◌+◌, ◌≤◌, ◌≡◌, refl, sym, ap, ◌∙◌, inl, inr, true, false, none, some, List, [], ◌∷◌, ◌++◌, map,
  ◌==◌, ==_iff, In, In-append, append-In, Bool-cases, arith,
}
use limestone.Store.{Vcr, Version, Db, Store, Result, ok, err, quiet, select}
use limestone.Bind.Rows.{first_row}
use limestone.Versioning.{
  CheckedState, checked_in, VersionedResource, empty_resource, dbms_get_vcr_props,
  dbms_get_version_number, find_vcr, find_version, state_of, is_vcr, is_version,
}
use limestone.Versioning.Write.{is_in_state, set_row, set_checked}

-- The versions of a resource are numbered from 1 to the number of the one that it is at.
pub record IsNumbered (r : VersionedResource) (vs : List Version) : Type 0 where
  pub latest : Version
  pub row : find_version r.checked_id vs ≡ some latest
  pub is_latest : is_version r.serialno r.vr_num latest ≡ true
  pub nonzero : (r.checked_id == 0) ≡ false
  pub bound :
      (v : Version)
      → In v vs
      → is_vcr r.serialno v.vcr_id ≡ true
      → (1 ≤ v.number) × (v.number ≤ r.vr_num)
  pub full :
      (k : ℕ) → 1 ≤ k → k ≤ r.vr_num → (v : Version) × In v vs × (is_version r.serialno k v ≡ true)

-- And its row is what the struct says.
pub record IsConsistent (r : VersionedResource) (db : Db) : Type 0 where
  pub vcr : Vcr
  pub vcr_row : find_vcr r.serialno db.vcrs ≡ some vcr
  pub state : r.checked_state ≡ state_of vcr.checked_in
  pub at_version : vcr.checked_id ≡ r.checked_id
  pub numbers : IsNumbered r db.versions

abbrev row_set : CheckedState → ℕ → Vcr → Vcr
row_set st checked c = record c { checked_in = is_in_state st; checked_id = checked }

find_vcr-set_row :
    (st : CheckedState) (checked id : ℕ) (cs : List Vcr) (c : Vcr)
    → find_vcr id cs ≡ some c
    → find_vcr id (map (set_row st checked id) cs) ≡ some (row_set st checked c)
unfolding first_row
find_vcr-set_row st checked id [] c e = absurd (cc e)
find_vcr-set_row st checked id (x ∷ cs) c e = elim (Bool-cases (x.resource_id == id)) [
  | inl t ↦
      let e' : some x ≡ some c = rw t at e in
      let same = some-injective x c e' in rw t (rw t (ap (λ k. some (row_set st checked k)) same))
  | inr t ↦ rw t (rw t (find_vcr-set_row st checked id cs c (rw t at e)))
]

-- The states that a row can have.
abbrev IsChecked : CheckedState → Type 0
IsChecked st = st ≡ state_of (is_in_state st)

-- The UPDATE of a row leaves it as the struct is set.
pub set_checked-IsConsistent :
    (r : VersionedResource) (db : Db) (vcr : Vcr)
    → find_vcr r.serialno db.vcrs ≡ some vcr
    → r.checked_state ≡ state_of (is_in_state r.checked_state)
    → IsNumbered r db.versions
    → IsConsistent r (set_checked r.checked_state r.checked_id r.serialno db)
set_checked-IsConsistent r db vcr row checked numbers = record {
  vcr = row_set r.checked_state r.checked_id vcr;
  vcr_row = find_vcr-set_row r.checked_state r.checked_id r.serialno db.vcrs vcr row;
  state = checked;
  at_version = refl;
  numbers = numbers;
}

find_version-append :
    (vs : List Version) (v : Version)
    → find_version v.resource_id vs ≡ none
    → find_version v.resource_id (vs ++ (v ∷ [])) ≡ some v
unfolding first_row
find_version-append [] v e = let own = (==_iff v.resource_id v.resource_id).1 refl in rw own refl
find_version-append (x ∷ vs) v e = elim (Bool-cases (x.resource_id == v.resource_id)) [
  | inl t ↦ let e' : some x ≡ none = rw t at e in absurd (cc e')
  | inr t ↦ rw t (find_version-append vs v (rw t at e))
]

-- The version with the next number is the new one, since the older ones have smaller numbers.
pub find_next :
    (id n : ℕ) (vs : List Version) (v : Version)
    → ((w : Version) → In w vs → is_vcr id w.vcr_id ≡ true → (1 ≤ w.number) × (w.number ≤ n))
    → is_version id (n + 1) v ≡ true
    → first_row (is_version id (n + 1)) (vs ++ (v ∷ [])) ≡ some v
unfolding first_row
find_next id n [] v bound own = rw own refl
find_next id n (x ∷ vs) v bound own = elim (Bool-cases (is_version id (n + 1) x)) [
  | inl t ↦
      let mine : is_vcr id x.vcr_id ≡ true = ground (arith, t) in
      let next : x.number ≡ n + 1 = ground (arith, t) in
      let (low, high) = bound x (inl refl) mine in absurd (omega (arith, next, high))
  | inr t ↦ rw t (find_next id n vs v (λ w i. bound w (inr i)) own)
]

-- The struct at a new version.
abbrev pub advanced : VersionedResource → ℕ → VersionedResource
advanced r id = record r { checked_id = id; checked_state = checked_in; vr_num = r.vr_num + 1 }

is_version-numbers :
    (id k : ℕ) (v : Version)
    → is_version id k v ≡ true
    → (v.number ≡ k) × (is_vcr id v.vcr_id ≡ true)
is_version-numbers id k v t = (ground (arith, t), ground (arith, t))

-- One more version with the next number keeps the numbering.
pub advanced-IsNumbered :
    (r : VersionedResource) (vs : List Version) (v : Version)
    → IsNumbered r vs
    → find_version v.resource_id vs ≡ none
    → (v.resource_id == 0) ≡ false
    → is_version r.serialno (r.vr_num + 1) v ≡ true
    → IsNumbered (advanced r v.resource_id) (vs ++ (v ∷ []))
advanced-IsNumbered r vs v numbers fresh nonzero own = record {
  latest = v;
  row = find_version-append vs v fresh;
  is_latest = own;
  nonzero = nonzero;
  bound = λ w i mine. elim (In-append w vs (v ∷ []) i) [
    | inl old ↦ let (low, high) = numbers.bound w old mine in (low, omega (arith, high))
    | inr new ↦ elim new [
      | inl q ↦
          let (number, m) = is_version-numbers r.serialno (r.vr_num + 1) v own in
          let same : w.number ≡ r.vr_num + 1 = ap (λ (x : Version). x.number) q ∙ number in
          (omega (arith, same), omega (arith, same))
      | inr past ↦ elim past [ ]
    ]
  ];
  full = λ k low high. elim (Bool-cases (k == r.vr_num + 1)) [
    | inl t ↦
        let e : k ≡ r.vr_num + 1 = (==_iff k (r.vr_num + 1)).0 t in
        (v, append-In v vs (v ∷ []) (inr (inl refl)), rw e own)
    | inr t ↦
        let below : k ≤ r.vr_num = ground (arith, t, high) in
        let (w, i, m) = numbers.full k low below in (w, append-In w vs (v ∷ []) (inl i), m)
  ];
}

-- What a later request loads of the resource, where the struct is consistent with the tables.
abbrev pub Loads : VersionedResource → Db → Result VersionedResource × Store → Type 0
Loads r db (ok r', s') =
    (s'.db ≡ db)
    × (r'.checked_state ≡ r.checked_state)
    × (r'.checked_id ≡ r.checked_id)
    × (r'.vr_num ≡ r.vr_num)
Loads r db (err e, s') = ⊥

pub get_vcr_props-Loads :
    (r : VersionedResource) (db : Db)
    → IsConsistent r db
    → Loads r db (dbms_get_vcr_props (empty_resource (some r.serialno)) (quiet db))
unfolding dbms_get_vcr_props dbms_get_version_number select
get_vcr_props-Loads r db c =
    let numbers : IsNumbered r db.versions = c.numbers in
    let (number, mine) = is_version-numbers r.serialno r.vr_num numbers.latest numbers.is_latest in
    let row : find_version c.vcr.checked_id db.versions ≡ some numbers.latest =
      rw c.at_version numbers.row in
    rw c.vcr_row (rw row (refl, sym c.state, c.at_version, number))
