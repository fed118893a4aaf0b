-- ===== src/Versioning/Begin/First.antt =====
-- The first version of a resource: limestone/deltav_bridge.c, lines 31-124.
use mathlib.Core.Path.{subst}
use limestone.Prelude.{
  ℕ, ◌≡◌, refl, sym, ap, inl, inr, true, false, Option, none, some, List, [], ◌∷◌, ◌++◌, ◌==◌,
  ==_iff, In-append, append-In, Bool-cases, arith,
}
use limestone.Store.{
  plain, versioned, Vcr, Version, Vhr, Db, M, Store, Result, ok, err, quiet, behind, select, update,
  ignore_error, some_row,
}
use limestone.Store.Rows.{In-some_row}
use limestone.Bind.Rows.{first_row}
use limestone.Versioning.{
  checked_in, VersionedResource, empty_resource, find_vcr, find_version, is_vcr, is_version,
}
use limestone.Versioning.Write.{
  vcr_of, dbms_insert_vhr, dbms_insert_version, dbms_insert_vcr, with_vhr, with_version, with_vcr,
}
use limestone.Versioning.Auto.{new_children, dbms_get_collection_props}
use limestone.Versioning.Begin.{
  insert_resource, insert_history, record_history, make_version, retyped, dbms_update_resource_type,
  begun, sabridge_vsn_control,
}
use limestone.Versioning.Control.Consistent.{IsNumbered, IsConsistent}

find_vcr-append :
    (cs : List Vcr) (c : Vcr)
    → some_row (λ (k : Vcr). k.resource_id == c.resource_id) cs ≡ false
    → find_vcr c.resource_id (cs ++ (c ∷ [])) ≡ some c
unfolding first_row some_row
find_vcr-append [] c e = let own = (==_iff c.resource_id c.resource_id).1 refl in rw own refl
find_vcr-append (x ∷ cs) c e = elim (Bool-cases (x.resource_id == c.resource_id)) [
  | inl t ↦ absurd (ground (arith, t, e))
  | inr t ↦ rw t (find_vcr-append cs c (ground (arith, t, e)))
]

find_version-append :
    (vs : List Version) (v : Version)
    → some_row (λ (k : Version). k.resource_id == v.resource_id) vs ≡ false
    → find_version v.resource_id (vs ++ (v ∷ [])) ≡ some v
unfolding first_row some_row
find_version-append [] v e = let own = (==_iff v.resource_id v.resource_id).1 refl in rw own refl
find_version-append (x ∷ vs) v e = elim (Bool-cases (x.resource_id == v.resource_id)) [
  | inl t ↦ absurd (ground (arith, t, e))
  | inr t ↦ rw t (find_version-append vs v (ground (arith, t, e)))
]

-- The first version's row, and the struct that is at it.
abbrev pub first_row_of : VersionedResource → ℕ → ℕ → Version
first_row_of r vhr id = record {
  resource_id = id;
  number = 1;
  vcr_id = some r.serialno;
  vhr_id = vhr;
}

-- The versions with the first one of a resource that had none are numbered.
first-IsNumbered :
    (r : VersionedResource) (vhr id : ℕ) (vs : List Version)
    → r.checked_id ≡ id
    → r.vr_num ≡ 1
    → (id == 0) ≡ false
    → some_row (λ (k : Version). k.resource_id == id) vs ≡ false
    → some_row (λ (k : Version). is_vcr r.serialno k.vcr_id) vs ≡ false
    → IsNumbered r (vs ++ (first_row_of r vhr id ∷ []))
first-IsNumbered r vhr id vs at one nonzero fresh none_yet =
    let v = first_row_of r vhr id in
    let serial : (r.serialno == r.serialno) ≡ true = (==_iff r.serialno r.serialno).1 refl in
    let own : is_version r.serialno 1 v ≡ true = serial in
    record {
      latest = v;
      row = rw at (find_version-append vs v fresh);
      is_latest = rw one own;
      nonzero = rw at nonzero;
      bound = λ w i mine. elim (In-append w vs (v ∷ []) i) [
        | inl old ↦
            let t = In-some_row (λ (k : Version). is_vcr r.serialno k.vcr_id) w vs old mine in
            absurd (cc (t, none_yet))
        | inr new ↦ elim new [
          | inl q ↦
              let n : w.number ≡ 1 = ap (λ (x : Version). x.number) q in
              (omega (arith, n), omega (arith, n, one))
          | inr past ↦ elim past [ ]
        ]
      ];
      full = λ k low high.
          let e : k ≡ 1 = omega (arith, low, high, one) in
          (v, append-In v vs (v ∷ []) (inr (inl refl)), rw e own);
    }

-- What the request leaves.
abbrev pub Begins :
    VersionedResource → ℕ → ℕ → Db → Result (Option VersionedResource) × Store → Type 0
Begins r vhr id db (ok (some r'), s') =
    IsConsistent r' s'.db
    × (r'.serialno ≡ r.serialno)
    × (r'.checked_state ≡ checked_in)
    × (r'.checked_id ≡ id)
    × (r'.vr_num ≡ 1)
    × (r'.vhr_id ≡ vhr)
    × (s'.db.versions ≡ db.versions ++ (first_row_of r vhr id ∷ []))
Begins r vhr id db (ok none, s') = ⊥
Begins r vhr id db (err e, s') = ⊥

abbrev made_version : VersionedResource → ℕ → ℕ → VersionedResource
made_version r vhr id = record (empty_resource (some id)) {
  vcr_id = some r.serialno;
  vhr_id = vhr;
  version = 1;
}

abbrev with_history : VersionedResource → ℕ → ℕ → Db → Db
with_history r vhr id db = record db {
  vhrs = db.vhrs ++ (record { resource_id = vhr; root_version_id = id } ∷ []);
  versions = db.versions ++ (first_row_of r vhr id ∷ []);
}

insert_history-quiet :
    (r : VersionedResource) (vhr id : ℕ) (db : Db)
    → some_row (λ (h : Vhr). h.resource_id == vhr) db.vhrs ≡ false
    → some_row (λ (k : Version). k.resource_id == id) db.versions ≡ false
    → insert_history false vhr (made_version r vhr id) (quiet db)
      ≡ (ok tt, quiet (with_history r vhr id db))
unfolding insert_history dbms_insert_vhr dbms_insert_version with_vhr with_version update
    ignore_error
insert_history-quiet r vhr id db new_vhr new_version = rw new_vhr (rw new_version refl)

make_version-quiet :
    (mk_vhr : VersionedResource → M (Option ℕ)) (mk_versions_collection : ℕ → M (Unit {0}))
    (mk_resource : VersionedResource → ℕ → M ℕ) (r : VersionedResource) (vhr id : ℕ) (d1 d2 d3 : Db)
    → mk_versions_collection vhr (quiet d1) ≡ (ok tt, quiet d2)
    → mk_resource r 1 (quiet d2) ≡ (ok id, quiet d3)
    → make_version mk_vhr mk_versions_collection mk_resource false r vhr (quiet d1)
      ≡ (ok (made_version r vhr id), quiet d3)
unfolding make_version ignore_error
make_version-quiet mk_vhr mk_versions_collection mk_resource r vhr id d1 d2 d3 gathered stored =
    rw gathered (rw stored refl)

-- The struct and the tables behind the last statement, whatever type is inherited.
abbrev at_first : VersionedResource → ℕ → ℕ → Option ℕ → VersionedResource
at_first r vhr id av = record (begun r vhr (made_version r vhr id) av) {
  checked_state = checked_in;
}

abbrev with_row : VersionedResource → ℕ → ℕ → Option ℕ → Db → Db
with_row r vhr id av d = record d {
  vcrs = d.vcrs ++ (vcr_of (begun r vhr (made_version r vhr id) av) ∷ []);
}

at_first-Begins :
    (r : VersionedResource) (vhr id : ℕ) (av : Option ℕ) (db d : Db)
    → d.versions ≡ db.versions ++ (first_row_of r vhr id ∷ [])
    → (id == 0) ≡ false
    → some_row (λ (k : Version). k.resource_id == id) db.versions ≡ false
    → some_row (λ (k : Version). is_vcr r.serialno k.vcr_id) db.versions ≡ false
    → some_row (λ (k : Vcr). k.resource_id == r.serialno) d.vcrs ≡ false
    → Begins r vhr id db (ok (some (at_first r vhr id av)), quiet (with_row r vhr id av d))
at_first-Begins r vhr id av db d versions nonzero fresh none_yet new_vcr =
    let row = vcr_of (begun r vhr (made_version r vhr id) av) in
    let consistent : IsConsistent (at_first r vhr id av) (with_row r vhr id av d) = record {
      vcr = row;
      vcr_row = find_vcr-append d.vcrs row new_vcr;
      state = refl;
      at_version = refl;
      numbers = rw versions (
          first-IsNumbered (at_first r vhr id av) vhr id db.versions refl refl nonzero fresh
            none_yet);
    } in
    (consistent, refl, refl, refl, refl, refl, versions)

-- The last statement puts the row of the resource in.
insert_resource-Begins :
    (parent_id : ℕ) (r : VersionedResource) (vhr id : ℕ) (db d : Db)
    → d.versions ≡ db.versions ++ (first_row_of r vhr id ∷ [])
    → (id == 0) ≡ false
    → some_row (λ (k : Version). k.resource_id == id) db.versions ≡ false
    → some_row (λ (k : Version). is_vcr r.serialno k.vcr_id) db.versions ≡ false
    → some_row (λ (k : Vcr). k.resource_id == r.serialno) d.vcrs ≡ false
    → Begins r vhr id db (insert_resource parent_id r vhr (made_version r vhr id) (quiet d))
unfolding insert_resource dbms_get_collection_props dbms_insert_vcr with_vcr select update
    ignore_error
insert_resource-Begins parent_id r vhr id db d versions nonzero fresh none_yet new_vcr =
    let av = new_children (first_row (λ c. c.resource_id == parent_id) d.collections) in
    rw new_vcr (at_first-Begins r vhr id av db d versions nonzero fresh none_yet new_vcr)

-- On a DBMS that refuses nothing, and for a plain resource that the request did not make and that has
-- no versions: where its history, the
-- collection of its versions and the resource of its first version are made, with new ids and the
-- tables of versions as they were, the resource is then checked in at version 1, which is its only
-- one, and the struct is consistent with the tables.
pub vsn_control-Begins :
    (mk_vhr : VersionedResource → M (Option ℕ)) (mk_versions_collection : ℕ → M (Unit {0}))
    (mk_resource : VersionedResource → ℕ → M ℕ) (parent_id : ℕ) (r : VersionedResource) (vhr id : ℕ)
    (db d1 d2 d3 : Db)
    → r.kind ≡ some plain
    → mk_vhr (record r { kind = some versioned }) (quiet (retyped versioned r.serialno db))
      ≡ (ok (some vhr), quiet d1)
    → mk_versions_collection vhr (quiet d1) ≡ (ok tt, quiet d2)
    → mk_resource (record r { kind = some versioned }) 1 (quiet d2) ≡ (ok id, quiet d3)
    → d3.versions ≡ db.versions
    → d3.vcrs ≡ db.vcrs
    → (id == 0) ≡ false
    → some_row (λ (h : Vhr). h.resource_id == vhr) d3.vhrs ≡ false
    → some_row (λ (k : Version). k.resource_id == id) db.versions ≡ false
    → some_row (λ (k : Version). is_vcr r.serialno k.vcr_id) db.versions ≡ false
    → some_row (λ (k : Vcr). k.resource_id == r.serialno) db.vcrs ≡ false
    → Begins r vhr id db (
        sabridge_vsn_control mk_vhr mk_versions_collection mk_resource false parent_id r (quiet db))
unfolding sabridge_vsn_control dbms_update_resource_type update ignore_error
vsn_control-Begins mk_vhr mk_versions_collection mk_resource parent_id r vhr id db d1 d2 d3 kind
      made gathered stored versions vcrs nonzero new_vhr new_version none_yet new_vcr =
    let r1 = record r { kind = some versioned } in
    let step1 =
      make_version-quiet mk_vhr mk_versions_collection mk_resource r1 vhr id d1 d2 d3 gathered
        stored in
    let step2 = insert_history-quiet r1 vhr id d3 new_vhr (rw versions new_version) in
    let last =
      insert_resource-Begins parent_id r1 vhr id db (with_history r1 vhr id d3)
        (ap (λ l. l ++ (first_row_of r vhr id ∷ [])) versions) nonzero new_version none_yet
        (rw vcrs new_vcr) in
    let behind2 =
      subst
        (λ x.
          Begins r vhr id db
            (behind (λ u. insert_resource parent_id r1 vhr (made_version r1 vhr id)) x))
        (sym step2) last in
    let behind1 =
      subst (λ x. Begins r vhr id db (behind (record_history false parent_id r1 vhr) x)) (sym step1)
        behind2 in
    rw kind (rw made behind1)
