-- ===== src/Versioning/Control/Written.antt =====
-- The state of a resource written and read: limestone/dbms_deltav.c, lines 94-178 and 383-450.
use limestone.Prelude.{
  ℕ, ◌≡◌, ◌≢◌, refl, ap, ◌∙◌, ◌⊎◌, inl, inr, true, false, some, List, [], ◌∷◌, map, ◌==◌, ==_iff,
  Bool-cases,
}
use limestone.Store.{Vcr, Db, Store, Result, ok, err, quiet, ◌>>=◌, update}
use limestone.Bind.Rows.{first_row}
use limestone.Versioning.{
  CheckedState, checked_in, checked_out, VersionedResource, empty_resource, find_vcr, state_of,
  dbms_get_vcr_props,
}
use limestone.Versioning.Write.{is_in_state, set_row, set_checked, dbms_set_checkin_out}
use limestone.Versioning.Control.Consistent.{
  IsNumbered, Loads, set_checked-IsConsistent, get_vcr_props-Loads,
}

-- The resource as it is read, with the state that was written.
abbrev pub ReadsBack :
    VersionedResource → CheckedState → Db → Result VersionedResource × Store → Type 0
ReadsBack r st db (ok r', s') =
    (r'.checked_state ≡ st)
    × (r'.checked_id ≡ r.checked_id)
    × (r'.vr_num ≡ r.vr_num)
    × (s'.db.versions ≡ db.versions)
    × ((id : ℕ) → id ≢ r.serialno → find_vcr id s'.db.vcrs ≡ find_vcr id db.vcrs)
ReadsBack r st db (err e, s') = ⊥

other_row :
    (st : CheckedState) (checked own id : ℕ) (cs : List Vcr)
    → id ≢ own
    → find_vcr id (map (set_row st checked own) cs) ≡ find_vcr id cs
unfolding first_row
other_row st checked own id [] other = refl
other_row st checked own id (c ∷ cs) other = elim (Bool-cases (c.resource_id == own)) [
  | inl t ↦ elim (Bool-cases (c.resource_id == id)) [
    | inl u ↦
        let p = (==_iff c.resource_id own).0 t in
        let q = (==_iff c.resource_id id).0 u in absurd (other (cc (p, q)))
    | inr f ↦ rw t (rw f (other_row st checked own id cs other))
  ]
  | inr g ↦ elim (Bool-cases (c.resource_id == id)) [
    | inl u ↦ rw g (rw u refl)
    | inr f ↦ rw g (rw f (other_row st checked own id cs other))
  ]
]

state_back :
    (st : CheckedState) → (st ≡ checked_in) ⊎ (st ≡ checked_out) → st ≡ state_of (is_in_state st)
state_back st (inl e) = rw e refl
state_back st (inr e) = rw e refl

abbrev in_state : VersionedResource → CheckedState → VersionedResource
in_state r st = record r { checked_state = st }

set_checkin_out-quiet :
    (r : VersionedResource) (st : CheckedState) (db : Db)
    → (r.checked_id == 0) ≡ false
    → dbms_set_checkin_out r st r.vr_num (quiet db)
      ≡ (ok (in_state r st), quiet (set_checked st r.checked_id r.serialno db))
unfolding dbms_set_checkin_out update
set_checkin_out-quiet r st db nonzero =
    let here : (r.vr_num == r.vr_num) ≡ true = (==_iff r.vr_num r.vr_num).1 refl in
    rw here (rw nonzero refl)

read_back :
    (r : VersionedResource) (st : CheckedState) (db : Db) (x : Result VersionedResource × Store)
    → Loads (in_state r st) (set_checked st r.checked_id r.serialno db) x
    → ReadsBack r st db x
read_back r st db (ok r', s') (same, state, at, number) = (
  state,
  at,
  number,
  ap (λ (d : Db). d.versions) same,
  λ id other.
      ap (λ (d : Db). find_vcr id d.vcrs) same
      ∙ other_row st r.checked_id r.serialno id db.vcrs other,
)
read_back r st db (err e, s') past = past

-- On a DBMS that refuses nothing, for a resource that has a row and is at the last of its versions, which
-- are numbered: the state that is written at the version's number, checked in or checked out, is
-- read back with the version and its number, and the versions and the rows of other resources stay.
pub get_vcr_props-set_checkin_out :
    (r : VersionedResource) (st : CheckedState) (db : Db) (vcr : Vcr)
    → (st ≡ checked_in) ⊎ (st ≡ checked_out)
    → find_vcr r.serialno db.vcrs ≡ some vcr
    → IsNumbered r db.versions
    → ReadsBack r st db (
        (dbms_set_checkin_out r st r.vr_num >>= λ r'.
        dbms_get_vcr_props (empty_resource (some r'.serialno)))
          (quiet db))
get_vcr_props-set_checkin_out r st db vcr known row numbers =
    let r1 = in_state r st in
    let n : IsNumbered r1 db.versions = record {
      latest = numbers.latest;
      row = numbers.row;
      is_latest = numbers.is_latest;
      nonzero = numbers.nonzero;
      bound = numbers.bound;
      full = numbers.full;
    } in
    let consistent = set_checked-IsConsistent r1 db vcr row (state_back st known) n in
    rw (set_checkin_out-quiet r st db numbers.nonzero) (
      read_back r st db _
        (get_vcr_props-Loads r1 (set_checked st r.checked_id r.serialno db) consistent))
