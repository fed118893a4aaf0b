-- ===== src/Versioning/Control/Checkin.antt =====
-- Checking in: limestone/version.c, lines 290-356.
use mathlib.Core.Path.{subst}
use mathlib.Core.Option.{some-injective}
use limestone.Prelude.{
  ℕ, ◌+◌, ◌≡◌, refl, sym, ap, ◌∙◌, ◌⊎◌, inl, inr, Bool, true, false, none, some, List, [], ◌∷◌,
  ◌++◌, ◌==◌, ==_iff, Bool-cases, arith,
}
use limestone.Store.{
  Version, Db, M, Store, Result, ok, err, Status, internal_server_error, pure, ◌>>◌, behind, update,
  some_row, fail, ignore_error,
}
use limestone.Store.Laws.{update-holds, select-holds}
use limestone.Bind.Rows.{first_row}
use limestone.Bridge.Delete.{dbms_delete_resource}
use limestone.Versioning.{
  checked_in, checked_out, VersionedResource, find_version, is_version, dbms_get_version_id, id_of,
}
use limestone.Versioning.Write.{
  set_checked, dbms_set_checkin_out, dbms_insert_version, dbms_update_vhr, with_version,
  inserted_version, version_of,
}
use limestone.Versioning.Load.{get_property}
use limestone.Versioning.Load.Reading.{get_property-IsReading}
use limestone.Versioning.Control.{
  is_checked_out, is_version_controlled, new_version, set_root, record_version, or_delete, recorded,
  dav_repos_checkin,
}
use limestone.Versioning.Control.Consistent.{
  IsNumbered, IsConsistent, set_checked-IsConsistent, advanced, advanced-IsNumbered, find_next,
}
use limestone.Versioning.Control.Runs.{
  Keeps, reading-holds, require-holds, checked_out-eq, keeping-holds,
}

-- What the making of a version's resource relies on: its id is new, and the tables of versions stay.
abbrev pub MakesVersion : Db → Result ℕ × Store → Type 0
MakesVersion db (ok id, s') =
    (s'.db.vcrs ≡ db.vcrs)
    × (s'.db.versions ≡ db.versions)
    × (find_version id db.versions ≡ none)
    × ((id == 0) ≡ false)
MakesVersion db (err e, s') = Unit {0}

-- What a check-in comes to.
abbrev pub CheckedIn : VersionedResource → Db → Result VersionedResource × Store → Type 0
CheckedIn r db (ok r', s') =
    (r.checked_state ≡ checked_out)
    × IsConsistent r' s'.db
    × ((id : ℕ) × (find_version id db.versions ≡ none)
        × (r' ≡ advanced r id)
        × (s'.db.versions ≡ db.versions ++ (version_of (new_version r id) ∷ [])))
CheckedIn r db (err e, s') = (s'.db ≡ db) ⊎ (r.checked_state ≡ checked_out)

with_version-eq :
    (v : Version) (db d : Db)
    → with_version v db ≡ some d
    → (d.vcrs ≡ db.vcrs) × (d.versions ≡ db.versions ++ (v ∷ []))
unfolding with_version
with_version-eq v db d = go (some_row (λ (w : Version). w.resource_id == v.resource_id) db.versions)
  where
    go :
        (b : Bool)
        → inserted_version b v db ≡ some d
        → (d.vcrs ≡ db.vcrs) × (d.versions ≡ db.versions ++ (v ∷ []))
    go false e =
        let later = record db { versions = db.versions ++ (v ∷ []) } in
        rw (← some-injective later d e) (refl, refl)
    go true e = absurd (cc e)

set_root-Keeps : (r new : VersionedResource) (s : Store) → Keeps s.db (set_root r new s)
unfolding dbms_update_vhr
set_root-Keeps r new s = elim (Bool-cases (r.vr_num == 0)) [
  | inl t ↦ rw t (
      update-holds (Keeps s.db) internal_server_error _ s
        (λ s' e. (
          sym (ap (λ (d : Db). d.vcrs) (some-injective _ _ e)),
          sym (ap (λ (d : Db). d.versions) (some-injective _ _ e)),
        ))
        (λ s' same. (ap (λ (d : Db). d.vcrs) same, ap (λ (d : Db). d.versions) same)))
  | inr t ↦ rw t (refl, refl)
]

-- The versions behind the new row.
abbrev grown : VersionedResource → ℕ → Db → List Version
grown r id db = db.versions ++ (version_of (new_version r id) ∷ [])

is_own :
    (r : VersionedResource) (id : ℕ)
    → is_version r.serialno (r.vr_num + 1) (version_of (new_version r id)) ≡ true
is_own r id =
    let serial : (r.serialno == r.serialno) ≡ true = (==_iff r.serialno r.serialno).1 refl in
    let number : (r.vr_num + 1 == r.vr_num + 1) ≡ true =
      (==_iff (r.vr_num + 1) (r.vr_num + 1)).1 refl in
    rw number serial

abbrev advance : VersionedResource → ℕ → M VersionedResource
advance r id =
    update internal_server_error (λ d. some (set_checked checked_in id r.serialno d))
    >> pure (advanced r id)

-- The row of the resource is set to the new version.
advance-CheckedIn :
    (r : VersionedResource) (id : ℕ) (db : Db) (s : Store)
    → IsConsistent r db
    → r.checked_state ≡ checked_out
    → find_version id db.versions ≡ none
    → (id == 0) ≡ false
    → s.db.vcrs ≡ db.vcrs
    → s.db.versions ≡ grown r id db
    → CheckedIn r db (advance r id s)
advance-CheckedIn r id db s c was fresh nonzero vcrs versions =
    let later : IsNumbered (advanced r id) s.db.versions = rw versions (
      advanced-IsNumbered r db.versions (version_of (new_version r id)) c.numbers fresh nonzero
        (is_own r id)) in
    let set : IsConsistent (advanced r id) (set_checked checked_in id r.serialno s.db) =
      set_checked-IsConsistent (advanced r id) s.db c.vcr (rw vcrs c.vcr_row) refl later in
    update-holds (λ x. CheckedIn r db (behind (λ u. pure (advanced r id)) x)) internal_server_error
      (λ d. some (set_checked checked_in id r.serialno d)) s
      (λ s' e.
        let now : set_checked checked_in id r.serialno s.db ≡ s'.db = some-injective _ _ e in
        (
          was,
          subst (IsConsistent (advanced r id)) now set,
          (id, fresh, refl, sym (ap (λ (d : Db). d.versions) now) ∙ versions),
        ))
      (λ s' e. inr was)

-- The statement that sets the state finds the new version by its number.
set_new-CheckedIn :
    (r : VersionedResource) (id : ℕ) (db : Db) (s : Store)
    → IsConsistent r db
    → r.checked_state ≡ checked_out
    → find_version id db.versions ≡ none
    → (id == 0) ≡ false
    → s.db.vcrs ≡ db.vcrs
    → s.db.versions ≡ grown r id db
    → CheckedIn r db (dbms_set_checkin_out r checked_in (r.vr_num + 1) s)
unfolding dbms_set_checkin_out dbms_get_version_id
set_new-CheckedIn r id db s c was fresh nonzero vcrs versions =
    let other : (r.vr_num == r.vr_num + 1) ≡ false = ground arith in
    let v = version_of (new_version r id) in
    let found : first_row (is_version r.serialno (r.vr_num + 1)) s.db.versions ≡ some v =
      rw versions (find_next r.serialno r.vr_num db.versions v c.numbers.bound (is_own r id)) in
    rw other (
      select-holds (λ x. CheckedIn r db (behind (advance r) (behind id_of x))) internal_server_error
        (λ d. first_row (is_version r.serialno (r.vr_num + 1)) d.versions) s
        (λ s1 same.
          let ended =
            advance-CheckedIn r id db s1 c was fresh nonzero (ap (λ (d : Db). d.vcrs) same ∙ vcrs)
              (ap (λ (d : Db). d.versions) same ∙ versions) in
          subst (λ o. CheckedIn r db (behind (advance r) (id_of o s1))) (sym found) ended)
        (λ s1 same. inr was))

-- Behind the making of the resource: the root is set, the version is inserted and the state is set.
record_version-CheckedIn :
    (r : VersionedResource) (id : ℕ) (db : Db) (s : Store)
    → IsConsistent r db
    → r.checked_state ≡ checked_out
    → find_version id db.versions ≡ none
    → (id == 0) ≡ false
    → s.db.vcrs ≡ db.vcrs
    → s.db.versions ≡ db.versions
    → CheckedIn r db (record_version r (new_version r id) s)
unfolding dbms_insert_version
record_version-CheckedIn r id db s c was fresh nonzero vcrs versions =
    let new = new_version r id in
    let last = λ (u : Unit {0}). dbms_set_checkin_out r checked_in (r.vr_num + 1) in
    keeping-holds (λ x. CheckedIn r db (behind last x)) (λ u. dbms_insert_version new) s.db
      (set_root r new s) (set_root-Keeps r new s)
      (λ u s1 vcrs1 versions1.
        update-holds (λ x. CheckedIn r db (behind last x)) internal_server_error
          (with_version (version_of new)) s1
          (λ s2 e.
            let (vcrs2, versions2) = with_version-eq (version_of new) s1.db s2.db e in
            let old : s1.db.versions ≡ db.versions = versions1 ∙ versions in
            set_new-CheckedIn r id db s2 c was fresh nonzero (vcrs2 ∙ vcrs1 ∙ vcrs)
              (versions2 ∙ ap (λ l. l ++ (version_of new ∷ [])) old))
          (λ s2 same. inr was))
      (λ e s1. inr was)

or_delete-CheckedIn :
    (r new : VersionedResource) (db : Db) (x : Result VersionedResource × Store)
    → r.checked_state ≡ checked_out
    → CheckedIn r db x
    → CheckedIn r db (or_delete new x)
or_delete-CheckedIn r new db (ok r', s') was h = h
or_delete-CheckedIn r new db (err e, s') was h =
    failed
      (ignore_error tt
        (dbms_delete_resource (record { serialno = new.serialno; kind = new.kind; sha1str = none }))
        s')
      e
  where
    failed : (y : Result (Unit {0}) × Store) (e : Status) → CheckedIn r db (behind (λ u. fail e) y)
    failed (ok u, s2) e = inr was
    failed (err c, s2) e = inr was

making-CheckedIn :
    (r : VersionedResource) (db : Db) (x : Result ℕ × Store)
    → IsConsistent r db
    → r.checked_state ≡ checked_out
    → MakesVersion db x
    → CheckedIn r db (behind (recorded r) x)
making-CheckedIn r db (ok id, s) c was (vcrs, versions, fresh, nonzero) =
    or_delete-CheckedIn r (new_version r id) db (record_version r (new_version r id) s) was
      (record_version-CheckedIn r id db s c was fresh nonzero vcrs versions)
making-CheckedIn r db (err e, s) c was h = inr was

-- Where the struct is consistent with the tables and the making of a resource gives it a new id and
-- leaves the tables of versions alone, and whatever statements the DBMS refuses: a check-in that
-- succeeds found the resource checked out, has added exactly one version, with the next number, and
-- leaves the resource checked in at it, with the struct and the tables consistent; one that fails has
-- changed nothing or found the resource checked out.
pub checkin-CheckedIn :
    (mk_resource : VersionedResource → ℕ → M ℕ) (r : VersionedResource) (s : Store)
    → ((r : VersionedResource) (n : ℕ) (s : Store) → MakesVersion s.db (mk_resource r n s))
    → IsConsistent r s.db
    → CheckedIn r s.db (dav_repos_checkin mk_resource r s)
unfolding dav_repos_checkin
checkin-CheckedIn mk_resource r s makes c =
    let P = CheckedIn r s.db in
    require-holds P (is_version_controlled r.kind) _ s
      (λ controlled.
        require-holds P (is_checked_out r.checked_state) _ s
          (λ t.
            let was = checked_out-eq r.checked_state t in
            reading-holds (λ x. P (behind (recorded r) x)) (get_property r.vhr_id)
              (λ u. mk_resource r (r.vr_num + 1)) s (get_property-IsReading r.vhr_id)
              (λ a s1 same. making-CheckedIn r s.db (mk_resource r (r.vr_num + 1) s1) c was (
                subst (λ d. MakesVersion d (mk_resource r (r.vr_num + 1) s1)) same
                  (makes r (r.vr_num + 1) s1)))
              (λ e s1 same. inl same))
          (λ f. inl refl))
      (λ f. inl refl)
