-- ===== src/Versioning/Control/Runs.antt =====
-- Checking out, in and back, and any sequence of it: limestone/version.c, lines 193-356.
use mathlib.Core.Path.{subst}
use mathlib.Core.Option.{some-injective}
use limestone.Prelude.{
  ◌≡◌, refl, sym, ap, ◌∙◌, ◌⊎◌, inl, inr, Bool, true, false, Option, none, some, ◌==◌, ==_iff,
}
use limestone.Store.{
  ResourceType, versioned, Db, M, Store, Result, ok, err, Status, internal_server_error, conflict,
  pure, ◌>>◌, behind,
}
use limestone.Store.Laws.{update-holds}
use limestone.Versioning.{
  CheckedState, checked_in, checked_out, not_versioned, VersionedResource, state_of,
}
use limestone.Versioning.Write.{is_in_state, set_checked, dbms_set_checkin_out}
use limestone.Versioning.Load.{get_property}
use limestone.Versioning.Load.Reading.{IsReading, get_property-IsReading}
use limestone.Versioning.Control.{
  is_checked_in, is_checked_out, require, restore, dav_repos_checkout, dav_repos_uncheckout,
}
use limestone.Versioning.Control.Consistent.{IsNumbered, IsConsistent, set_checked-IsConsistent}

pub reading-holds :
    {A B : Type 0} (P : Result B × Store → Type 0) (m : M A) (f : A → M B) (s : Store)
    → IsReading m
    → ((a : A) (s' : Store) → s'.db ≡ s.db → P (f a s'))
    → ((e : Status) (s' : Store) → s'.db ≡ s.db → P (err e, s'))
    → P (behind f (m s))
reading-holds {A} P m f s h good bad = go (m s) (h s)
  where
    go : (r : Result A × Store) → r.1.db ≡ s.db → P (behind f r)
    go (ok a, s') e = good a s' e
    go (err c, s') e = bad c s' e

pub require-holds :
    {A : Type 0} (P : Result A × Store → Type 0) (b : Bool) (next : M A) (s : Store)
    → (b ≡ true → P (next s))
    → (b ≡ false → P (err conflict, s))
    → P (require b next s)
require-holds P true next s good bad = good refl
require-holds P false next s good bad = bad refl

checked_in-eq : (c : CheckedState) → is_checked_in c ≡ true → c ≡ checked_in
checked_in-eq checked_in h = refl
checked_in-eq checked_out h = absurd (cc h)
checked_in-eq not_versioned h = absurd (cc h)

pub checked_out-eq : (c : CheckedState) → is_checked_out c ≡ true → c ≡ checked_out
checked_out-eq checked_out h = refl
checked_out-eq checked_in h = absurd (cc h)
checked_out-eq not_versioned h = absurd (cc h)

-- A change of the state at the version that the resource is at.
abbrev pub at_state : VersionedResource → CheckedState → VersionedResource
at_state r st = record r { checked_state = st }

-- What such a change comes to. Without the state that it wants, it changes nothing.
abbrev pub Changed :
    VersionedResource → CheckedState → CheckedState → Db → Result VersionedResource × Store → Type 0
Changed r from to db (ok r', s') =
    (r.checked_state ≡ from)
    × (r' ≡ at_state r to)
    × IsConsistent (at_state r to) s'.db
    × (s'.db.versions ≡ db.versions)
Changed r from to db (err e, s') = (s'.db ≡ db) ⊎ (r.checked_state ≡ from)

-- The tables of versions are as they were.
abbrev pub Keeps : {A : Type 0} → Db → Result A × Store → Type 0
Keeps db r = (r.1.db.vcrs ≡ db.vcrs) × (r.1.db.versions ≡ db.versions)

set_same-Changed :
    (r : VersionedResource) (from to : CheckedState) (db : Db) (s : Store)
    → IsConsistent r db
    → s.db.vcrs ≡ db.vcrs
    → s.db.versions ≡ db.versions
    → r.checked_state ≡ from
    → to ≡ state_of (is_in_state to)
    → Changed r from to db (dbms_set_checkin_out r to r.vr_num s)
unfolding dbms_set_checkin_out
set_same-Changed r from to db s c vcrs versions was checked =
    let own : (r.vr_num == r.vr_num) ≡ true = (==_iff r.vr_num r.vr_num).1 refl in
    let numbers : IsNumbered r db.versions = c.numbers in
    let later : IsNumbered (at_state r to) s.db.versions = rw versions (record {
      latest = numbers.latest;
      row = numbers.row;
      is_latest = numbers.is_latest;
      nonzero = numbers.nonzero;
      bound = numbers.bound;
      full = numbers.full;
    }) in
    let set : IsConsistent (at_state r to) (set_checked to r.checked_id r.serialno s.db) =
      set_checked-IsConsistent (at_state r to) s.db c.vcr (rw vcrs c.vcr_row) checked later in
    rw own (
      rw c.numbers.nonzero (
        update-holds (λ x. Changed r from to db (behind (λ u. pure (at_state r to)) x))
          internal_server_error (λ d. some (set_checked to r.checked_id r.serialno d)) s
          (λ s' e.
            let now : set_checked to r.checked_id r.serialno s.db ≡ s'.db = some-injective _ _ e in
            (
              was,
              refl,
              subst (IsConsistent (at_state r to)) now set,
              sym (ap (λ (d : Db). d.versions) now) ∙ versions,
            ))
          (λ s' e. inr was)))

-- Where the struct is consistent with the tables, and whatever statements the DBMS refuses: a check-out
-- that succeeds found the resource checked in and leaves it checked out at the same version, in the
-- struct and in the tables; one that fails has changed nothing or found it checked in.
pub checkout-Changed :
    (r : VersionedResource) (s : Store)
    → IsConsistent r s.db
    → Changed r checked_in checked_out s.db (dav_repos_checkout r s)
unfolding dav_repos_checkout
checkout-Changed r s c =
    reading-holds (Changed r checked_in checked_out s.db) (get_property r.vhr_id) _ s
      (get_property-IsReading r.vhr_id)
      (λ a s1 same.
        require-holds (Changed r checked_in checked_out s.db) (is_checked_in r.checked_state) _ s1
          (λ t.
            set_same-Changed r checked_in checked_out s.db s1 c (ap (λ (d : Db). d.vcrs) same)
              (ap (λ (d : Db). d.versions) same) (checked_in-eq r.checked_state t) refl)
          (λ f. inl same))
      (λ e s1 same. inl same)

-- The contents come back beside the tables of versions, and never for a collection.
restore-Keeps :
    (copy_medium : VersionedResource → M (Unit {0})) (r : VersionedResource) (s : Store)
    → ((r : VersionedResource) (s : Store) → Keeps s.db (copy_medium r s))
    → Keeps s.db (restore copy_medium r s)
restore-Keeps copy_medium r s keeps = go r.kind refl
  where
    go : (k : Option ResourceType) → r.kind ≡ k → Keeps s.db (restore copy_medium r s)
    go none p = rw p (refl, refl)
    go (some ResourceType.versioned) p = rw p (keeps (record r { kind = some versioned }) s)
    go (some ResourceType.versioned_collection) p = rw p (
        update-holds (Keeps s.db) internal_server_error (λ db. none) s (λ s' e. absurd (cc e))
          (λ s' same. (ap (λ (d : Db). d.vcrs) same, ap (λ (d : Db). d.versions) same)))
    go (some ResourceType.plain) p = rw p (refl, refl)
    go (some ResourceType.collection) p = rw p (refl, refl)
    go (some ResourceType.principal) p = rw p (refl, refl)
    go (some ResourceType.user) p = rw p (refl, refl)
    go (some ResourceType.group) p = rw p (refl, refl)
    go (some ResourceType.redirect) p = rw p (refl, refl)
    go (some ResourceType.locknull) p = rw p (refl, refl)
    go (some ResourceType.version) p = rw p (refl, refl)
    go (some ResourceType.version_history) p = rw p (refl, refl)
    go (some ResourceType.collection_version) p = rw p (refl, refl)

pub keeping-holds :
    {A B : Type 0} (P : Result B × Store → Type 0) (f : A → M B) (db : Db) (r : Result A × Store)
    → Keeps db r
    → ((a : A) (s' : Store) → s'.db.vcrs ≡ db.vcrs → s'.db.versions ≡ db.versions → P (f a s'))
    → ((e : Status) (s' : Store) → P (err e, s'))
    → P (behind f r)
keeping-holds P f db (ok a, s') (vcrs, versions) good bad = good a s' vcrs versions
keeping-holds P f db (err e, s') (vcrs, versions) good bad = bad e s'

-- Where the struct is consistent with the tables and copying contents leaves the tables of versions
-- alone, and whatever statements the DBMS refuses: an undone check-out that succeeds found the
-- resource checked out and leaves it checked in at the same version, in the struct and in the
-- tables; one that fails has changed nothing or found it checked out.
pub uncheckout-Changed :
    (copy_medium : VersionedResource → M (Unit {0})) (r : VersionedResource) (s : Store)
    → ((r : VersionedResource) (s : Store) → Keeps s.db (copy_medium r s))
    → IsConsistent r s.db
    → Changed r checked_out checked_in s.db (dav_repos_uncheckout copy_medium r s)
unfolding dav_repos_uncheckout
uncheckout-Changed copy_medium r s keeps c =
    let P = Changed r checked_out checked_in s.db in
    require-holds P (is_checked_out r.checked_state) _ s
      (λ t.
        let was = checked_out-eq r.checked_state t in
        keeping-holds P (λ u. dbms_set_checkin_out r checked_in r.vr_num) s.db
          ((get_property r.vhr_id >> restore copy_medium r) s)
          (reading-holds (Keeps s.db) (get_property r.vhr_id) (λ u. restore copy_medium r) s
            (get_property-IsReading r.vhr_id)
            (λ a s1 same.
              subst (λ d. Keeps d (restore copy_medium r s1)) same
                (restore-Keeps copy_medium r s1 keeps))
            (λ e s1 same. (ap (λ (d : Db). d.vcrs) same, ap (λ (d : Db). d.versions) same)))
          (λ u s1 vcrs versions.
            set_same-Changed r checked_out checked_in s.db s1 c vcrs versions was refl)
          (λ e s1. inr was))
      (λ f. inl refl)
