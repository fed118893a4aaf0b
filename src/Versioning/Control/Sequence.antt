-- ===== src/Versioning/Control/Sequence.antt =====
-- Any sequence of requests on a versioned resource: limestone/version.c, lines 193-356.
use mathlib.Core.Path.{subst}
use limestone.Prelude.{ℕ, ◌+◌, ◌≤◌, ◌≡◌, refl, sym, ap, ◌∙◌, Bool, List, [], ◌∷◌, ◌++◌, arith}
use limestone.Store.{Version, Db, M, Store, ok}
use limestone.Versioning.{CheckedState, checked_in, checked_out, VersionedResource}
use limestone.Versioning.Write.{version_of}
use limestone.Versioning.Control.{
  new_version, dav_repos_checkout, dav_repos_uncheckout, dav_repos_checkin,
}
use limestone.Versioning.Control.Consistent.{IsConsistent}
use limestone.Versioning.Control.Runs.{Keeps, Changed, checkout-Changed, uncheckout-Changed}
use limestone.Versioning.Control.Checkin.{MakesVersion, CheckedIn, checkin-CheckedIn}

-- The struct and the database between two requests.
pub record Session : Type 0 where
  pub resource : VersionedResource
  pub db : Db

abbrev pub store_of : Session → List Bool → Store
store_of x faults = record { db = x.db; faults = faults }

-- A request that succeeds; one that fails is rolled back.
pub data Step (copy_medium : VersionedResource → M (Unit {0}))
    (mk_resource : VersionedResource → ℕ → M ℕ) : Session → Session → Type 0 where
  checkout :
      (x y : Session) (before after : List Bool)
      → dav_repos_checkout x.resource (store_of x before) ≡ (ok y.resource, store_of y after)
      → Step copy_medium mk_resource x y
  uncheckout :
      (x y : Session) (before after : List Bool)
      → dav_repos_uncheckout copy_medium x.resource (store_of x before)
        ≡ (ok y.resource, store_of y after)
      → Step copy_medium mk_resource x y
  checkin :
      (x y : Session) (before after : List Bool)
      → dav_repos_checkin mk_resource x.resource (store_of x before)
        ≡ (ok y.resource, store_of y after)
      → Step copy_medium mk_resource x y

pub data Run (copy_medium : VersionedResource → M (Unit {0}))
    (mk_resource : VersionedResource → ℕ → M ℕ) : Session → Session → Type 0 where
  done : (x : Session) → Run copy_medium mk_resource x x
  then_step :
      (x y z : Session)
      → Run copy_medium mk_resource x y
      → Step copy_medium mk_resource y z
      → Run copy_medium mk_resource x z

-- What requests keep: the second session is consistent, and its versions are those of the first with
-- others behind them.
abbrev pub Extends : Session → Session → Type 0
Extends x y =
    IsConsistent y.resource y.db
    × (x.resource.vr_num ≤ y.resource.vr_num)
    × ((later : List Version) × (y.db.versions ≡ x.db.versions ++ later))

append-nil : {A : Type 0} (l : List A) → l ≡ l ++ []
append-nil [] = refl
append-nil (x ∷ l) = ap (x ∷◌) (append-nil l)

append_assoc : {A : Type 0} (l m n : List A) → (l ++ m) ++ n ≡ l ++ (m ++ n)
append_assoc [] m n = refl
append_assoc (x ∷ l) m n = ap (x ∷◌) (append_assoc l m n)

Changed-Extends :
    (x y : Session) (from to : CheckedState) (after : List Bool)
    → Changed x.resource from to x.db (ok y.resource, store_of y after)
    → Extends x y
Changed-Extends x y from to after (was, same, c, versions) =
    let number : y.resource.vr_num ≡ x.resource.vr_num =
      ap (λ (r : VersionedResource). r.vr_num) same in
    (
      subst (λ r. IsConsistent r y.db) (sym same) c,
      omega (arith, number),
      ([], versions ∙ append-nil x.db.versions),
    )

CheckedIn-Extends :
    (x y : Session) (after : List Bool)
    → CheckedIn x.resource x.db (ok y.resource, store_of y after)
    → Extends x y
CheckedIn-Extends x y after (was, c, (id, fresh, same, versions)) =
    let number : y.resource.vr_num ≡ x.resource.vr_num + 1 =
      ap (λ (r : VersionedResource). r.vr_num) same in
    (c, omega (arith, number), (version_of (new_version x.resource id) ∷ [], versions))

Step-Extends :
    (copy_medium : VersionedResource → M (Unit {0})) (mk_resource : VersionedResource → ℕ → M ℕ)
    → ((r : VersionedResource) (s : Store) → Keeps s.db (copy_medium r s))
    → ((r : VersionedResource) (n : ℕ) (s : Store) → MakesVersion s.db (mk_resource r n s))
    → {x y : Session} → Step copy_medium mk_resource x y
    → IsConsistent x.resource x.db
    → Extends x y
Step-Extends copy_medium mk_resource keeps makes (checkout x y before after e) c =
    Changed-Extends x y checked_in checked_out after (
      subst (Changed x.resource checked_in checked_out x.db) e
        (checkout-Changed x.resource (store_of x before) c))
Step-Extends copy_medium mk_resource keeps makes (uncheckout x y before after e) c =
    Changed-Extends x y checked_out checked_in after (
      subst (Changed x.resource checked_out checked_in x.db) e
        (uncheckout-Changed copy_medium x.resource (store_of x before) keeps c))
Step-Extends copy_medium mk_resource keeps makes (checkin x y before after e) c =
    CheckedIn-Extends x y after (
      subst (CheckedIn x.resource x.db) e
        (checkin-CheckedIn mk_resource x.resource (store_of x before) makes c))

-- Where copying contents leaves the tables of versions alone, and the making of a resource gives it a
-- new id and leaves them alone too: from a struct that is consistent with the tables, any sequence
-- of check-outs, check-ins and undone check-outs that succeed ends with one that is, with a version
-- number that is not smaller and no version changed or taken away.
pub Run-Extends :
    (copy_medium : VersionedResource → M (Unit {0})) (mk_resource : VersionedResource → ℕ → M ℕ)
    → ((r : VersionedResource) (s : Store) → Keeps s.db (copy_medium r s))
    → ((r : VersionedResource) (n : ℕ) (s : Store) → MakesVersion s.db (mk_resource r n s))
    → {x y : Session} → Run copy_medium mk_resource x y
    → IsConsistent x.resource x.db
    → Extends x y
Run-Extends copy_medium mk_resource keeps makes (done x) c =
    (c, omega arith, ([], append-nil x.db.versions))
Run-Extends copy_medium mk_resource keeps makes (then_step x y z run step) c =
    let (c1, up1, (l1, e1)) = Run-Extends copy_medium mk_resource keeps makes run c in
    let (c2, up2, (l2, e2)) = Step-Extends copy_medium mk_resource keeps makes step c1 in
    (
      c2,
      omega (arith, up1, up2),
      (l1 ++ l2, e2 ∙ ap (λ l. l ++ l2) e1 ∙ append_assoc x.db.versions l1 l2),
    )
