-- ===== src/Tests/Versions.antt =====
-- A versioned resource and its witnesses.
use limestone.Prelude.{
  ℕ, suc, ◌+◌, ◌≤◌, ◌≡◌, refl, ap, Option, inl, inr, true, false, none, some, List, [], ◌∷◌, ◌==◌,
  arith,
}
use limestone.Store.{
  versioned, plain, some_row, Version, Db, Store, M, ok, pure, ◌>>=◌, quiet, ignore_error, select,
  update,
}
use limestone.Bind.Rows.{first_row}
use limestone.Versioning.{
  VersionedResource, checked_in, checked_out, empty_resource, find_version, dbms_get_vcr_props,
}
use limestone.Versioning.Begin.{retyped, sabridge_vsn_control}
use limestone.Versioning.Begin.First.{Begins, vsn_control-Begins}
use limestone.Versioning.Control.{dav_repos_checkout, dav_repos_checkin}
use limestone.Versioning.Control.Consistent.{IsConsistent}
use limestone.Versioning.Control.Written.{ReadsBack, get_vcr_props-set_checkin_out}
use limestone.Versioning.Write.{dbms_set_checkin_out}
use limestone.Versioning.Control.Checkin.{MakesVersion, CheckedIn, checkin-CheckedIn}
use limestone.Versioning.Control.Sequence.{Session, Step, Run, Extends, Run-Extends}
use limestone.Tests.Data.{sample_db}

-- An id above those of all versions.
abbrev above_all : List Version → ℕ
above_all [] = 100
above_all (v ∷ vs) = v.resource_id + suc (above_all vs)

abbrev next_id : VersionedResource → ℕ → M ℕ
next_id r n s = (ok (above_all s.db.versions), s)

free_above : (n : ℕ) (vs : List Version) → above_all vs ≤ n → find_version n vs ≡ none
unfolding first_row
free_above n [] h = refl
free_above n (v ∷ vs) h =
    let other : (v.resource_id == n) ≡ false = ground (arith, h) in
    rw other (free_above n vs (omega (arith, h)))

above_all_positive : (vs : List Version) → (above_all vs == 0) ≡ false
above_all_positive [] = refl
above_all_positive (v ∷ vs) = ground arith

next_id-MakesVersion :
    (r : VersionedResource) (n : ℕ) (s : Store) → MakesVersion s.db (next_id r n s)
next_id-MakesVersion r n s = (
  refl,
  refl,
  free_above (above_all s.db.versions) s.db.versions (omega arith),
  above_all_positive s.db.versions,
)

abbrev same_contents : VersionedResource → M (Unit {0})
same_contents r = pure tt

-- Resource 4 with the history 30 at its first version, 40.
abbrev version_one : Version
version_one = record { resource_id = 40; number = 1; vcr_id = some 4; vhr_id = 30 }

abbrev versioned_db : Db
versioned_db = record sample_db {
  versions = version_one ∷ [];
  vcrs =
      record {
        resource_id = 4;
        checked_id = 40;
        vhr_id = 30;
        checked_in = true;
        version_type = 5;
        checkin_on_unlock = 0;
      }
      ∷ [];
  vhrs = record { resource_id = 30; root_version_id = 40 } ∷ [];
}

abbrev resource : VersionedResource
resource = record (empty_resource (some 4)) {
  kind = some versioned;
  checked_state = checked_in;
  checked_id = 40;
  vhr_id = 30;
  vr_num = 1;
  autoversion_type = 5;
}

resource-IsConsistent : IsConsistent resource versioned_db
unfolding first_row
resource-IsConsistent = record {
  vcr = record {
    resource_id = 4;
    checked_id = 40;
    vhr_id = 30;
    checked_in = true;
    version_type = 5;
    checkin_on_unlock = 0;
  };
  vcr_row = refl;
  state = refl;
  at_version = refl;
  numbers = record {
    latest = version_one;
    row = refl;
    is_latest = refl;
    nonzero = refl;
    bound = λ v i mine. elim i [
      | inl q ↦
          let n : v.number ≡ 1 = ap (λ (w : Version). w.number) q in
          (omega (arith, n), omega (arith, n))
      | inr past ↦ elim past [ ]
    ];
    full = λ k low high.
        let n : k ≡ 1 = omega (arith, low, high) in (version_one, inl refl, rw n refl);
  };
}

get_vcr_props_example : ReadsBack resource checked_out versioned_db (
    (dbms_set_checkin_out resource checked_out 1 >>= λ r.
    dbms_get_vcr_props (empty_resource (some r.serialno)))
      (quiet versioned_db))
unfolding first_row
get_vcr_props_example =
    get_vcr_props-set_checkin_out resource checked_out versioned_db
      (record {
        resource_id = 4;
        checked_id = 40;
        vhr_id = 30;
        checked_in = true;
        version_type = 5;
        checkin_on_unlock = 0;
      })
      (inr refl) refl resource-IsConsistent.numbers

-- Behind a check-out.
abbrev out_db : Db
out_db = record versioned_db {
  vcrs =
      record {
        resource_id = 4;
        checked_id = 40;
        vhr_id = 30;
        checked_in = false;
        version_type = 5;
        checkin_on_unlock = 0;
      }
      ∷ [];
}

abbrev out_resource : VersionedResource
out_resource = record resource { checked_state = checked_out }

abbrev start : Session
start = record { resource = resource; db = versioned_db }

abbrev taken_out : Session
taken_out = record { resource = out_resource; db = out_db }

checked_out_once : Run same_contents next_id start taken_out
unfolding dav_repos_checkout first_row ignore_error select update
checked_out_once =
    Run.then_step start start taken_out (Run.done start) (Step.checkout start taken_out [] [] refl)

run_example : Extends start taken_out
run_example =
    Run-Extends same_contents next_id (λ r s. (refl, refl)) next_id-MakesVersion checked_out_once
      resource-IsConsistent

out_resource-IsConsistent : IsConsistent out_resource out_db
out_resource-IsConsistent =
    (Run-Extends same_contents next_id (λ r s. (refl, refl)) next_id-MakesVersion checked_out_once
      resource-IsConsistent).0

checkin_example :
    CheckedIn out_resource out_db (dav_repos_checkin next_id out_resource (quiet out_db))
checkin_example =
    checkin-CheckedIn next_id out_resource (quiet out_db) next_id-MakesVersion
      out_resource-IsConsistent

-- Resource 4 before it has versions.
abbrev plain_resource : VersionedResource
plain_resource = record (empty_resource (some 4)) { kind = some plain }

abbrev history_30 : VersionedResource → M (Option ℕ)
history_30 r = pure (some 30)

abbrev no_collection : ℕ → M (Unit {0})
no_collection vhr = pure tt

abbrev version_40 : VersionedResource → ℕ → M ℕ
version_40 r n = pure 40

vsn_control_example : Begins plain_resource 30 40 sample_db (
    sabridge_vsn_control history_30 no_collection version_40 false 3 plain_resource
      (quiet sample_db))
unfolding some_row
vsn_control_example =
    let typed = retyped versioned 4 sample_db in
    vsn_control-Begins history_30 no_collection version_40 3 plain_resource 30 40 sample_db typed
      typed typed refl refl refl refl refl refl refl refl refl refl refl
