-- ===== src/Transaction/Commit.antt =====
-- Which transactions `dav_repos_transaction_end` (limestone/transaction.c, lines 62-77) lets through.
use mathlib.Core.Path.{subst}
use limestone.Prelude.{
  ◌≡◌, ◌≢◌, refl, ap, ◌∙◌, ◌⊎◌, inl, inr, Bool, true, false, none, List, [], ◌∷◌, In, keep, keep-In,
}
use limestone.Store.{Quota, Db, Store, Result, ok, err, internal_server_error, quiet, select}
use limestone.Store.Laws.{behind_select-holds}
use limestone.Transaction.{
  Mode, commit, rollback, ignore_errors, Transaction, is_over, none_over,
  dbms_quota_pre_commit_checks, checked, end_error, dav_repos_transaction_pre_commit_checks,
  dav_repos_transaction_end,
}

-- Some principal uses more than its quota.
abbrev pub SomeOver : Db → Type 0
SomeOver db = (q : Quota) × In q db.quota × (is_over q ≡ true)

-- The check lets only a database through in which no principal uses more than its quota.
abbrev LetThrough : Db → Result (Unit {0}) × Store → Type 0
LetThrough db (ok _, s) = ¬ SomeOver db
LetThrough db (err e, s) = Unit

none_over-LetThrough :
    (db : Db) (rows : List Quota) (s : Store)
    → keep is_over db.quota ≡ rows
    → LetThrough db (none_over rows s)
none_over-LetThrough db [] s e = λ (q, m, over). subst (In q) e (keep-In is_over q db.quota m over)
none_over-LetThrough db (q ∷ qs) s e = tt

quota_pre_commit_checks-LetThrough : (s : Store) → LetThrough s.db (dbms_quota_pre_commit_checks s)
unfolding dbms_quota_pre_commit_checks
quota_pre_commit_checks-LetThrough s =
    behind_select-holds (LetThrough s.db) internal_server_error (λ db. keep is_over db.quota)
      none_over s (λ s' same. none_over-LetThrough s.db (keep is_over s.db.quota) s' refl)
      (λ s' same. tt)

-- What makes a transaction fail.
abbrev pub IsBad : Transaction → Db → Type 0
IsBad t db = SomeOver db ⊎ (t.fserrno ≡ true)

checked_rollback :
    (m : Mode) (t : Transaction) (db : Db) (r : Result (Unit {0})) (s : Store)
    → m ≢ ignore_errors
    → IsBad t db
    → LetThrough db (r, s)
    → (checked m t r).1.driver_mode ≡ rollback
checked_rollback ignore_errors t db r s other bad through = absurd (other refl)
checked_rollback commit t db (ok _) s other (inl over) through = absurd (through over)
checked_rollback commit t db (ok _) s other (inr failed) through = rw failed refl
checked_rollback commit t db (err e) s other bad through = refl
checked_rollback rollback t db (ok _) s other (inl over) through = absurd (through over)
checked_rollback rollback t db (ok _) s other (inr failed) through = rw failed refl
checked_rollback rollback t db (err e) s other bad through = refl

quota_pre_commit_checks-db : (s : Store) → (dbms_quota_pre_commit_checks s).1.db ≡ s.db
unfolding dbms_quota_pre_commit_checks
quota_pre_commit_checks-db s =
    behind_select-holds (λ r. r.1.db ≡ s.db) internal_server_error (λ db. keep is_over db.quota)
      none_over s (λ s' same. none_over-db (keep is_over s.db.quota) s' ∙ same) (λ s' same. same)
  where
    none_over-db : (rows : List Quota) (s' : Store) → (none_over rows s').1.db ≡ s'.db
    none_over-db [] s' = refl
    none_over-db (q ∷ qs) s' = refl

-- What a rollback leaves: all tables go back. The sequences and the bodies on disk do not.
abbrev pub rolled_back : Db → Db → Db
rolled_back old new = record old {
  binds_id_seq = new.binds_id_seq;
  cleanup_id_seq = new.cleanup_id_seq;
  locks_id_seq = new.locks_id_seq;
  user_domains_id_seq = new.user_domains_id_seq;
  files = new.files;
}

-- If errors are not to be ignored, and some principal uses more than its quota or a file operation
-- has failed, then the end of the transaction leaves all tables as they were at its start, and the
-- sequences and the bodies on disk as the transaction left them, whatever statements the DBMS
-- refuses. The driver is one whose rollback takes back the tables and nothing else.
pub transaction_end_rolls_back :
    (finish : Mode → Db → Db → Bool × Db) (start : Db) (t : Transaction) (s : Store)
    → ((old new : Db) → (finish rollback old new).1 ≡ rolled_back old new)
    → t.mode ≢ ignore_errors
    → IsBad t s.db
    → (dav_repos_transaction_end finish start t s).1 ≡ rolled_back start s.db
unfolding dav_repos_transaction_end dav_repos_transaction_pre_commit_checks
transaction_end_rolls_back finish start t s goes_back other bad =
    let (r, s') = dbms_quota_pre_commit_checks s in
    rw (checked_rollback t.mode t s.db r s' other bad (quota_pre_commit_checks-LetThrough s))
      (goes_back start s'.db ∙ ap (rolled_back start) (quota_pre_commit_checks-db s))

none_kept : (qs : List Quota) → ((q : Quota) → In q qs → is_over q ≡ false) → keep is_over qs ≡ []
none_kept [] fine = refl
none_kept (q ∷ qs) fine = rw (fine q (inl refl)) (none_kept qs (λ p m. fine p (inr m)))

-- If no principal uses more than its quota, no file operation has failed, the transaction is to
-- commit, and the DBMS refuses nothing, then the end is the driver's end in the mode for committing.
pub transaction_end_commits :
    (finish : Mode → Db → Db → Bool × Db) (start : Db) (t : Transaction) (db : Db)
    → t.mode ≡ commit
    → t.driver_mode ≡ commit
    → t.fserrno ≡ false
    → ((q : Quota) → In q db.quota → is_over q ≡ false)
    → dav_repos_transaction_end finish start t (quiet db)
      ≡ (end_error (finish commit start db).0 none, (finish commit start db).1)
unfolding dav_repos_transaction_end dav_repos_transaction_pre_commit_checks
    dbms_quota_pre_commit_checks select
transaction_end_commits finish start t db m d f fine =
    rw (none_kept db.quota fine) (rw m (rw f (rw d refl)))
