-- ===== src/Transaction.antt =====
-- Ending a transaction: limestone/transaction.c, lines 34-77, limestone/dbms_transaction.c, lines 71-149.
pub mod Commit
pub mod Available
use limestone.Prelude.{
  ℕ, Bool, true, false, not, ◌&&◌, ◌||◌, Option, none, some, List, [], ◌∷◌, ltb, keep,
  if◌then◌else◌,
}
use limestone.Store.{
  Quota, Db, Store, Result, ok, err, Status, internal_server_error, insufficient_storage, M, pure,
  fail, ◌>>=◌, select,
}

-- The DAV_TRANSACTION_* and the APR_DBD_TRANSACTION_* constants.
pub data Mode : Type 0 where
  commit rollback ignore_errors : Mode

-- `driver_mode` is the one in `ap_trans`; `fserrno` is whether a file operation failed.
pub record Transaction : Type 0 where
  pub mode : Mode
  pub driver_mode : Mode
  pub fserrno : Bool

-- used_quota > total_quota AND total_quota > 0
abbrev pub is_over : Quota → Bool
is_over q = ltb q.total_quota q.used_quota && ltb 0 q.total_quota

abbrev pub none_over : List Quota → M (Unit {0})
none_over [] = pure tt
none_over (q ∷ qs) = fail insufficient_storage

unfoldable pub dbms_quota_pre_commit_checks : M (Unit {0})
dbms_quota_pre_commit_checks = do
  rows ← select internal_server_error (λ db. keep is_over db.quota)
  none_over rows

-- The driver's mode is set, and the mode that it returns is kept.
abbrev pub dbms_transaction_mode_set : Mode → Transaction → Transaction
dbms_transaction_mode_set m t = record t { driver_mode = m; mode = m }

-- After the quotas, the file errors.
abbrev pub check_files : Transaction → Transaction
check_files t = if t.fserrno then dbms_transaction_mode_set rollback t else t

abbrev pub checked : Mode → Transaction → Result (Unit {0}) → Option Status × Transaction
checked ignore_errors t r = (none, t)
checked _ t (ok _) = (none, check_files t)
checked _ t (err e) = (some e, dbms_transaction_mode_set rollback t)

unfoldable pub dav_repos_transaction_pre_commit_checks :
    Transaction → Store → (Option Status × Transaction) × Store
unfolding dbms_quota_pre_commit_checks
dav_repos_transaction_pre_commit_checks t s =
    let (r, s') = dbms_quota_pre_commit_checks s in (checked t.mode t r, s')

-- `finish` is apr_dbd_transaction_end: from the driver's mode and the databases at the start and at
-- the end of the transaction, whether it fails, and the database that is left.
abbrev pub end_error : Bool → Option Status → Option Status
end_error true e = some internal_server_error
end_error false e = e

unfoldable pub dav_repos_transaction_end :
    (Mode → Db → Db → Bool × Db) → Db → Transaction → Store → Option Status × Db
unfolding dav_repos_transaction_pre_commit_checks
dav_repos_transaction_end finish start t s =
    let ((e, t'), s') = dav_repos_transaction_pre_commit_checks t s in
    let (failed, db) = finish t'.driver_mode start s'.db in (end_error failed e, db)
