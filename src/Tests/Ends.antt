-- ===== src/Tests/Ends.antt =====
-- Ends of transactions, and access control lists.
use limestone.Prelude.{◌≡◌, ◌↔◌, refl, Bool, true, false, [], ◌∷◌, codes, In, inl}
use limestone.Store.{Db, quiet}
use limestone.Transaction.{
  Mode, commit, rollback, ignore_errors, Transaction, dav_repos_transaction_end,
}
use limestone.Transaction.Commit.{rolled_back, transaction_end_rolls_back}
use limestone.Acl.{Ace, sabridge_acl_check_preconditions}
use limestone.Acl.Conflict.{Conflicting, acl_check_preconditions_iff}
use limestone.Tests.Data.{over_full, sample_db}

-- A driver that takes the tables back in the mode for it and keeps what was done in the others.
abbrev driver_end : Mode → Db → Db → Bool × Db
driver_end rollback old new = (false, rolled_back old new)
driver_end commit old new = (false, new)
driver_end ignore_errors old new = (false, new)

abbrev committing : Transaction
committing = record { mode = commit; driver_mode = commit; fserrno = false }

abbrev over_db : Db
over_db = record sample_db { quota = over_full ∷ [] }

transaction_end_rolls_back_example :
    (dav_repos_transaction_end driver_end sample_db committing (quiet over_db)).1
    ≡ rolled_back sample_db over_db
transaction_end_rolls_back_example =
    transaction_end_rolls_back driver_end sample_db committing (quiet over_db) (λ old new. refl)
      (λ e. cc) (inl (over_full, inl refl, refl))

abbrev joe_reads : Ace
joe_reads = record { is_deny = false; principal = codes "joe"; privileges = codes "read" ∷ [] }

abbrev joe_does_not : Ace
joe_does_not = record {
  is_deny = true;
  principal = codes "joe";
  privileges = codes "write" ∷ codes "read" ∷ [];
}

acl_check_preconditions_example :
    (sabridge_acl_check_preconditions (λ s. s) (joe_reads ∷ []) (joe_does_not ∷ []) ≡ true) ↔ (
      (i : Ace) × (j : Ace) × In i (joe_reads ∷ [])
      × In j (joe_does_not ∷ [])
      × Conflicting (λ s. s) i j)
acl_check_preconditions_example =
    acl_check_preconditions_iff (λ s. s) (joe_reads ∷ []) (joe_does_not ∷ [])
