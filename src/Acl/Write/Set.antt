-- ===== src/Acl/Write/Set.antt =====
-- What `dav_repos_set_acl` (limestone/acl.c, lines 243-284) leaves of the entries and adds to them.
use limestone.Prelude.{ℕ, ◌≡◌, ◌⊎◌, true, false, In, ◌++◌, List, Bytes}
use limestone.Store.{AceRow, Db, Store, Result, ok, err}
use limestone.Acl.{Ace, sabridge_acl_check_preconditions}
use limestone.Acl.Write.{Entry, aces_of}
use limestone.Acl.Write.Grown.{Grown}
use limestone.Acl.Write.Added.{Grants}

-- What is left of the database, with `own` the one without the entries of the resource that are not
-- protected.
abbrev pub Sets :
    (Bytes → Bytes)
    → (Bytes → ℕ)
    → List Ace
    → ℕ
    → List Entry
    → Store
    → Db
    → Result (Unit {0}) × Store
    → Type 0
Sets basename ns_id protected r acl s own (ok u, s') =
    (sabridge_acl_check_preconditions basename (aces_of acl) (aces_of acl) ≡ false)
    × (sabridge_acl_check_preconditions basename (aces_of acl) protected ≡ false)
    × (rows : List AceRow) × Grown r acl rows own s'.db
    × (In true s.faults ⊎ Grants ns_id own s'.db acl rows)
Sets basename ns_id protected r acl s own (err e, s') =
    (s'.db ≡ s.db)
    ⊎ ((front : List Entry) × (back : List Entry) × (acl ≡ front ++ back)
        × (rows : List AceRow) × Grown r front rows own s'.db)
