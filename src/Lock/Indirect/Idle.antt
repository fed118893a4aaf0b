-- ===== src/Lock/Indirect/Idle.antt =====
-- What `sabridge_remove_all_indirect` (limestone/lock_bridge.c, lines 31-52) takes away.
use limestone.Prelude.{ℕ, ◌≡◌, List, [], ◌∷◌}
use limestone.Store.{Store}
use limestone.Lock.Read.{Lock}

-- The locks are all marked with the resource itself.
abbrev pub AreOwn : ℕ → List Lock → Type 0
AreOwn serialno [] = Unit
AreOwn serialno (l ∷ ls) = (l.res_id ≡ serialno) × AreOwn serialno ls
