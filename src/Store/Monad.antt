-- ===== src/Store/Monad.antt =====
-- A function of the server that runs statements: it returns a value or an error beside the database
-- that it leaves. Each `dbms_execute` asks the next entry of `faults` whether the DBMS refuses
-- the statement; an exhausted list refuses none.
use limestone.Prelude.{Option, none, some, Bool, true, false, List, [], ◌∷◌}
use limestone.Store.Tables.{Db}

-- The HTTP status of a dav_error.
pub data Status : Type 0 where
  internal_server_error conflict forbidden bad_request precondition_failed insufficient_storage :
      Status

pub data Result (A : Type 0) : Type 0 where
  ok : A → Result A
  err : Status → Result A

pub record Store : Type 0 where
  pub db : Db
  pub faults : List Bool

-- A database whose DBMS refuses no statement.
abbrev pub quiet : Db → Store
quiet db = record { db = db; faults = [] }

abbrev pub M : Type 0 → Type 0
M A = Store → Result A × Store

module _ {A : Type 0} where
  abbrev pub pure : A → M A
  pure a s = (ok a, s)

  abbrev pub fail : Status → M A
  fail e s = (err e, s)

  abbrev pub gets : (Db → A) → M A
  gets f s = (ok (f s.db), s)

-- What comes behind a call, by how the call ended.
abbrev pub behind : {A B : Type 0} → (A → M B) → Result A × Store → Result B × Store
behind f (ok a, s) = f a s
behind f (err e, s) = (err e, s)

infixl 5 ◌>>=◌ ◌>>◌
abbrev pub ◌>>=◌ : {A B : Type 0} → M A → (A → M B) → M B
◌>>=◌ m f s = behind f (m s)

abbrev pub ◌>>◌ : {A B : Type 0} → M A → M B → M B
m >> k = m >>= λ _. k

-- Whether the statement at hand is refused, and the store for the later ones.
unfoldable pub dbms_execute : M Bool
dbms_execute s = elim s.faults [
  | [] ↦ (ok false, s)
  | refused ∷ later ↦ (ok refused, record s { faults = later })
]

module _ {A : Type 0} where
  abbrev answer : Status → A → Bool → M A
  answer e a true = fail e
  answer e a false = pure a

  -- A SELECT whose refusal is answered by an error.
  unfoldable pub select : Status → (Db → A) → M A
  unfolding dbms_execute
  select e f = do refused ← dbms_execute; a ← gets f; answer e a refused

abbrev store_db : Db → M (Unit {0})
store_db d s = (ok tt, record s { db = d })

-- An INSERT, UPDATE or DELETE whose refusal is answered by an error. `none` is a statement that a
-- constraint of the schema forbids.
abbrev pub apply : Status → Option Db → M (Unit {0})
apply e none = fail e
apply e (some d) = store_db d

abbrev pub written : Status → Option Db → Bool → M (Unit {0})
written e d true = fail e
written e d false = apply e d

unfoldable pub update : Status → (Db → Option Db) → M (Unit {0})
unfolding dbms_execute
update e f = do refused ← dbms_execute; d ← gets f; written e d refused

abbrev pub settled : {A : Type 0} → A → Result A × Store → Result A × Store
settled default (ok a, s) = (ok a, s)
settled default (err e, s) = (ok default, s)

-- A call whose error the caller does not look at.
unfoldable pub ignore_error : {A : Type 0} → A → M A → M A
ignore_error default m s = settled default (m s)
