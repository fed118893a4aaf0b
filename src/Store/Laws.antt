-- ===== src/Store/Laws.antt =====
-- How statements end: refused or carried out.
use mathlib.Core.Path.{subst}
use limestone.Prelude.{
  ◌≡◌, refl, sym, ap, ◌⊎◌, inl, inr, Bool, true, false, Option, none, some, List, [], ◌∷◌, arith,
}
use limestone.Store.Tables.{Db}
use limestone.Store.Monad.{
  Status, Result, ok, err, Store, quiet, M, behind, ◌>>=◌, select, update, apply, settled,
  ignore_error,
}

-- A SELECT leaves the database as it is, and returns the error or the rows.
pub select_case :
    {A : Type 0} (e : Status) (f : Db → A) (s : Store)
    → (s' : Store) × (s'.db ≡ s.db)
      × ((select e f s ≡ (err e, s')) ⊎ (select e f s ≡ (ok (f s.db), s')))
unfolding select
select_case e f s = go s.faults refl
  where
    go :
        (l : List Bool)
        → s.faults ≡ l
        → (s' : Store) × (s'.db ≡ s.db)
          × ((select e f s ≡ (err e, s')) ⊎ (select e f s ≡ (ok (f s.db), s')))
    go [] p = (s, refl, inr (ground (arith, p)))
    go (true ∷ l) p = (record s { faults = l }, refl, inl (ground (arith, p)))
    go (false ∷ l) p = (record s { faults = l }, refl, inr (ground (arith, p)))

pub select-quiet :
    {A : Type 0} (e : Status) (f : Db → A) (db : Db) → select e f (quiet db) ≡ (ok (f db), quiet db)
unfolding select
select-quiet e f db = refl

-- A `do` block behind a call whose end is known.
pub bind-eq-ok :
    {A B : Type 0} (m : M A) (f : A → M B) (s : Store) {a : A} {s' : Store}
    → m s ≡ (ok a, s')
    → (m >>= f) s ≡ f a s'
bind-eq-ok m f s e = ap (behind f) e

pub bind-eq-err :
    {A B : Type 0} (m : M A) (f : A → M B) (s : Store) {e : Status} {s' : Store}
    → m s ≡ (err e, s')
    → (m >>= f) s ≡ (err e, s')
bind-eq-err m f s e = ap (behind f) e

settled-ok :
    {A : Type 0} (default : A) (r : Result A × Store)
    → (a : A) × (s' : Store) × (settled default r ≡ (ok a, s'))
settled-ok default (ok b, t) = (b, t, refl)
settled-ok default (err e, t) = (default, t, refl)

-- A call whose error is not looked at always goes on.
pub ignore_error-ok :
    {A : Type 0} (default : A) (m : M A) (s : Store)
    → (a : A) × (s' : Store) × (ignore_error default m s ≡ (ok a, s'))
unfolding ignore_error
ignore_error-ok default m s = settled-ok default (m s)

pub ignore_error-eq-ok :
    {A : Type 0} (default : A) (m : M A) (s : Store) {a : A} {s' : Store}
    → m s ≡ (ok a, s')
    → ignore_error default m s ≡ (ok a, s')
unfolding ignore_error
ignore_error-eq-ok default m s e = ap (settled default) e

pub ignore_error-eq-err :
    {A : Type 0} (default : A) (m : M A) (s : Store) {e : Status} {s' : Store}
    → m s ≡ (err e, s')
    → ignore_error default m s ≡ (ok default, s')
unfolding ignore_error
ignore_error-eq-err default m s e = ap (settled default) e

-- What holds of every end of a call and of what comes behind it.
pub behind-holds :
    {A B : Type 0} (P : Result B × Store → Type 0) (f : A → M B) (r : Result A × Store)
    → ((a : A) (s : Store) → P (f a s))
    → ((e : Status) (s : Store) → P (err e, s))
    → P (behind f r)
behind-holds P f (ok a, s) good bad = good a s
behind-holds P f (err e, s) good bad = bad e s

apply-holds :
    (P : Result (Unit {0}) × Store → Type 0) (e : Status) (d : Option Db) (s : Store)
    → ((s' : Store) → d ≡ some s'.db → P (ok tt, s'))
    → ((s' : Store) → s'.db ≡ s.db → P (err e, s'))
    → P (apply e d s)
apply-holds P e none s good bad = bad s refl
apply-holds P e (some d) s good bad = good (record s { db = d }) refl

-- A statement that writes is refused, or leaves a database that the schema allows.
pub update-holds :
    (P : Result (Unit {0}) × Store → Type 0) (e : Status) (f : Db → Option Db) (s : Store)
    → ((s' : Store) → f s.db ≡ some s'.db → P (ok tt, s'))
    → ((s' : Store) → s'.db ≡ s.db → P (err e, s'))
    → P (update e f s)
unfolding update
update-holds P e f s good bad = go s.faults refl
  where
    go : (l : List Bool) → s.faults ≡ l → P (update e f s)
    go [] p = rw p (apply-holds P e (f s.db) (record { db = s.db; faults = [] }) good bad)
    go (true ∷ l) p = rw p (bad (record s { faults = l }) refl)
    go (false ∷ l) p = rw p (apply-holds P e (f s.db) (record s { faults = l }) good bad)

pub select-holds :
    {A : Type 0} (P : Result A × Store → Type 0) (e : Status) (f : Db → A) (s : Store)
    → ((s' : Store) → s'.db ≡ s.db → P (ok (f s.db), s'))
    → ((s' : Store) → s'.db ≡ s.db → P (err e, s'))
    → P (select e f s)
select-holds P e f s good bad =
    let (s', same, ended) = select_case e f s in
    elim ended [
      | inl refused ↦ subst P (sym refused) (bad s' same)
      | inr answered ↦ subst P (sym answered) (good s' same)
    ]

pub behind_select-holds :
    {A B : Type 0} (P : Result B × Store → Type 0) (e : Status) (f : Db → A) (k : A → M B)
    (s : Store)
    → ((s' : Store) → s'.db ≡ s.db → P (k (f s.db) s'))
    → ((s' : Store) → s'.db ≡ s.db → P (err e, s'))
    → P (behind k (select e f s))
behind_select-holds P e f k s good bad = select-holds (λ x. P (behind k x)) e f s good bad

-- What a call leaves to a caller that goes on with a default behind an error.
abbrev pub Settles : {A : Type 0} → (A → Store → Type 0) → A → Result A × Store → Type 0
Settles Q default (ok a, s) = Q a s
Settles Q default (err e, s) = Q default s

settled-holds :
    {A B : Type 0} (Q : A → Store → Type 0) (P : Result B × Store → Type 0) (default : A)
    (r : Result A × Store) (f : A → M B)
    → Settles Q default r
    → ((a : A) (s' : Store) → Q a s' → P (f a s'))
    → P (behind f (settled default r))
settled-holds Q P default (ok a, s) f q next = next a s q
settled-holds Q P default (err e, s) f q next = next default s q

pub ignored-holds :
    {A B : Type 0} (Q : A → Store → Type 0) (P : Result B × Store → Type 0) (default : A) (m : M A)
    (f : A → M B) (s : Store)
    → Settles Q default (m s)
    → ((a : A) (s' : Store) → Q a s' → P (f a s'))
    → P (behind f (ignore_error default m s))
unfolding ignore_error
ignored-holds Q P default m f s q next = settled-holds Q P default (m s) f q next

settled_end :
    {A : Type 0} (Q : A → Store → Type 0) (P : Result A × Store → Type 0) (default : A)
    (r : Result A × Store)
    → Settles Q default r
    → ((a : A) (s' : Store) → Q a s' → P (ok a, s'))
    → P (settled default r)
settled_end Q P default (ok a, s) q last = last a s q
settled_end Q P default (err e, s) q last = last default s q

pub ignored_end :
    {A : Type 0} (Q : A → Store → Type 0) (P : Result A × Store → Type 0) (default : A) (m : M A)
    (s : Store)
    → Settles Q default (m s)
    → ((a : A) (s' : Store) → Q a s' → P (ok a, s'))
    → P (ignore_error default m s)
unfolding ignore_error
ignored_end Q P default m s q last = settled_end Q P default (m s) q last
