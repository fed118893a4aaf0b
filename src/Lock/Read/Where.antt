-- ===== src/Lock/Read/Where.antt =====
-- `dbms_get_locks_by_where_str` (limestone/dbms_locks.c, lines 28-103) as a whole.
use limestone.Prelude.{ℕ, ◌≡◌, refl, ◌∙◌, ◌⊎◌, inl, inr, Bool, false, List, [], ◌∷◌, In, keep}
use limestone.Store.{Db, Store, Result, ok, err, internal_server_error, pure, ◌>>◌, select}
use limestone.Store.Laws.{select_case, bind-eq-ok, bind-eq-err, ignore_error-ok}
use limestone.Lock.Expire.{dbms_delete_exp_locks}
use limestone.Lock.Read.{
  Lock, Joined, Query, sort_rows, drop_expired, join_rows, dbms_get_locks_by_where_str,
}
use limestone.Lock.Read.Live.{IsOfRow, IsLiveOf, has_run_out}

-- The rows that the condition selects.
abbrev pub selected_rows : (Db → Joined → Bool) → Db → List Joined
selected_rows condition db =
    keep (condition db) (join_rows db.locks_resources db.locks db.principals)

-- The locks are those of the rows that have not run out.
pub record AreLive (q : Query) (rows : List Joined) (ls : List Lock) : Type 0 where
  pub sound : (l : Lock) → In l ls → IsLiveOf q rows l
  pub complete :
      (row : Joined)
      → In row rows
      → has_run_out q row ≡ false
      → (l : Lock) × In l ls × IsOfRow q row l

abbrev pub Reads : Query → List Joined → Result (List Lock) → Type 0
Reads q rows (ok ls) = AreLive q rows ls
Reads q rows (err e) = e ≡ internal_server_error

drop_expired-ok : (ids : List ℕ) (s : Store) → (s' : Store) × (drop_expired ids s ≡ (ok tt, s'))
unfolding drop_expired
drop_expired-ok [] s = (s, refl)
drop_expired-ok (i ∷ is) s =
    let (a, s', e) = ignore_error-ok tt (dbms_delete_exp_locks (i ∷ is)) s in (s', e)

-- What the call comes to: the refused SELECT's error, or the sorted rows.
pub get_locks_by_where_str-case :
    (q : Query) (condition : Db → Joined → Bool) (s : Store)
    → (s' : Store) × ((dbms_get_locks_by_where_str q condition s ≡ (err internal_server_error, s'))
        ⊎ (dbms_get_locks_by_where_str q condition s
            ≡ (ok (sort_rows q false (selected_rows condition s.db)).locks, s')))
unfolding dbms_get_locks_by_where_str
get_locks_by_where_str-case q condition s =
    let query = select internal_server_error (selected_rows condition) in
    let rest = λ (rows : List Joined).
      drop_expired (sort_rows q false rows).expired >> pure (sort_rows q false rows).locks in
    let (s', same, ended) = select_case internal_server_error (selected_rows condition) s in
    elim ended [
      | inl refused ↦ (s', inl (bind-eq-err query rest s refused))
      | inr answered ↦
          let sorted = sort_rows q false (selected_rows condition s.db) in
          let (s'', dropped) = drop_expired-ok sorted.expired s' in
          (
            s'',
            inr (
                bind-eq-ok query rest s answered
                ∙ bind-eq-ok (drop_expired sorted.expired) (λ _. pure sorted.locks) s' dropped),
          )
    ]
