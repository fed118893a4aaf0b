-- ===== src/Acl/Write/Kept.antt =====
-- The privileges that an added entry gets: limestone/dbms_acl.c, lines 194-228 and 286-297.
use mathlib.Core.Path.{subst}
use mathlib.Core.List.{append_assoc, append-nil}
use limestone.Prelude.{
  ℕ, ◌≡◌, sym, ap, ◌∙◌, inl, inr, Bool, true, false, some, List, [], ◌∷◌, ◌++◌, Bytes, In,
  In-append, Bool-cases, ◌==◌,
}
use limestone.Store.{
  AcePrivilege, Db, Store, M, Result, Status, ok, err, internal_server_error, behind, update,
  ignore_error,
}
use limestone.Store.Laws.{update-holds, select-holds, ignored-holds, ignored_end, Settles}
use limestone.Acl.Write.{
  inserted_privilege, with_privilege, dbms_get_privilege_id, add_known, dbms_add_ace_privilege,
  add_privileges,
}

abbrev pub db_of : {A : Type 0} → Result A × Store → Db
db_of (r, s) = s.db

-- What a call leaves of the database, whichever way it ends, goes to what comes behind it.
pub behind_left :
    {A B : Type 0} (Q : Db → Type 0) (P : Result B × Store → Type 0) (f : A → M B)
    (r : Result A × Store)
    → Q (db_of r)
    → ((a : A) (s : Store) → Q s.db → P (f a s))
    → ((e : Status) (s : Store) → Q s.db → P (err e, s))
    → P (behind f r)
behind_left Q P f (ok a, s) q good bad = good a s q
behind_left Q P f (err e, s) q good bad = bad e s q

abbrev pub set_privileges : Db → List AcePrivilege → Db
set_privileges db l = record db { dav_aces_privileges = l }

abbrev pub add_rows : Db → List AcePrivilege → Db
add_rows db l = set_privileges db (db.dav_aces_privileges ++ l)

-- Privileges of one entry are added behind the others.
abbrev pub Holds : ℕ → Db → Db → Type 0
Holds id db db' =
    (more : List AcePrivilege) × (db' ≡ add_rows db more)
    × ((x : AcePrivilege) → In x more → x.ace_id ≡ id)

Holds-refl : (id : ℕ) (db : Db) → Holds id db db
Holds-refl id db = ([], ap (set_privileges db) (sym (append-nil _)), λ x m. elim m [ ])

Holds-trans : (id : ℕ) (db db' db'' : Db) → Holds id db db' → Holds id db' db'' → Holds id db db''
Holds-trans id db db' db'' (m, e, h) (n, f, k) = (
  m ++ n,
  f ∙ ap (λ d. add_rows d n) e ∙ ap (set_privileges db) (append_assoc db.dav_aces_privileges m n),
  λ x i. elim (In-append x m n i) [ inl j ↦ h x j | inr j ↦ k x j ],
)

with_privilege-Holds :
    (x : AcePrivilege) (db db' : Db) → with_privilege x db ≡ some db' → Holds x.ace_id db db'
unfolding with_privilege
with_privilege-Holds x db db' e = go _ e
  where
    go : (b : Bool) → inserted_privilege b x db ≡ some db' → Holds x.ace_id db db'
    go true e = absurd (cc e)
    go false e = (x ∷ [], cc e, λ y i. elim i [ inl q ↦ ap (λ z. z.ace_id) q | inr j ↦ elim j [ ] ])

same_Holds : (id : ℕ) (db db' : Db) → db' ≡ db → Holds id db db'
same_Holds id db db' e = subst (Holds id db) (sym e) (Holds-refl id db)

add_known-Holds : (id n : ℕ) (s : Store) → Holds id s.db (db_of (add_known id n s))
unfolding ignore_error
add_known-Holds id n s = elim (Bool-cases (n == 0)) [
  | inl t ↦ rw t (Holds-refl id s.db)
  | inr f ↦ rw f (
      let P = λ (r : Result (Unit {0}) × Store). Holds id s.db (db_of r) in
      let x : AcePrivilege = record { ace_id = id; privilege_id = n } in
      ignored_end (λ a s'. Holds id s.db s'.db) P tt
        (update internal_server_error (with_privilege x)) s
        (update-holds (Settles (λ a s'. Holds id s.db s'.db) tt) internal_server_error
          (with_privilege x) s (λ s' e. with_privilege-Holds x s.db s'.db e)
          (λ s' e. same_Holds id s.db s'.db e))
        (λ a s' h. h))
]

pub add_ace_privilege-Holds :
    (ns_id : Bytes → ℕ) (name : Bytes) (id : ℕ) (s : Store)
    → Holds id s.db (db_of (dbms_add_ace_privilege ns_id name id s))
unfolding dbms_add_ace_privilege dbms_get_privilege_id
add_ace_privilege-Holds ns_id name id s =
    let same = λ (a : ℕ) (s' : Store). s'.db ≡ s.db in
    ignored-holds same (λ r. Holds id s.db (db_of r)) 0 _ (add_known id) s
      (select-holds (Settles same 0) internal_server_error _ s (λ s' e. e) (λ s' e. e))
      (λ n s' e. subst (λ d. Holds id d (db_of (add_known id n s'))) e (add_known-Holds id n s'))

pub add_privileges-Holds :
    (ns_id : Bytes → ℕ) (id : ℕ) (ps : List Bytes) (s : Store)
    → Holds id s.db (db_of (add_privileges ns_id id ps s))
unfolding add_privileges
add_privileges-Holds ns_id id [] s = Holds-refl id s.db
add_privileges-Holds ns_id id (p ∷ ps) s =
    behind_left (Holds id s.db) (λ r. Holds id s.db (db_of r)) (λ _. add_privileges ns_id id ps)
      (dbms_add_ace_privilege ns_id p id s) (add_ace_privilege-Holds ns_id p id s)
      (λ a s' h. Holds-trans id s.db s'.db _ h (add_privileges-Holds ns_id id ps s')) (λ e s' h. h)
