-- ===== src/Acl/Write/Granted.antt =====
-- That an added entry gets its privileges: limestone/dbms_acl.c, lines 194-228 and 286-297.
use mathlib.Core.Path.{subst}
use limestone.Prelude.{
  ℕ, ◌≡◌, refl, ap, ◌⊎◌, inl, inr, Bool, true, false, ◌&&◌, none, some, List, [], ◌∷◌, ◌++◌, Bytes,
  In, append-In, Bool-cases, Option-cases, ◌==◌, str_eq, str_eq_iff, arith,
}
use limestone.Store.{
  AcePrivilege, AclPrivilege, Db, Store, Result, ok, err, internal_server_error, behind, select,
  update, some_row,
}
use limestone.Store.Laws.{ignore_error-eq-ok, ignore_error-eq-err}
use limestone.Store.Ends.{Later, select_ends, update_ends}
use limestone.Store.Rows.{some_row-In}
use limestone.Bind.Rows.{first_row}
use limestone.Acl.Write.{
  acl_privilege_id, inserted_privilege, with_privilege, dbms_get_privilege_id, add_known,
  dbms_add_ace_privilege, add_privileges,
}
use limestone.Acl.Write.Kept.{Holds, add_ace_privilege-Holds, add_privileges-Holds}

-- The entry has the privilege that acl_privileges knows by this name.
abbrev pub Granted : (Bytes → ℕ) → Db → Db → ℕ → Bytes → Type 0
Granted ns_id db db' id name =
    (k : AclPrivilege) × In k db.acl_privileges
    × (k.name ≡ name)
    × (k.priv_namespace_id ≡ ns_id name)
    × (x : AcePrivilege) × In x db'.dav_aces_privileges
    × (x.ace_id ≡ id)
    × (x.privilege_id ≡ k.id)

abbrev pub Gives : (Bytes → ℕ) → ℕ → List Bytes → Store → Result (Unit {0}) × Store → Type 0
Gives ns_id id ps s (ok u, s') =
    Later s s' × (In true s.faults ⊎ ((p : Bytes) → In p ps → Granted ns_id s.db s'.db id p))
Gives ns_id id ps s (err e, s') = Unit {0}

with_privilege-In :
    (x : AcePrivilege) (db db' : Db) → with_privilege x db ≡ some db' → In x db'.dav_aces_privileges
unfolding with_privilege
with_privilege-In x db db' e = go _ e
  where
    go : (b : Bool) → inserted_privilege b x db ≡ some db' → In x db'.dav_aces_privileges
    go true e = absurd (cc e)
    go false e =
        let rows : db.dav_aces_privileges ++ (x ∷ []) ≡ db'.dav_aces_privileges = cc e in
        rw (← rows) (append-In x db.dav_aces_privileges (x ∷ []) (inr (inl refl)))

with_privilege-none :
    (x : AcePrivilege) (db : Db)
    → with_privilege x db ≡ none
    → (y : AcePrivilege) × In y db.dav_aces_privileges
      × (y.ace_id ≡ x.ace_id)
      × (y.privilege_id ≡ x.privilege_id)
unfolding with_privilege
with_privilege-none x db e = go _ refl e
  where
    same : AcePrivilege → Bool
    same y = (y.ace_id == x.ace_id) && (y.privilege_id == x.privilege_id)

    go :
        (b : Bool)
        → some_row same db.dav_aces_privileges ≡ b
        → inserted_privilege b x db ≡ none
        → (y : AcePrivilege) × In y db.dav_aces_privileges
          × (y.ace_id ≡ x.ace_id)
          × (y.privilege_id ≡ x.privilege_id)
    go true t e =
        let (y, i, u) = some_row-In same db.dav_aces_privileges t in
        (y, i, ground (arith, u), ground (arith, u))
    go false t e = absurd (cc e)

first_known :
    (ns_id : Bytes → ℕ) (name : Bytes) (ks : List AclPrivilege) (k : AclPrivilege)
    → first_row (λ (p : AclPrivilege). str_eq p.name name && (p.priv_namespace_id == ns_id name)) ks
      ≡ some k
    → In k ks × (k.name ≡ name) × (k.priv_namespace_id ≡ ns_id name)
unfolding first_row
first_known ns_id name [] k e = absurd (cc e)
first_known ns_id name (p ∷ ks) k e =
    elim (Bool-cases (str_eq p.name name && (p.priv_namespace_id == ns_id name))) [
      | inl t ↦
          let e' : some p ≡ some k = rw t at e in
          let q : p ≡ k = cc e' in
          let n : str_eq p.name name ≡ true = ground (arith, t) in
          let m : p.priv_namespace_id ≡ ns_id name = ground (arith, t) in
          subst (λ k. In k (p ∷ ks) × (k.name ≡ name) × (k.priv_namespace_id ≡ ns_id name)) q
            (inl refl, (str_eq_iff p.name name).0 n, m)
      | inr f ↦ let (i, n, m) = first_known ns_id name ks k (rw f at e) in (inr i, n, m)
    ]

add_known-Gives :
    (ns_id : Bytes → ℕ) (name : Bytes) (id : ℕ) (k : AclPrivilege) (s : Store)
    → In k s.db.acl_privileges
    → k.name ≡ name
    → k.priv_namespace_id ≡ ns_id name
    → Gives ns_id id (name ∷ []) s (add_known id k.id s)
add_known-Gives ns_id name id k s i n m = elim (Bool-cases (k.id == 0)) [
  | inl t ↦ rw t tt
  | inr f ↦
      let x : AcePrivilege = record { ace_id = id; privilege_id = k.id } in
      let call = update internal_server_error (with_privilege x) in
      let (s', later, ended) = update_ends internal_server_error (with_privilege x) s in
      rw f (elim ended [
        | inl (refused, d, run) ↦ rw (ignore_error-eq-err tt call s run) (later, inl refused)
        | inr (inl (o, d, run)) ↦
            let (y, j, a, b) = with_privilege-none x s.db o in
            rw (ignore_error-eq-err tt call s run) (
              later,
              inr (λ p w. elim w [
                | inl q ↦ rw q (k, i, n, m, y, rw d j, a, b)
                | inr past ↦ elim past [ ]
              ]),
            )
        | inr (inr (o, run)) ↦
            let j = with_privilege-In x s.db s'.db o in
            rw (ignore_error-eq-ok tt call s run) (
              later,
              inr (λ p w. elim w [
                | inl q ↦ rw q (k, i, n, m, x, j, refl, refl)
                | inr past ↦ elim past [ ]
              ]),
            )
      ])
]

Gives-back :
    (ns_id : Bytes → ℕ) (id : ℕ) (ps : List Bytes) (s s' : Store) (r : Result (Unit {0}) × Store)
    → s'.db ≡ s.db
    → Later s s'
    → Gives ns_id id ps s' r
    → Gives ns_id id ps s r
Gives-back ns_id id ps s s' (ok u, t) same later (later', given) = (
  (λ b m. later b (later' b m)),
  elim given [
    | inl refused ↦ inl (later true refused)
    | inr all ↦ inr (λ p m. subst (λ d. Granted ns_id d t.db id p) same (all p m))
  ],
)
Gives-back ns_id id ps s s' (err e, t) same later g = tt

-- More rows take no privilege away.
pub Granted-more :
    (ns_id : Bytes → ℕ) (db d d' : Db) (id : ℕ) (p : Bytes) (more : List AcePrivilege)
    → d'.dav_aces_privileges ≡ d.dav_aces_privileges ++ more
    → Granted ns_id db d id p
    → Granted ns_id db d' id p
Granted-more ns_id db d d' id p more e (k, i, n, m, x, j, a, b) =
    (k, i, n, m, x, rw e (append-In x d.dav_aces_privileges more (inl j)), a, b)

pub Granted-known :
    (ns_id : Bytes → ℕ) (db d d' : Db) (id : ℕ) (p : Bytes)
    → d.acl_privileges ≡ db.acl_privileges
    → Granted ns_id d d' id p
    → Granted ns_id db d' id p
Granted-known ns_id db d d' id p e (k, i, n, m, x, j, a, b) = (k, rw e at i, n, m, x, j, a, b)

behind-Gives :
    (ns_id : Bytes → ℕ) (id : ℕ) (p : Bytes) (ps : List Bytes) (s : Store)
    (r : Result (Unit {0}) × Store)
    → Gives ns_id id (p ∷ []) s r
    → Holds id s.db r.1.db
    → ((t : Store) → Gives ns_id id ps t (add_privileges ns_id id ps t))
    → Gives ns_id id (p ∷ ps) s (behind (λ _. add_privileges ns_id id ps) r)
behind-Gives ns_id id p ps s (err e, t) g h rest = tt
behind-Gives ns_id id p ps s (ok u, t) (later, given) (first, e, _) rest =
    joined (add_privileges ns_id id ps t) (rest t) (add_privileges-Holds ns_id id ps t)
  where
    joined :
        (r : Result (Unit {0}) × Store)
        → Gives ns_id id ps t r
        → Holds id t.db r.1.db
        → Gives ns_id id (p ∷ ps) s r
    joined (err f, v) g h = tt
    joined (ok u, v) (later', given') (more, f, _) = (
      (λ b m. later b (later' b m)),
      elim given [
        | inl refused ↦ inl refused
        | inr own ↦ elim given' [
          | inl refused ↦ inl (later true refused)
          | inr all ↦ inr (λ q m. elim m [
            | inl w ↦ rw w (
                Granted-more ns_id s.db t.db v.db id p more (ap (λ d. d.dav_aces_privileges) f)
                  (own p (inl refl)))
            | inr i ↦
                Granted-known ns_id s.db t.db v.db id q (ap (λ d. d.acl_privileges) e) (all q i)
          ])
        ]
      ],
    )

add_ace_privilege-Gives :
    (ns_id : Bytes → ℕ) (name : Bytes) (id : ℕ) (s : Store)
    → Gives ns_id id (name ∷ []) s (dbms_add_ace_privilege ns_id name id s)
unfolding dbms_add_ace_privilege dbms_get_privilege_id
add_ace_privilege-Gives ns_id name id s =
    let here = λ (p : AclPrivilege). str_eq p.name name && (p.priv_namespace_id == ns_id name) in
    let found = λ (db : Db). acl_privilege_id (first_row here db.acl_privileges) in
    let call = select internal_server_error found in
    let (s', same, later, ended) = select_ends internal_server_error found s in
    elim ended [
      | inl (refused, run) ↦ rw (ignore_error-eq-err 0 call s run) tt
      | inr run ↦
          rw (ignore_error-eq-ok 0 call s run)
            (elim (Option-cases (first_row here s.db.acl_privileges)) [
              | inl e ↦ rw e tt
              | inr (k, e) ↦
                  let (i, n, m) = first_known ns_id name s.db.acl_privileges k e in
                  rw e (
                    Gives-back ns_id id (name ∷ []) s s' (add_known id k.id s') same later
                      (add_known-Gives ns_id name id k s' (rw same i) n m))
            ])
    ]

pub add_privileges-Gives :
    (ns_id : Bytes → ℕ) (id : ℕ) (ps : List Bytes) (s : Store)
    → Gives ns_id id ps s (add_privileges ns_id id ps s)
unfolding add_privileges
add_privileges-Gives ns_id id [] s = ((λ b m. m), inr (λ p m. elim m [ ]))
add_privileges-Gives ns_id id (p ∷ ps) s =
    behind-Gives ns_id id p ps s (dbms_add_ace_privilege ns_id p id s)
      (add_ace_privilege-Gives ns_id p id s) (add_ace_privilege-Holds ns_id p id s)
      (λ t. add_privileges-Gives ns_id id ps t)
