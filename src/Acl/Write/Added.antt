-- ===== src/Acl/Write/Added.antt =====
-- The entries that are added to a resource: limestone/dbms_acl.c, lines 239-300.
use mathlib.Core.Path.{subst}
use mathlib.Core.List.{append_assoc}
use limestone.Prelude.{
  ℕ, ◌≡◌, refl, sym, ap, ◌∙◌, inl, inr, true, List, [], ◌∷◌, ◌++◌, Bytes, In, ◌⊎◌,
}
use limestone.Store.{AceRow, Db, Store, M, Result, Status, ok, err, internal_server_error, behind}
use limestone.Acl.Write.{Entry, with_ace, add_privileges, ace_row, dbms_add_ace, add_aces}
use limestone.Store.Ends.{Later, update_ends}
use limestone.Acl.Write.Granted.{Granted, Gives, Granted-more, Granted-known, add_privileges-Gives}
use limestone.Acl.Write.Kept.{db_of, Holds, add_privileges-Holds}
use limestone.Acl.Write.Grown.{Grown, Grown-none, Grown-append, with_ace-Grown, entry-Grown}

-- Each entry has its privileges.
abbrev pub Grants : (Bytes → ℕ) → Db → Db → List Entry → List AceRow → Type 0
Grants ns_id db db' [] [] = Unit {0}
Grants ns_id db db' [] (a ∷ as') = ⊥
Grants ns_id db db' (e ∷ es) [] = ⊥
Grants ns_id db db' (e ∷ es) (a ∷ as') =
    ((p : Bytes) → In p e.ace.privileges → Granted ns_id db db' a.id p) × Grants ns_id db db' es as'

-- All entries are written, and if the DBMS refused none of the statements that came, with their
-- privileges. Behind an error the first of them are written.
abbrev pub Adds : (Bytes → ℕ) → ℕ → List Entry → Store → Result (Unit {0}) × Store → Type 0
Adds ns_id r es s (ok u, s') =
    (rows : List AceRow) × Grown r es rows s.db s'.db
    × Later s s'
    × (In true s.faults ⊎ Grants ns_id s.db s'.db es rows)
Adds ns_id r es s (err e, s') =
    (front : List Entry) × (back : List Entry) × (es ≡ front ++ back)
    × (rows : List AceRow) × Grown r front rows s.db s'.db

pub none_added :
    (ns_id : Bytes → ℕ) (r : ℕ) (es : List Entry) (s s' : Store) (e : Status)
    → s'.db ≡ s.db
    → Adds ns_id r es s (err e, s')
none_added ns_id r es s s' e q =
    ([], es, refl, [], subst (Grown r [] [] s.db) (sym q) (Grown-none r s.db))

entry-Adds :
    (ns_id : Bytes → ℕ) (r id : ℕ) (e : Entry) (s t : Store) (x : Result (Unit {0}) × Store)
    → t.db ≡ record s.db { aces = s.db.aces ++ (ace_row id r e ∷ []) }
    → Later s t
    → Holds id t.db (db_of x)
    → Gives ns_id id e.ace.privileges t x
    → Adds ns_id r (e ∷ []) s x
entry-Adds ns_id r id e s t (ok u, v) q later held (later', given) = (
  ace_row id r e ∷ [],
  entry-Grown r id e s.db t.db v.db q held,
  (λ b m. later b (later' b m)),
  elim given [
    | inl refused ↦ inl (later true refused)
    | inr all ↦ inr (
      λ p m.
          Granted-known ns_id s.db t.db v.db id p (ap (λ (d : Db). d.acl_privileges) q) (all p m),
      tt,
    )
  ],
)
entry-Adds ns_id r id e s t (err f, v) q later held given =
    (e ∷ [], [], refl, ace_row id r e ∷ [], entry-Grown r id e s.db t.db v.db q held)

add_ace-Adds :
    (next_id : Db → ℕ) (ns_id : Bytes → ℕ) (r : ℕ) (e : Entry) (s : Store)
    → Adds ns_id r (e ∷ []) s (dbms_add_ace next_id ns_id r e s)
unfolding dbms_add_ace
add_ace-Adds next_id ns_id r e s =
    let id = next_id s.db in
    let rest : Unit {0} → M (Unit {0}) = λ _. add_privileges ns_id id e.ace.privileges in
    let P : Result (Unit {0}) × Store → Type 0 = λ x. Adds ns_id r (e ∷ []) s (behind rest x) in
    let (t, later, ended) = update_ends internal_server_error (with_ace (ace_row id r e)) s in
    elim ended [
      | inl (refused, q, run) ↦
          subst P (sym run) (none_added ns_id r (e ∷ []) s t internal_server_error q)
      | inr (inl (o, q, run)) ↦
          subst P (sym run) (none_added ns_id r (e ∷ []) s t internal_server_error q)
      | inr (inr (o, run)) ↦ subst P (sym run) (
          entry-Adds ns_id r id e s t _ (with_ace-Grown r id e s.db t.db o) later
            (add_privileges-Holds ns_id id e.ace.privileges t)
            (add_privileges-Gives ns_id id e.ace.privileges t))
    ]

Grants-append :
    (ns_id : Bytes → ℕ) (r : ℕ) (es fs : List Entry) (rows rows' : List AceRow) (db d d' : Db)
    (g : Grown r es rows db d) (h : Grown r fs rows' d d')
    → Grants ns_id db d es rows
    → Grants ns_id d d' fs rows'
    → Grants ns_id db d' (es ++ fs) (rows ++ rows')
Grants-append ns_id r es fs rows rows' db d d' g h given given' = go es rows given
  where
    more : d'.dav_aces_privileges ≡ d.dav_aces_privileges ++ h.more
    more = ap (λ (x : Db). x.dav_aces_privileges) h.whole

    known : d.acl_privileges ≡ db.acl_privileges
    known = ap (λ (x : Db). x.acl_privileges) g.whole

    moved :
        (fs : List Entry) (rows : List AceRow)
        → Grants ns_id d d' fs rows
        → Grants ns_id db d' fs rows
    moved [] [] g = tt
    moved [] (a ∷ rows) g = elim g [ ]
    moved (f ∷ fs) [] g = elim g [ ]
    moved (f ∷ fs) (a ∷ rows) (own, g) =
        (λ p m. Granted-known ns_id db d d' a.id p known (own p m), moved fs rows g)

    go :
        (es : List Entry) (rows : List AceRow)
        → Grants ns_id db d es rows
        → Grants ns_id db d' (es ++ fs) (rows ++ rows')
    go [] [] w = moved fs rows' given'
    go [] (a ∷ rows) w = elim w [ ]
    go (e ∷ es) [] w = elim w [ ]
    go (e ∷ es) (a ∷ rows) (own, w) =
        (λ p m. Granted-more ns_id db d d' a.id p h.more more (own p m), go es rows w)

front-Adds :
    (ns_id : Bytes → ℕ) (r : ℕ) (es fs : List Entry) (s t : Store) (x : Result (Unit {0}) × Store)
    → Adds ns_id r es s (ok tt, t)
    → Adds ns_id r fs t x
    → Adds ns_id r (es ++ fs) s x
front-Adds ns_id r es fs s t (ok u, v) (rows, g, later, given) (rows', h, later', given') = (
  rows ++ rows',
  Grown-append r es fs rows rows' s.db t.db v.db g h,
  (λ b m. later b (later' b m)),
  elim given [
    | inl refused ↦ inl refused
    | inr own ↦ elim given' [
      | inl refused ↦ inl (later true refused)
      | inr others ↦ inr (Grants-append ns_id r es fs rows rows' s.db t.db v.db g h own others)
    ]
  ],
)
front-Adds ns_id r es fs s t (err e, v) (rows, g, later, given) (front, back, q, rows', h) = (
  es ++ front,
  back,
  ap (es ++◌) q ∙ sym (append_assoc es front back),
  rows ++ rows',
  Grown-append r es front rows rows' s.db t.db v.db g h,
)

behind-Adds :
    (ns_id : Bytes → ℕ) (r : ℕ) (es fs : List Entry) (s : Store) (f : Unit {0} → M (Unit {0}))
    (x : Result (Unit {0}) × Store)
    → Adds ns_id r es s x
    → ((t : Store) → Adds ns_id r fs t (f tt t))
    → Adds ns_id r (es ++ fs) s (behind f x)
behind-Adds ns_id r es fs s f (ok tt, t) g next = front-Adds ns_id r es fs s t (f tt t) g (next t)
behind-Adds ns_id r es fs s f (err e, t) (front, back, q, rows, g) next =
    (front, back ++ fs, ap (λ l. l ++ fs) q ∙ append_assoc front back fs, rows, g)

pub add_aces-Adds :
    (next_id : Db → ℕ) (ns_id : Bytes → ℕ) (r : ℕ) (es : List Entry) (s : Store)
    → Adds ns_id r es s (add_aces next_id ns_id r es s)
unfolding add_aces
add_aces-Adds next_id ns_id r [] s = ([], Grown-none r s.db, (λ b m. m), inr tt)
add_aces-Adds next_id ns_id r (e ∷ es) s =
    behind-Adds ns_id r (e ∷ []) es s (λ _. add_aces next_id ns_id r es)
      (dbms_add_ace next_id ns_id r e s) (add_ace-Adds next_id ns_id r e s)
      (λ t. add_aces-Adds next_id ns_id r es t)
