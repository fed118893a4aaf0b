-- ===== src/Principal/Group/Loop.antt =====
-- The test for a cycle: limestone/dbms_principal.c, lines 469-500.
use mathlib.Core.Path.{subst}
use limestone.Prelude.{
  ℕ, ℤ, pos, negsuc, is_positive, ◌≡◌, refl, sym, ◌⊎◌, inl, inr, ◌↔◌, true, ◌&&◌, List, [], ◌∷◌,
  ◌++◌, ◌==◌, ==_iff, keep, In, In-keep, keep-In, Bool-cases, arith,
}
use limestone.Store.{
  GroupMember, TransitiveMember, Db, Store, Result, ok, err, internal_server_error, select,
}
use limestone.Store.Laws.{select-holds, ignored_end, Settles}
use limestone.Store.Rows.{some_row-In, In-some_row, In-map, map-In}
use limestone.Principal.Group.{
  is_key, above, below, joins, is_among, row_or_none, dbms_will_loop_prin_add_grp,
}
use limestone.Principal.Group.Closure.{
  edge, SelfOrMember, SelfOrMember-trans, IsAcyclic, append-IsAcyclic, append-cycle,
}
use limestone.Principal.Group.Keys.{IsClosure}

-- The rows of the table, and that each group has no cycle.
pub record IsSound (db : Db) : Type 0 where
  pub closure : IsClosure db.group_members db.transitive_group_members
  pub acyclic : IsAcyclic db.group_members

is_among-In : (n : ℕ) (ms : List ℕ) → is_among n ms ≡ true → In n ms
is_among-In n ms h =
    let (m, i, t) = some_row-In (λ m. n == m) ms h in let e : n ≡ m = (==_iff n m).0 t in rw e i

In-is_among : (n : ℕ) (ms : List ℕ) → In n ms → is_among n ms ≡ true
In-is_among n ms i = In-some_row (λ m. n == m) n ms i ((==_iff n n).1 refl)

above-SelfOrMember :
    {es : List GroupMember} {ts : List TransitiveMember} (g x : ℕ)
    → IsClosure es ts
    → In x (g ∷ above g ts)
    → SelfOrMember es x g
above-SelfOrMember g x c (inl q) = inl q
above-SelfOrMember {es} {ts} g x c (inr i) =
    let p =
      λ (r : TransitiveMember). (r.transitive_member_id == g) && is_positive r.transitive_count in
    let (r, j, e) = In-map (λ (r : TransitiveMember). r.transitive_group_id) x (keep p ts) i in
    let (k, t) = In-keep p r ts j in
    inr ((c.keys x g).0 (In-some_row (is_key x g) r ts k (ground (arith, e, t))))

below-SelfOrMember :
    {es : List GroupMember} {ts : List TransitiveMember} (p x : ℕ)
    → IsClosure es ts
    → In x (p ∷ below p ts)
    → SelfOrMember es p x
below-SelfOrMember p x c (inl q) = inl (sym q)
below-SelfOrMember {es} {ts} p x c (inr i) =
    let f =
      λ (r : TransitiveMember). (r.transitive_group_id == p) && is_positive r.transitive_count in
    let (r, j, e) = In-map (λ (r : TransitiveMember). r.transitive_member_id) x (keep f ts) i in
    let (k, t) = In-keep f r ts j in
    inr ((c.keys p x).0 (In-some_row (is_key p x) r ts k (ground (arith, e, t))))

SelfOrMember-above :
    {es : List GroupMember} {ts : List TransitiveMember} (g x : ℕ)
    → IsClosure es ts
    → SelfOrMember es x g
    → In x (g ∷ above g ts)
SelfOrMember-above g x c (inl q) = inl q
SelfOrMember-above {es} {ts} g x c (inr m) =
    let p =
      λ (r : TransitiveMember). (r.transitive_member_id == g) && is_positive r.transitive_count in
    let (r, i, t) = some_row-In (is_key x g) ts ((c.keys x g).1 m) in
    let kept = keep-In p r ts i (ground (arith, t, c.counts r i)) in
    let same : r.transitive_group_id ≡ x = ground (arith, t) in
    inr (
      subst (λ n. In n (above g ts)) same
        (map-In (λ (r : TransitiveMember). r.transitive_group_id) r (keep p ts) kept))

pub joins_iff :
    {es : List GroupMember} {ts : List TransitiveMember} (g p : ℕ)
    → IsClosure es ts
    → (joins (g ∷ above g ts) (p ∷ below p ts) ≡ true) ↔ SelfOrMember es p g
joins_iff {es} {ts} g p c = (
  λ h.
      let (x, i, t) = some_row-In (λ n. is_among n (p ∷ below p ts)) (g ∷ above g ts) h in
      SelfOrMember-trans (below-SelfOrMember p x c (is_among-In x (p ∷ below p ts) t))
        (above-SelfOrMember g x c i),
  λ s.
      In-some_row (λ n. is_among n (p ∷ below p ts)) p (g ∷ above g ts) (SelfOrMember-above g p c s)
        (In-is_among p (p ∷ below p ts) (inl refl)),
)

-- What the answer says of the groups with one row more.
abbrev pub Foretold : ℕ → ℕ → List GroupMember → ℤ → Type 0
Foretold g p es n =
    (n ≡ negsuc 0)
    ⊎ ((n ≡ pos 1) × ¬ IsAcyclic (es ++ (edge g p ∷ [])))
    ⊎ ((n ≡ pos 0) × IsAcyclic (es ++ (edge g p ∷ [])))

abbrev pub Foretells : ℕ → ℕ → Db → Result ℤ × Store → Type 0
Foretells g p db (ok n, s') = (s'.db ≡ db) × Foretold g p db.group_members n
Foretells g p db (err e, s') = ⊥

pub Foretells-answer :
    (g p : ℕ) (db : Db)
    → IsSound db
    → Foretold g p db.group_members (
        row_or_none (
          joins
            (g ∷ above g db.transitive_group_members)
            (p ∷ below p db.transitive_group_members)))
Foretells-answer g p db sound =
    let ts = db.transitive_group_members in
    let c = sound.closure in
    elim (Bool-cases (joins (g ∷ above g ts) (p ∷ below p ts))) [
      | inl e ↦
          let loop = append-cycle db.group_members g p ((joins_iff g p c).0 e) in
          rw e (inr (inl (refl, λ free. free g loop)))
      | inr e ↦
          let apart : ¬ SelfOrMember db.group_members p g =
            λ back. let t = (joins_iff g p c).1 back in absurd (cc (e, t)) in
          rw e (inr (inr (refl, append-IsAcyclic db.group_members g p sound.acyclic apart)))
    ]

pub will_loop-Settles :
    (g p : ℕ) (s : Store)
    → IsSound s.db
    → Settles
        (λ n s'. (s'.db ≡ s.db) × Foretold g p s.db.group_members n)
        (negsuc 0)
        (select internal_server_error
          (λ db. row_or_none (
            joins
              (g ∷ above g db.transitive_group_members)
              (p ∷ below p db.transitive_group_members)))
          s)
will_loop-Settles g p s sound =
    select-holds (Settles (λ n s'. (s'.db ≡ s.db) × Foretold g p s.db.group_members n) (negsuc 0))
      internal_server_error _ s (λ s' same. (same, Foretells-answer g p s.db sound))
      (λ s' same. (same, inl refl))

-- Where the transitive table is the closure of groups without a cycle, and whatever statements the
-- DBMS refuses: the answer is -1 for a refused query, 1 if the new row would close a cycle, and 0
-- if it would not; nothing changes.
pub will_loop_prin_add_grp-Foretells :
    (g p : ℕ) (s : Store) → IsSound s.db → Foretells g p s.db (dbms_will_loop_prin_add_grp g p s)
unfolding dbms_will_loop_prin_add_grp
will_loop_prin_add_grp-Foretells g p s sound =
    ignored_end (λ n s'. (s'.db ≡ s.db) × Foretold g p s.db.group_members n) (Foretells g p s.db)
      (negsuc 0) _ s (will_loop-Settles g p s sound) (λ n s' q. q)
