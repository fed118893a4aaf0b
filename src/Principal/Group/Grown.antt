-- ===== src/Principal/Group/Grown.antt =====
-- The INSERT of new pairs against the closure: limestone/dbms_principal.c, lines 567-587.
use mathlib.Core.Option.{some-injective}
use limestone.Prelude.{
  ℕ, is_positive, ◌≡◌, refl, sym, ◌∙◌, ◌⊎◌, inl, inr, ◌↔◌, true, false, not, ◌||◌, none, some, List,
  [], ◌∷◌, ◌++◌, keep, In, In-keep, keep-In, In-append, Bool-cases, arith,
}
use limestone.Store.{GroupMember, TransitiveMember, Db}
use limestone.Store.Rows.{some_row-In, In-some_row}
use limestone.Principal.Group.{
  is_key, Counted, union_self, ups, downs, joined_row, cross_join, has_key, new_rows,
  are_insertable, with_new_rows,
}
use limestone.Principal.Group.Joined.{
  In-ups, In-downs, ups-In, downs-In, In-union_self, union_self-In, union_self_self, In-cross_join,
  cross_join-In,
}
use limestone.Principal.Group.Closure.{
  edge, SelfOrMember, Enlarged, Member-Enlarged, Enlarged-Member,
}
use limestone.Principal.Group.Keys.{IsClosure, times-positive, has_key-append}

-- Where a new row stands: its group is the one at hand or above it, its member the one or below it.
abbrev IsUp : ℕ → List TransitiveMember → ℕ → Type 0
IsUp g ts x = (x ≡ g) ⊎ (has_key x g ts ≡ true)

abbrev IsDown : ℕ → List TransitiveMember → ℕ → Type 0
IsDown p ts y = (p ≡ y) ⊎ (has_key p y ts ≡ true)

union_self-IsUp :
    (g : ℕ) (ts : List TransitiveMember) (c : Counted)
    → ((r : TransitiveMember) → In r ts → is_positive r.transitive_count ≡ true)
    → In c (union_self g (ups g ts))
    → IsUp g ts c.id × (is_positive c.paths ≡ true)
union_self-IsUp g ts c all i = elim (In-union_self g (ups g ts) c i) [
  | inl (same, h) ↦ (inl same, h)
  | inr j ↦
      let (r, k, t, e) = In-ups g ts c j in
      (inr (In-some_row (is_key c.id g) r ts k t), rw e (all r k))
]

union_self-IsDown :
    (p : ℕ) (ts : List TransitiveMember) (c : Counted)
    → ((r : TransitiveMember) → In r ts → is_positive r.transitive_count ≡ true)
    → In c (union_self p (downs p ts))
    → IsDown p ts c.id × (is_positive c.paths ≡ true)
union_self-IsDown p ts c all i = elim (In-union_self p (downs p ts) c i) [
  | inl (same, h) ↦ (inl (sym same), h)
  | inr j ↦
      let (r, k, t, e) = In-downs p ts c j in
      (inr (In-some_row (is_key p c.id) r ts k t), rw e (all r k))
]

IsUp-up :
    (g : ℕ) (ts : List TransitiveMember) (x : ℕ)
    → IsUp g ts x
    → (c : Counted) × In c (union_self g (ups g ts)) × (c.id ≡ x)
IsUp-up g ts x (inl q) = let (c, i, e) = union_self_self g (ups g ts) in (c, i, e ∙ sym q)
IsUp-up g ts x (inr h) = let (c, i, e) = ups-In x g ts h in (c, union_self-In g (ups g ts) c i, e)

IsDown-down :
    (p : ℕ) (ts : List TransitiveMember) (y : ℕ)
    → IsDown p ts y
    → (c : Counted) × In c (union_self p (downs p ts)) × (c.id ≡ y)
IsDown-down p ts y (inl q) = let (c, i, e) = union_self_self p (downs p ts) in (c, i, e ∙ q)
IsDown-down p ts y (inr h) =
    let (c, i, e) = downs-In y p ts h in (c, union_self-In p (downs p ts) c i, e)

-- A new row's ends and its count.
In-new_rows :
    (g p : ℕ) (ts : List TransitiveMember) (r : TransitiveMember)
    → ((r : TransitiveMember) → In r ts → is_positive r.transitive_count ≡ true)
    → In r (new_rows g p ts)
    → IsUp g ts r.transitive_group_id
      × IsDown p ts r.transitive_member_id
      × (is_positive r.transitive_count ≡ true)
unfolding new_rows
In-new_rows g p ts r all i =
    let us = union_self g (ups g ts) in
    let ds = union_self p (downs p ts) in
    let fresh =
      λ (r : TransitiveMember). not (has_key r.transitive_group_id r.transitive_member_id ts) in
    let (u, d, (j, k, e)) = In-cross_join r us ds (In-keep fresh r (cross_join us ds) i).0 in
    let (up, n) = union_self-IsUp g ts u all j in
    let (down, m) = union_self-IsDown p ts d all k in
    rw e (up, down, times-positive u.paths d.paths n m)

new_rows-In :
    (g p x y : ℕ) (ts : List TransitiveMember)
    → IsUp g ts x
    → IsDown p ts y
    → has_key x y ts ≡ false
    → has_key x y (new_rows g p ts) ≡ true
unfolding new_rows
new_rows-In g p x y ts up down fresh =
    let us = union_self g (ups g ts) in
    let ds = union_self p (downs p ts) in
    let (u, i, e) = IsUp-up g ts x up in
    let (d, j, k) = IsDown-down p ts y down in
    let free =
      λ (r : TransitiveMember). not (has_key r.transitive_group_id r.transitive_member_id ts) in
    let kept =
      keep-In free (joined_row u d) (cross_join us ds) (cross_join-In u d us ds i j)
        (rw e (rw k (rw fresh refl))) in
    In-some_row (is_key x y) (joined_row u d) (keep free (cross_join us ds)) kept
      (ground (arith, e, k))

IsUp-iff :
    {es : List GroupMember} {ts : List TransitiveMember} (g x : ℕ)
    → IsClosure es ts
    → IsUp g ts x ↔ SelfOrMember es x g
IsUp-iff g x c = (
  λ u. elim u [ inl q ↦ inl q | inr h ↦ inr ((c.keys x g).0 h) ],
  λ s. elim s [ inl q ↦ inl q | inr m ↦ inr ((c.keys x g).1 m) ],
)

IsDown-iff :
    {es : List GroupMember} {ts : List TransitiveMember} (p y : ℕ)
    → IsClosure es ts
    → IsDown p ts y ↔ SelfOrMember es p y
IsDown-iff p y c = (
  λ u. elim u [ inl q ↦ inl q | inr h ↦ inr ((c.keys p y).0 h) ],
  λ s. elim s [ inl q ↦ inl q | inr m ↦ inr ((c.keys p y).1 m) ],
)

key_grown :
    {es : List GroupMember} {ts : List TransitiveMember} (g p x y : ℕ)
    → IsClosure es ts
    → (has_key x y (ts ++ new_rows g p ts) ≡ true) ↔ Enlarged es g p x y
key_grown {es} {ts} g p x y c = (
  λ h. elim (Bool-cases (has_key x y ts)) [
    | inl old ↦ inl ((c.keys x y).0 old)
    | inr fresh ↦
        let split : (has_key x y ts || has_key x y (new_rows g p ts)) ≡ true =
          rw (has_key-append x y ts (new_rows g p ts)) at h in
        let new : has_key x y (new_rows g p ts) ≡ true = rw fresh at split in
        let (r, i, t) = some_row-In (is_key x y) (new_rows g p ts) new in
        let (up, down, n) = In-new_rows g p ts r c.counts i in
        let ex : r.transitive_group_id ≡ x = ground (arith, t) in
        let ey : r.transitive_member_id ≡ y = ground (arith, t) in
        inr ((IsUp-iff g x c).0 (rw (← ex) up), (IsDown-iff p y c).0 (rw (← ey) down))
  ],
  λ m. rw (has_key-append x y ts (new_rows g p ts)) (elim (Bool-cases (has_key x y ts)) [
    | inl old ↦ rw old refl
    | inr fresh ↦ elim m [
      | inl old ↦ let e = (c.keys x y).1 old in absurd (cc (e, fresh))
      | inr (up, down) ↦
          rw fresh
            (new_rows-In g p x y ts ((IsUp-iff g x c).1 up) ((IsDown-iff p y c).1 down) fresh)
    ]
  ]),
)

append-IsClosure :
    (es : List GroupMember) (g p : ℕ) (ts : List TransitiveMember)
    → IsClosure es ts
    → IsClosure (es ++ (edge g p ∷ [])) (ts ++ new_rows g p ts)
append-IsClosure es g p ts c = record {
  keys = λ x y.
      let (there, back) = key_grown g p x y c in
      (λ h. Enlarged-Member g p (there h), λ m. back (Member-Enlarged g p m));
  counts = λ r i. elim (In-append r ts (new_rows g p ts) i) [
    | inl old ↦ c.counts r old
    | inr new ↦ (In-new_rows g p ts r c.counts new).2
  ];
}

-- The INSERT makes the closure of the rows the closure with one row more.
pub with_new_rows-IsClosure :
    (es : List GroupMember) (g p : ℕ) (db d : Db)
    → with_new_rows g p db ≡ some d
    → IsClosure es db.transitive_group_members
    → IsClosure (es ++ (edge g p ∷ [])) d.transitive_group_members
      × (d.group_members ≡ db.group_members)
unfolding with_new_rows
with_new_rows-IsClosure es g p db d e c =
    let ts = db.transitive_group_members in
    let later = record db { transitive_group_members = ts ++ new_rows g p ts } in
    elim (Bool-cases (are_insertable (new_rows g p ts))) [
      | inl fits ↦
          let e' : some later ≡ some d = rw fits at e in
          rw (← some-injective later d e') (append-IsClosure es g p ts c, refl)
      | inr breaks ↦ let e' : none ≡ some d = rw breaks at e in absurd (cc e')
    ]
