-- ===== src/Principal/Group/Keys.antt =====
-- The statements on transitive_group_members against the closure: limestone/dbms_principal.c,
-- lines 525-549.
use Prim.Native.Nat.mul
use mathlib.Core.Option.{some-injective}
use limestone.Prelude.{
  ℕ, zero, suc, ◌+◌, ◌*◌, ℤ, pos, negsuc, ◌+ℤ◌, ◌*ℤ◌, is_positive, ◌≡◌, refl, ap, inl, inr, ◌↔◌,
  Bool, true, false, ◌||◌, Option, none, some, List, [], ◌∷◌, ◌++◌, map, ◌==◌, keep, In, In-keep,
  Bool-cases, arith,
}
use limestone.Store.{GroupMember, TransitiveMember, Db, some_row}
use limestone.Store.Rows.{In-map}
use limestone.Principal.Group.{
  is_key, scalar, product, recounted, factor, is_affected, recount, update_counts, has_key,
}
use limestone.Principal.Group.Closure.{Member}

-- The keys of the rows are the pairs of the closure, and each has a path.
pub record IsClosure (es : List GroupMember) (ts : List TransitiveMember) : Type 0 where
  pub keys : (g m : ℕ) → (has_key g m ts ≡ true) ↔ Member es g m
  pub counts : (r : TransitiveMember) → In r ts → is_positive r.transitive_count ≡ true

plus-positive :
    (a b : ℤ) → is_positive a ≡ true → is_positive b ≡ true → is_positive (a +ℤ b) ≡ true
plus-positive (pos a) (pos b) p q = ground (arith, p, q)
plus-positive (pos a) (negsuc b) p q = absurd (cc q)
plus-positive (negsuc a) b p q = absurd (cc p)

pub times-positive :
    (a b : ℤ) → is_positive a ≡ true → is_positive b ≡ true → is_positive (a *ℤ b) ≡ true
times-positive (pos (suc a)) (pos (suc b)) p q =
    let e : suc a * suc b ≡ suc b + a * suc b = mul.suc a (suc b) in ground (arith, e)
times-positive (pos zero) b p q = absurd (cc p)
times-positive (pos (suc a)) (pos zero) p q = absurd (cc q)
times-positive (pos a) (negsuc b) p q = absurd (cc q)
times-positive (negsuc a) b p q = absurd (cc p)

abbrev ArePositive : List ℤ → Type 0
ArePositive ns = (n : ℤ) → In n ns → is_positive n ≡ true

scalar-positive : (ns : List ℤ) (n : ℤ) → ArePositive ns → scalar ns ≡ some n → is_positive n ≡ true
scalar-positive [] n all e = rw (← some-injective (pos 1) n e) refl
scalar-positive (m ∷ []) n all e = rw (← some-injective m n e) (all m (inl refl))
scalar-positive (m ∷ k ∷ ns) n all e = absurd (cc e)

-- The counts of some of the rows.
counts_of-positive :
    (p : TransitiveMember → Bool) (ts : List TransitiveMember)
    → ((r : TransitiveMember) → In r ts → is_positive r.transitive_count ≡ true)
    → ArePositive (map (λ t. t.transitive_count) (keep p ts))
counts_of-positive p ts all n m =
    let (r, i, e) = In-map (λ (t : TransitiveMember). t.transitive_count) n (keep p ts) m in
    rw e (all r (In-keep p r ts i).0)

-- A change of the counts keeps the keys.
has_key-recount :
    (f : ℤ → ℤ) (p : TransitiveMember → Bool) (g m : ℕ) (ts : List TransitiveMember)
    → has_key g m (map (recount f p) ts) ≡ has_key g m ts
unfolding some_row
has_key-recount f p g m [] = refl
has_key-recount f p g m (r ∷ ts) = elim (Bool-cases (p r)) [
  | inl e ↦ rw e (ap (is_key g m r ||◌) (has_key-recount f p g m ts))
  | inr e ↦ rw e (ap (is_key g m r ||◌) (has_key-recount f p g m ts))
]

pub has_key-append :
    (g m : ℕ) (ts us : List TransitiveMember)
    → has_key g m (ts ++ us) ≡ (has_key g m ts || has_key g m us)
unfolding some_row
has_key-append g m [] us = refl
has_key-append g m (r ∷ ts) us = elim (Bool-cases (is_key g m r)) [
  | inl e ↦ rw e refl
  | inr e ↦ rw e (has_key-append g m ts us)
]

recount-positive :
    (n : ℤ) (p : TransitiveMember → Bool) (r : TransitiveMember)
    → is_positive n ≡ true
    → is_positive r.transitive_count ≡ true
    → is_positive (recount (λ c. c +ℤ n) p r).transitive_count ≡ true
recount-positive n p r h t = elim (Bool-cases (p r)) [
  | inl e ↦ rw e (plus-positive r.transitive_count n t h)
  | inr e ↦ rw e t
]

recount-IsClosure :
    (es : List GroupMember) (n : ℤ) (p : TransitiveMember → Bool) (ts : List TransitiveMember)
    → is_positive n ≡ true
    → IsClosure es ts
    → IsClosure es (map (recount (λ c. c +ℤ n) p) ts)
recount-IsClosure es n p ts h c = record {
  keys = λ g m. rw (has_key-recount (λ k. k +ℤ n) p g m ts) (c.keys g m);
  counts = λ r i.
      let (q, j, e) = In-map (recount (λ k. k +ℤ n) p) r ts i in
      rw e (recount-positive n p q h (c.counts q j));
}

factor-positive :
    (g p : ℕ) (ts : List TransitiveMember) (n : ℤ)
    → ((r : TransitiveMember) → In r ts → is_positive r.transitive_count ≡ true)
    → factor g p ts ≡ some n
    → is_positive n ≡ true
factor-positive g p ts n all e =
    let gs =
      map (λ (t : TransitiveMember). t.transitive_count)
        (keep (λ t. t.transitive_member_id == g) ts) in
    let ps =
      map (λ (t : TransitiveMember). t.transitive_count)
        (keep (λ t. t.transitive_group_id == p) ts) in
    let gs-positive = counts_of-positive (λ t. t.transitive_member_id == g) ts all in
    let ps-positive = counts_of-positive (λ t. t.transitive_group_id == p) ts all in
    go (scalar gs) (scalar ps) (λ a. scalar-positive gs a gs-positive)
      (λ a. scalar-positive ps a ps-positive) e
  where
    go :
        (a b : Option ℤ)
        → ((k : ℤ) → a ≡ some k → is_positive k ≡ true)
        → ((k : ℤ) → b ≡ some k → is_positive k ≡ true)
        → product a b ≡ some n
        → is_positive n ≡ true
    go (some a) (some b) h k e =
        rw (← some-injective (a *ℤ b) n e) (times-positive a b (h a refl) (k b refl))
    go none b h k e = absurd (cc e)
    go (some a) none h k e = absurd (cc e)

recounted-IsClosure :
    (es : List GroupMember) (p : TransitiveMember → Bool) (some_affected : Bool) (n : Option ℤ)
    (db d : Db)
    → ((k : ℤ) → n ≡ some k → is_positive k ≡ true)
    → recounted ◌+ℤ◌ p some_affected n db ≡ some d
    → IsClosure es db.transitive_group_members
    → IsClosure es d.transitive_group_members × (d.group_members ≡ db.group_members)
recounted-IsClosure es p false n db d h e c = rw (← some-injective db d e) (c, refl)
recounted-IsClosure es p true none db d h e c = absurd (cc e)
recounted-IsClosure es p true (some k) db d h e c =
    let ts = db.transitive_group_members in
    let later = record db { transitive_group_members = map (recount (λ c. c +ℤ k) p) ts } in
    rw (← some-injective later d e) (recount-IsClosure es k p ts (h k refl) c, refl)

-- The UPDATE keeps a closure.
pub update_counts-IsClosure :
    (es : List GroupMember) (g p : ℕ) (db d : Db)
    → update_counts ◌+ℤ◌ g p db ≡ some d
    → IsClosure es db.transitive_group_members
    → IsClosure es d.transitive_group_members × (d.group_members ≡ db.group_members)
unfolding update_counts
update_counts-IsClosure es g p db d e c =
    let ts = db.transitive_group_members in
    recounted-IsClosure es (is_affected g p ts) (some_row (is_affected g p ts) ts) (factor g p ts)
      db d (λ k. factor-positive g p ts k c.counts) e c
