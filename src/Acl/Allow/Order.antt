-- ===== src/Acl/Allow/Order.antt =====
-- The first entry of the order in which they count: limestone/dbms_acl.c, lines 528-533.
use limestone.Prelude.{
  ℕ, ◌≡◌, refl, inl, inr, Bool, true, false, Option, none, some, List, [], ◌∷◌, In, Bool-cases,
  arith,
}
use limestone.Acl.Allow.{Placed, precedes, comes_before, earlier, first_placed}

-- An entry of the list that no entry comes before.
abbrev pub IsFirst : List Placed → Placed → Type 0
IsFirst l a = In a l × ((b : Placed) → In b l → comes_before b a ≡ false)

precedes_self : (p : Bool) (m i : ℕ) → precedes p p m m i i ≡ false
precedes_self true m i = ground arith
precedes_self false m i = ground arith

precedes_asym :
    (p q : Bool) (m n i j : ℕ) → precedes q p n m j i ≡ true → precedes p q m n i j ≡ false
precedes_asym true true m n i j h = ground (arith, h)
precedes_asym true false m n i j h = absurd (cc h)
precedes_asym false true m n i j h = refl
precedes_asym false false m n i j h = ground (arith, h)

-- What neither precedes the second nor is preceded by the first ... does not precede the first.
precedes_trans :
    (p q r : Bool) (m n o i j k : ℕ)
    → precedes r q o n k j ≡ false
    → precedes q p n m j i ≡ false
    → precedes r p o m k i ≡ false
precedes_trans true true true m n o i j k h g = ground (arith, h, g)
precedes_trans true true false m n o i j k h g = refl
precedes_trans true false true m n o i j k h g = absurd (cc h)
precedes_trans true false false m n o i j k h g = refl
precedes_trans false true true m n o i j k h g = absurd (cc g)
precedes_trans false true false m n o i j k h g = absurd (cc g)
precedes_trans false false true m n o i j k h g = absurd (cc h)
precedes_trans false false false m n o i j k h g = ground (arith, h, g)

before_trans :
    (a b c : Placed)
    → comes_before c b ≡ false
    → comes_before b a ≡ false
    → comes_before c a ≡ false
before_trans a b c =
    precedes_trans a.ace.protected b.ace.protected c.ace.protected a.path_length b.path_length
      c.path_length a.ace.id b.ace.id c.ace.id

before_asym : (a b : Placed) → comes_before b a ≡ true → comes_before a b ≡ false
before_asym a b =
    precedes_asym a.ace.protected b.ace.protected a.path_length b.path_length a.ace.id b.ace.id

self_before : (a : Placed) → comes_before a a ≡ false
self_before a = precedes_self a.ace.protected a.path_length a.ace.id

-- The first entry of a list, which has one unless it is empty.
abbrev pub Finds : List Placed → Option Placed → Type 0
Finds l none = l ≡ []
Finds l (some a) = IsFirst l a

earlier-Finds :
    (a : Placed) (l : List Placed) (o : Option Placed) → Finds l o → Finds (a ∷ l) (earlier a o)
earlier-Finds a l none empty =
    rw empty (inl refl, λ b i. elim i [ inl q ↦ rw q (self_before a) | inr past ↦ elim past [ ] ])
earlier-Finds a l (some b) (inside, first) = elim (Bool-cases (comes_before b a)) [
  | inl e ↦
      let kept : IsFirst (a ∷ l) b =
        (inr inside, λ c i. elim i [ inl q ↦ rw q (before_asym a b e) | inr j ↦ first c j ]) in
      rw e kept
  | inr e ↦
      let new : IsFirst (a ∷ l) a = (
        inl refl,
        λ c i. elim i [ inl q ↦ rw q (self_before a) | inr j ↦ before_trans a b c (first c j) e ],
      ) in
      rw e new
]

pub first_placed-Finds : (l : List Placed) → Finds l (first_placed l)
unfolding first_placed
first_placed-Finds [] = refl
first_placed-Finds (a ∷ l) = earlier-Finds a l (first_placed l) (first_placed-Finds l)
