-- ===== src/Acl/Conflict.antt =====
-- Which lists `sabridge_acl_check_preconditions` (limestone/bridge.c, lines 1031-1069) refuses.
use mathlib.Core.Path.{subst}
use limestone.Prelude.{
  ◌≡◌, ◌≢◌, refl, ◌⊎◌, inl, inr, ◌↔◌, Bool, true, false, ◌||◌, List, [], ◌∷◌, Bytes, str_eq,
  str_eq_iff, In, arith,
}
use limestone.Acl.{
  Ace, has_privilege, sabridge_check_privileges_overlap, one_denies, are_conflicting,
  conflicts_with, sabridge_acl_check_preconditions,
}

or-true : (a b : Bool) → (a || b) ≡ true → (a ≡ true) ⊎ (b ≡ true)
or-true true b e = inl refl
or-true false b e = inr e

or-left : (a b : Bool) → a ≡ true → (a || b) ≡ true
or-left a b e = rw e refl

or-right : (a b : Bool) → b ≡ true → (a || b) ≡ true
or-right true b e = refl
or-right false b e = e

has_privilege_iff : (p : Bytes) (qs : List Bytes) → (has_privilege p qs ≡ true) ↔ In p qs
unfolding has_privilege
has_privilege_iff p [] = ((λ e. cc), λ m. elim m [ ])
has_privilege_iff p (q ∷ qs) = (
  λ e. elim (or-true (str_eq p q) (has_privilege p qs) e) [
    | inl a ↦ inl ((str_eq_iff p q).0 a)
    | inr b ↦ inr ((has_privilege_iff p qs).0 b)
  ],
  λ m. elim m [
    | inl a ↦ or-left _ _ ((str_eq_iff p q).1 a)
    | inr b ↦ or-right _ _ ((has_privilege_iff p qs).1 b)
  ],
)

-- The two lists share a privilege.
abbrev pub Share : List Bytes → List Bytes → Type 0
Share ps qs = (p : Bytes) × In p ps × In p qs

pub privileges_overlap_iff :
    (ps qs : List Bytes) → (sabridge_check_privileges_overlap ps qs ≡ true) ↔ Share ps qs
unfolding sabridge_check_privileges_overlap
privileges_overlap_iff [] qs = ((λ e. cc), λ (p, m, n). elim m [ ])
privileges_overlap_iff (p ∷ ps) qs = (
  λ e. elim (or-true (has_privilege p qs) (sabridge_check_privileges_overlap ps qs) e) [
    | inl a ↦ (p, inl refl, (has_privilege_iff p qs).0 a)
    | inr b ↦ let (r, m, n) = (privileges_overlap_iff ps qs).0 b in (r, inr m, n)
  ],
  λ (r, m, n). elim m [
    | inl a ↦ or-left _ _ ((has_privilege_iff p qs).1 (rw (← a) n))
    | inr b ↦ or-right _ _ ((privileges_overlap_iff ps qs).1 (r, b, n))
  ],
)

-- One entry grants and the other denies a privilege that both name, to principals of one base name.
pub record Conflicting (basename : Bytes → Bytes) (i j : Ace) : Type 0 where
  pub opposed : i.is_deny ≢ j.is_deny
  pub same_name : basename i.principal ≡ basename j.principal
  pub shared : Share i.privileges j.privileges

one_denies_iff : (i j : Bool) → (one_denies i j ≡ true) ↔ (i ≢ j)
one_denies_iff true true = ((λ e. cc), λ apart. absurd (apart refl))
one_denies_iff true false = ((λ e. λ q. cc), λ apart. refl)
one_denies_iff false true = ((λ e. λ q. cc), λ apart. refl)
one_denies_iff false false = ((λ e. cc), λ apart. absurd (apart refl))

are_conflicting_iff :
    (basename : Bytes → Bytes) (i j : Ace)
    → (are_conflicting basename i j ≡ true) ↔ Conflicting basename i j
unfolding are_conflicting
are_conflicting_iff basename i j = (
  λ e. record {
    opposed = (one_denies_iff i.is_deny j.is_deny).0 (ground (arith, e));
    same_name = (str_eq_iff (basename i.principal) (basename j.principal)).0 (ground (arith, e));
    shared = (privileges_overlap_iff i.privileges j.privileges).0 (ground (arith, e));
  },
  λ c.
      let a = (one_denies_iff i.is_deny j.is_deny).1 c.opposed in
      let b = (str_eq_iff (basename i.principal) (basename j.principal)).1 c.same_name in
      let d = (privileges_overlap_iff i.privileges j.privileges).1 c.shared in
      ground (arith, a, b, d),
)

conflicts_with_iff :
    (basename : Bytes → Bytes) (i : Ace) (js : List Ace)
    → (conflicts_with basename i js ≡ true) ↔ ((j : Ace) × In j js × Conflicting basename i j)
unfolding conflicts_with
conflicts_with_iff basename i [] = ((λ e. cc), λ (j, m, c). elim m [ ])
conflicts_with_iff basename i (j ∷ js) = (
  λ e. elim (or-true (are_conflicting basename i j) (conflicts_with basename i js) e) [
    | inl a ↦ (j, inl refl, (are_conflicting_iff basename i j).0 a)
    | inr b ↦ let (k, m, c) = (conflicts_with_iff basename i js).0 b in (k, inr m, c)
  ],
  λ (k, m, c). elim m [
    | inl a ↦
        or-left _ _ ((are_conflicting_iff basename i j).1 (subst (Conflicting basename i) a c))
    | inr b ↦ or-right _ _ ((conflicts_with_iff basename i js).1 (k, b, c))
  ],
)

-- A list of entries is refused exactly if one of its entries and one of the other list oppose each
-- other: one grants and one denies a privilege that both name, to principals of one base name.
pub acl_check_preconditions_iff :
    (basename : Bytes → Bytes) (acl acldest : List Ace)
    → (sabridge_acl_check_preconditions basename acl acldest ≡ true)
      ↔ ((i : Ace) × (j : Ace) × In i acl × In j acldest × Conflicting basename i j)
unfolding sabridge_acl_check_preconditions
acl_check_preconditions_iff basename [] js = ((λ e. cc), λ (i, j, m, n, c). elim m [ ])
acl_check_preconditions_iff basename (i ∷ is) js = (
  λ e.
      elim (or-true (conflicts_with basename i js) (sabridge_acl_check_preconditions basename is js)
        e) [
          | inl a ↦ let (j, n, c) = (conflicts_with_iff basename i js).0 a in (i, j, inl refl, n, c)
          | inr b ↦
              let (k, j, m, n, c) = (acl_check_preconditions_iff basename is js).0 b in
              (k, j, inr m, n, c)
        ],
  λ (k, j, m, n, c). elim m [
    | inl a ↦
        or-left _ _
          ((conflicts_with_iff basename i js).1 (j, n, subst (λ x. Conflicting basename x j) a c))
    | inr b ↦ or-right _ _ ((acl_check_preconditions_iff basename is js).1 (k, j, b, n, c))
  ],
)
