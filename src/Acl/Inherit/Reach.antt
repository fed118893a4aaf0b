-- ===== src/Acl/Inherit/Reach.antt =====
-- The paths of acl_inheritance as the check of a privilege joins them: limestone/dbms_acl.c, lines
-- 508-521.
use mathlib.Core.Path.{subst}
use limestone.Prelude.{
  ℕ, ◌≡◌, refl, sym, ◌∙◌, ◌⊎◌, inl, inr, ◌↔◌, Bool, true, false, ◌&&◌, none, some, List, [], ◌∷◌,
  In, Bool-cases, ◌==◌, ==_iff,
}
use limestone.Store.{AclInheritance}
use limestone.Store.Rows.{some_row-In, In-some_row}
use limestone.Bind.Rows.{first_row}
use limestone.Acl.Allow.{Question, inherits_from}

and-both : (a b : Bool) → (a && b) ≡ true → (a ≡ true) × (b ≡ true)
and-both true b e = (refl, e)
and-both false b e = absurd (cc e)

both-and : (a b : Bool) → a ≡ true → b ≡ true → (a && b) ≡ true
both-and a b e f = rw e f

-- Entries of a resource that has a row reach those that have it on their path.
abbrev pub Reaches : List AclInheritance → ℕ → ℕ → Type 0
Reaches rows c x =
    (par : AclInheritance) × In par rows
    × (par.resource_id ≡ x)
    × (chi : AclInheritance) × In chi rows
    × (chi.resource_id ≡ c)
    × In x chi.path

pub inherits_from_iff :
    (q : Question) (rows : List AclInheritance) (x : ℕ)
    → (inherits_from q rows x ≡ true) ↔ Reaches rows q.resource_id x
unfolding inherits_from
inherits_from_iff q rows x = (
  λ e.
      let (par, i, t) = some_row-In _ rows e in
      let (at_x, rest) = and-both (par.resource_id == x) _ t in
      let (chi, j, u) = some_row-In _ rows rest in
      let (at_c, on_path) = and-both (chi.resource_id == q.resource_id) _ u in
      let (y, k, v) = some_row-In (λ m. par.resource_id == m) chi.path on_path in
      let here : par.resource_id ≡ x = (==_iff par.resource_id x).0 at_x in
      let there : y ≡ x = sym ((==_iff par.resource_id y).0 v) ∙ here in
      (
        par,
        i,
        here,
        chi,
        j,
        (==_iff chi.resource_id q.resource_id).0 at_c,
        subst (λ z. In z chi.path) there k,
      ),
  λ (par, i, here, chi, j, there, k). In-some_row _ par rows i (
      both-and (par.resource_id == x) _ ((==_iff par.resource_id x).1 here) (
        In-some_row _ chi rows j (
          both-and (chi.resource_id == q.resource_id) _
            ((==_iff chi.resource_id q.resource_id).1 there)
            (In-some_row (λ m. par.resource_id == m) x chi.path k
              ((==_iff par.resource_id x).1 here))))),
)

-- The primary key of the table.
abbrev pub IsKeyed : List AclInheritance → Type 0
IsKeyed rows =
    (a b : AclInheritance) → In a rows → In b rows → a.resource_id ≡ b.resource_id → a ≡ b

pub first_inheritance :
    (r : ℕ) (rows : List AclInheritance)
    → ((first_row (λ a. a.resource_id == r) rows ≡ none)
        × ((a : AclInheritance) → In a rows → (a.resource_id == r) ≡ false))
      ⊎ ((a : AclInheritance) × (first_row (λ b. b.resource_id == r) rows ≡ some a)
          × In a rows
          × (a.resource_id ≡ r))
unfolding first_row
first_inheritance r [] = inl (refl, λ a m. elim m [ ])
first_inheritance r (a ∷ rows) = elim (Bool-cases (a.resource_id == r)) [
  | inl t ↦ inr (a, rw t refl, inl refl, (==_iff a.resource_id r).0 t)
  | inr f ↦ elim (first_inheritance r rows) [
    | inl (e, h) ↦ inl (rw f e, λ b m. elim m [ inl q ↦ rw q f | inr n ↦ h b n ])
    | inr (b, e, n, t) ↦ inr (b, rw f e, inr n, t)
  ]
]

pub not_here :
    (r : ℕ) (rows : List AclInheritance)
    → ((a : AclInheritance) → In a rows → (a.resource_id == r) ≡ false)
    → (a : AclInheritance) → In a rows
    → a.resource_id ≡ r
    → ⊥
not_here r rows free a m e =
    let t : (a.resource_id == r) ≡ true = (==_iff a.resource_id r).1 e in
    let f = free a m in absurd (cc (t, f))
