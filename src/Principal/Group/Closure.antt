-- ===== src/Principal/Group/Closure.antt =====
-- Membership through groups, the specification of transitive_group_members.
use limestone.Prelude.{
  ℕ, ◌≡◌, refl, sym, ap, ◌⊎◌, inl, inr, List, [], ◌∷◌, ◌++◌, In, In-append, append-In,
}
use limestone.Store.{GroupMember}

abbrev pub edge : ℕ → ℕ → GroupMember
edge grp prin = record { group_id = grp; member_id = prin }

-- A principal is a member of a group by a row, or through a member of it.
pub data Member (es : List GroupMember) : ℕ → ℕ → Type 0 where
  direct : (g m : ℕ) → In (edge g m) es → Member es g m
  through : (g x m : ℕ) → In (edge g x) es → Member es x m → Member es g m

-- No principal is a member of itself.
abbrev pub IsAcyclic : List GroupMember → Type 0
IsAcyclic es = (x : ℕ) → ¬ Member es x x

-- The principal itself or a member of it.
abbrev pub SelfOrMember : List GroupMember → ℕ → ℕ → Type 0
SelfOrMember es g m = (g ≡ m) ⊎ Member es g m

pub Member-append :
    {es : List GroupMember} {x y : ℕ} (fs : List GroupMember)
    → Member es x y
    → Member (es ++ fs) x y
Member-append {es} fs (direct g m i) = direct g m (append-In (edge g m) es fs (inl i))
Member-append {es} fs (through g x m i rest) =
    through g x m (append-In (edge g x) es fs (inl i)) (Member-append fs rest)

pub Member-trans :
    {es : List GroupMember} {x y z : ℕ} → Member es x y → Member es y z → Member es x z
Member-trans {es} {x} {y} {z} (direct g m i) b = through g m z i b
Member-trans {es} {x} {y} {z} (through g w m i rest) b = through g w z i (Member-trans rest b)

pub SelfOrMember-trans :
    {es : List GroupMember} {x y z : ℕ}
    → SelfOrMember es x y
    → SelfOrMember es y z
    → SelfOrMember es x z
SelfOrMember-trans (inl p) b = rw p b
SelfOrMember-trans (inr a) (inl q) = rw (← q) (inr a)
SelfOrMember-trans (inr a) (inr b) = inr (Member-trans a b)

Member-SelfOrMember :
    {es : List GroupMember} {x y z : ℕ} → Member es x y → SelfOrMember es y z → Member es x z
Member-SelfOrMember a (inl q) = rw (← q) a
Member-SelfOrMember a (inr b) = Member-trans a b

SelfOrMember-Member :
    {es : List GroupMember} {x y z : ℕ} → SelfOrMember es x y → Member es y z → Member es x z
SelfOrMember-Member (inl p) b = rw p b
SelfOrMember-Member (inr a) b = Member-trans a b

-- The members that one more row makes.
abbrev pub Enlarged : List GroupMember → ℕ → ℕ → ℕ → ℕ → Type 0
Enlarged es grp prin x y = Member es x y ⊎ (SelfOrMember es x grp × SelfOrMember es prin y)

edge_cases :
    (es : List GroupMember) (grp prin g m : ℕ)
    → In (edge g m) (es ++ (edge grp prin ∷ []))
    → In (edge g m) es ⊎ ((g ≡ grp) × (m ≡ prin))
edge_cases es grp prin g m i = elim (In-append (edge g m) es (edge grp prin ∷ []) i) [
  | inl old ↦ inl old
  | inr last ↦ elim last [
    | inl q ↦ inr (ap (λ (r : GroupMember). r.group_id) q, ap (λ (r : GroupMember). r.member_id) q)
    | inr none_left ↦ elim none_left [ ]
  ]
]

step_Enlarged :
    {es : List GroupMember} {grp prin g x m : ℕ}
    → In (edge g x) es ⊎ ((g ≡ grp) × (x ≡ prin))
    → Enlarged es grp prin x m
    → Enlarged es grp prin g m
step_Enlarged {es} {grp} {prin} {g} {x} {m} (inl i) (inl rest) = inl (through g x m i rest)
step_Enlarged {es} {grp} {prin} {g} {x} {m} (inl i) (inr (up, down)) =
    inr (inr (Member-SelfOrMember (direct g x i) up), down)
step_Enlarged (inr (p, q)) (inl rest) = inr (inl p, inr (rw (← q) rest))
step_Enlarged (inr (p, q)) (inr (up, down)) = inr (inl p, down)

pub Member-Enlarged :
    {es : List GroupMember} (grp prin : ℕ) {x y : ℕ}
    → Member (es ++ (edge grp prin ∷ [])) x y
    → Enlarged es grp prin x y
Member-Enlarged {es} grp prin (direct g m i) = elim (edge_cases es grp prin g m i) [
  | inl old ↦ inl (direct g m old)
  | inr (p, q) ↦ inr (inl p, inl (sym q))
]
Member-Enlarged {es} grp prin (through g x m i rest) =
    step_Enlarged (edge_cases es grp prin g x i) (Member-Enlarged grp prin rest)

lift_SelfOrMember :
    {es : List GroupMember} {x y : ℕ} (fs : List GroupMember)
    → SelfOrMember es x y
    → SelfOrMember (es ++ fs) x y
lift_SelfOrMember fs (inl p) = inl p
lift_SelfOrMember fs (inr a) = inr (Member-append fs a)

pub Enlarged-Member :
    {es : List GroupMember} {x y : ℕ} (grp prin : ℕ)
    → Enlarged es grp prin x y
    → Member (es ++ (edge grp prin ∷ [])) x y
Enlarged-Member grp prin (inl old) = Member-append (edge grp prin ∷ []) old
Enlarged-Member {es} {x} {y} grp prin (inr (up, down)) =
    let new = append-In (edge grp prin) es (edge grp prin ∷ []) (inr (inl refl)) in
    SelfOrMember-Member (lift_SelfOrMember (edge grp prin ∷ []) up)
      (Member-SelfOrMember (direct grp prin new) (lift_SelfOrMember (edge grp prin ∷ []) down))

-- One more row keeps the groups free of cycles where its group is neither its member nor below it.
pub append-IsAcyclic :
    (es : List GroupMember) (grp prin : ℕ)
    → IsAcyclic es
    → ¬ SelfOrMember es prin grp
    → IsAcyclic (es ++ (edge grp prin ∷ []))
append-IsAcyclic es grp prin free apart x loop = elim (Member-Enlarged grp prin loop) [
  | inl old ↦ free x old
  | inr (up, down) ↦ apart (SelfOrMember-trans down up)
]

-- And closes a cycle where it is one of them.
pub append-cycle :
    (es : List GroupMember) (grp prin : ℕ)
    → SelfOrMember es prin grp
    → Member (es ++ (edge grp prin ∷ [])) grp grp
append-cycle es grp prin back = Enlarged-Member grp prin (inr (inl refl, back))
