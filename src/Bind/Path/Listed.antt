-- ===== src/Bind/Path/Listed.antt =====
-- Ids behind IN: limestone/dbms_bind.c, lines 205-217.
use limestone.Prelude.{
  ℕ, ◌≡◌, refl, inl, inr, ◌↔◌, true, List, [], ◌∷◌, ◌==◌, ==_iff, In, Bool-cases,
}
use limestone.Bind.Path.{is_in}

pub is_in_iff : (ids : List ℕ) (i : ℕ) → (is_in ids i ≡ true) ↔ In i ids
unfolding is_in
is_in_iff [] i = ((λ e. cc), λ m. elim m [ ])
is_in_iff (j ∷ js) i = (
  λ e. elim (Bool-cases (j == i)) [
    | inl t ↦ let q : j ≡ i = (==_iff j i).0 t in inl (rw q refl)
    | inr f ↦ inr ((is_in_iff js i).0 (rw f at e))
  ],
  λ m. elim m [
    | inl q ↦ let t : (j == i) ≡ true = (==_iff j i).1 (rw q refl) in rw t refl
    | inr n ↦ elim (Bool-cases (j == i)) [ inl t ↦ rw t refl | inr f ↦ rw f ((is_in_iff js i).1 n) ]
  ],
)
