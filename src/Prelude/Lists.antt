-- ===== src/Prelude/Lists.antt =====
-- Lists over the native numbers, and membership by recursion.
use Prim.Native.Nat.{ℕ, suc, ◌+◌}
use mathlib.Core.Path.{◌≡◌}
use mathlib.Core.Logic.{◌⊎◌, inl, inr}
use mathlib.Core.Bool.{Bool, true}
use mathlib.Core.List.{List, [], ◌∷◌, ◌++◌}
use native.Mathlib.Omega.{arith}
use limestone.Prelude.Tests.{if◌then◌else◌, Bool-cases}

module _ {ℓ} {A : Type ℓ} where
  abbrev pub length : List A → ℕ
  length [] = 0
  length (x ∷ xs) = suc (length xs)

  -- The rows that pass a test, in their order.
  abbrev pub keep : (A → Bool) → List A → List A
  keep p [] = []
  keep p (x ∷ xs) = if p x then x ∷ keep p xs else keep p xs

  pub length-append : (xs ys : List A) → length (xs ++ ys) ≡ length xs + length ys
  length-append [] ys = omega arith
  length-append (x ∷ xs) ys = omega (arith, length-append xs ys)

-- An element of a table.
abbrev pub In : {A : Type 0} → A → List A → Type 0
In a [] = ⊥
In a (x ∷ xs) = (a ≡ x) ⊎ In a xs

pub In-keep :
    {A : Type 0} (p : A → Bool) (x : A) (l : List A) → In x (keep p l) → In x l × (p x ≡ true)
In-keep p x [] h = elim h [ ]
In-keep p x (y ∷ l) h = elim (Bool-cases (p y)) [
  | inl e ↦
      let h' : (x ≡ y) ⊎ In x (keep p l) = rw e at h in
      elim h' [ inl q ↦ (inl q, rw q e) | inr r ↦ let (m, t) = In-keep p x l r in (inr m, t) ]
  | inr e ↦ let h' : In x (keep p l) = rw e at h in let (m, t) = In-keep p x l h' in (inr m, t)
]

pub keep-In :
    {A : Type 0} (p : A → Bool) (x : A) (l : List A) → In x l → p x ≡ true → In x (keep p l)
keep-In p x [] h t = elim h [ ]
keep-In p x (y ∷ l) (inl q) t = let e : p y ≡ true = rw q at t in rw e (inl q)
keep-In p x (y ∷ l) (inr r) t = elim (Bool-cases (p y)) [
  | inl e ↦ rw e (inr (keep-In p x l r t))
  | inr e ↦ rw e (keep-In p x l r t)
]

pub In-append : {A : Type 0} (x : A) (l m : List A) → In x (l ++ m) → In x l ⊎ In x m
In-append x [] m h = inr h
In-append x (y ∷ l) m (inl q) = inl (inl q)
In-append x (y ∷ l) m (inr r) = elim (In-append x l m r) [ inl a ↦ inl (inr a) | inr b ↦ inr b ]

pub append-In : {A : Type 0} (x : A) (l m : List A) → In x l ⊎ In x m → In x (l ++ m)
append-In x [] m (inl a) = elim a [ ]
append-In x [] m (inr b) = b
append-In x (y ∷ l) m (inl (inl q)) = inl q
append-In x (y ∷ l) m (inl (inr a)) = inr (append-In x l m (inl a))
append-In x (y ∷ l) m (inr b) = inr (append-In x l m (inr b))
