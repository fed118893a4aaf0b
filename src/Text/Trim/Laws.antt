-- ===== src/Text/Trim/Laws.antt =====
-- What `strip_whitespace` of limestone/util.c returns.
use mathlib.Core.List.{reverse, reverse-append, reverse-reverse, append_assoc}
use limestone.Prelude.{
  ℕ, ◌≡◌, ◌≢◌, refl, sym, ap, ◌∙◌, ◌↔◌, inl, inr, true, false, none, some, [], ◌∷◌, ◌++◌, Bytes,
  Bool-cases, Option-cases, arith,
}
use limestone.Text.Trim.{isspace, trim_end, trim_start, strip_whitespace}

-- Every byte is white space.
abbrev pub AllSpace : Bytes → Type 0
AllSpace [] = Unit
AllSpace (c ∷ s) = (isspace c ≡ true) × AllSpace s

-- The first byte, if there is one, is no white space.
abbrev pub NoSpaceFirst : Bytes → Type 0
NoSpaceFirst [] = Unit
NoSpaceFirst (c ∷ s) = isspace c ≡ false

AllSpace-append : (a b : Bytes) → AllSpace (a ++ b) ↔ (AllSpace a × AllSpace b)
AllSpace-append [] b = (λ h. (tt, h), λ h. h.1)
AllSpace-append (c ∷ a) b =
    let ih = AllSpace-append a b in
    (λ h. ((h.0, (ih.0 h.1).0), (ih.0 h.1).1), λ h. (h.0.0, ih.1 (h.0.1, h.1)))

AllSpace-reverse : (s : Bytes) → AllSpace s → AllSpace (reverse s)
AllSpace-reverse [] h = tt
AllSpace-reverse (c ∷ s) h =
    rw (reverse-append (c ∷ []) s)
      ((AllSpace-append (reverse s) (c ∷ [])).1 (AllSpace-reverse s h.1, (h.0, tt)))

trim_end-none : (s : Bytes) → (trim_end s ≡ none) ↔ AllSpace s
unfolding trim_end
trim_end-none [] = (λ _. tt, λ _. refl)
trim_end-none (c ∷ s) = ground (arith, trim_end-none s)

-- What is cut off the reversed string is white space, and what is left begins with another byte.
trim_end-some :
    (s : Bytes) {r : Bytes}
    → trim_end s ≡ some r
    → (cut : Bytes) × (s ≡ cut ++ r) × AllSpace cut × NoSpaceFirst r × (r ≢ [])
unfolding trim_end
trim_end-some [] h = absurd (cc)
trim_end-some (c ∷ s) h = elim (Bool-cases (isspace c)) [
  | inl space ↦
      let (cut, e, white, first, some_left) = trim_end-some s (ground (arith, space)) in
      (c ∷ cut, rw e, (space, white), first, some_left)
  | inr other ↦ ([], ground (arith, other), tt, ground (arith, other), ground (arith, other))
]

trim_start_parts :
    (s : Bytes)
    → (cut : Bytes) × (s ≡ cut ++ trim_start s) × AllSpace cut × NoSpaceFirst (trim_start s)
unfolding trim_start
trim_start_parts [] = ([], refl, tt, tt)
trim_start_parts (c ∷ s) = elim (Bool-cases (isspace c)) [
  | inl space ↦
      let (cut, e, white, first) = trim_start_parts s in
      (c ∷ cut, rw space (ap (λ t. c ∷ t) e), (space, white), rw space first)
  | inr other ↦ ([], ground (arith, other), tt, ground (arith, other))
]

AllSpace-reverse_iff : (s : Bytes) → AllSpace (reverse s) ↔ AllSpace s
AllSpace-reverse_iff s =
    (λ h. rw (← reverse-reverse s) (AllSpace-reverse (reverse s) h), AllSpace-reverse s)

-- Only on a string that is all white space, and not empty, does the backward loop run past the
-- first byte and read data[-1].
pub strip_whitespace-eq-none :
    (c : ℕ) (s : Bytes) → (strip_whitespace (c ∷ s) ≡ none) ↔ AllSpace (c ∷ s)
unfolding strip_whitespace
strip_whitespace-eq-none c s =
    ground (arith, trim_end-none (reverse (c ∷ s)), AllSpace-reverse_iff (c ∷ s))

NoSpaceFirst-append : (a b : Bytes) → NoSpaceFirst (a ++ b) → NoSpaceFirst a
NoSpaceFirst-append [] b h = tt
NoSpaceFirst-append (c ∷ a) b h = h

strip_parts :
    (s cut rest : Bytes)
    → reverse s ≡ cut ++ rest
    → AllSpace cut
    → NoSpaceFirst rest
    → let r = trim_start (reverse rest) in
      (before after : Bytes) × (s ≡ before ++ (r ++ after))
      × AllSpace before
      × AllSpace after
      × NoSpaceFirst r
      × NoSpaceFirst (reverse r)
strip_parts s cut rest e white first =
    let r = trim_start (reverse rest) in
    let (before, e', white', first') = trim_start_parts (reverse rest) in
    let back : rest ≡ reverse r ++ reverse before =
      sym (reverse-reverse rest) ∙ (ap reverse e' ∙ reverse-append before r) in
    let whole : s ≡ (before ++ r) ++ reverse cut =
      sym (reverse-reverse s)
      ∙ (ap reverse e ∙ (reverse-append cut rest ∙ ap (λ t. t ++ reverse cut) e')) in
    (
      before,
      reverse cut,
      whole ∙ append_assoc before r (reverse cut),
      white',
      AllSpace-reverse cut white,
      first',
      NoSpaceFirst-append (reverse r) (reverse before) (rw back at first),
    )

-- Otherwise white space alone is cut off the two ends, and neither end of what is left is white
-- space.
pub strip_whitespace_parts :
    (s r : Bytes)
    → strip_whitespace s ≡ some r
    → (before after : Bytes) × (s ≡ before ++ (r ++ after))
      × AllSpace before
      × AllSpace after
      × NoSpaceFirst r
      × NoSpaceFirst (reverse r)
unfolding strip_whitespace
strip_whitespace_parts [] r h = let e : [] ≡ r = cc in rw (← e) ([], [], refl, tt, tt, tt, tt)
strip_whitespace_parts (c ∷ s) r h = elim (Option-cases (trim_end (reverse (c ∷ s)))) [
  | inl all_space ↦ absurd (ground (arith, all_space))
  | inr (rest, e) ↦
      let (cut, split, white, first, _) = trim_end-some (reverse (c ∷ s)) e in
      let same : trim_start (reverse rest) ≡ r = ground (arith, e) in
      rw same at (strip_parts (c ∷ s) cut rest split white first)
]
