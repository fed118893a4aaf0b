-- ===== src/Acl/Allow/Rule.antt =====
-- The entry that decides: limestone/dbms_acl.c, lines 454-573.
use limestone.Prelude.{
  ℕ, suc, ◌≤◌, ◌<◌, ◌≡◌, refl, ap, ◌∙◌, ◌⊎◌, inl, inr, Bool, true, false, Option, none, some, List,
  [], ◌∷◌, map, ◌==◌, ltb, keep, In, In-keep, keep-In, Bool-cases, arith,
}
use mathlib.Core.Path.{subst}
use limestone.Store.{AceRow, Db}
use limestone.Store.Rows.{In-map, map-In}
use limestone.Acl.Allow.{
  Question, Placed, precedes, place, applies, comes_before, first_placed, first_entry, Answer,
  answer_row, answers, AceCache, Cursor, fetch, fetch_if, cached, go_through, int_of, start_cursor,
}
use limestone.Acl.Allow.Order.{Finds, first_placed-Finds}

-- Rows of principals behind the first.
abbrev AreLater : List Answer → Type 0
AreLater rows = (a : Answer) → In a rows → (a.order == 1) ≡ false

answer_row-AreLater :
    (order : ℕ) (o : Option Placed) (rest : List Answer)
    → 2 ≤ order
    → AreLater rest
    → AreLater (answer_row order o rest)
answer_row-AreLater order none rest h later = later
answer_row-AreLater order (some p) rest h later = λ a i. elim i [
  | inl q ↦ let e : a.order ≡ order = ap (λ (b : Answer). b.order) q in ground (arith, e, h)
  | inr j ↦ later a j
]

answers-AreLater :
    (char_length : List ℕ → ℕ) (q : Question) (order : ℕ) (ps : List ℕ) (db : Db)
    → 2 ≤ order
    → AreLater (answers char_length q order ps db)
unfolding answers
answers-AreLater char_length q order [] db h = λ a i. elim i [ ]
answers-AreLater char_length q order (p ∷ ps) db h =
    answer_row-AreLater order (first_entry char_length q p db)
      (answers char_length q (suc order) ps db) h
      (answers-AreLater char_length q (suc order) ps db (omega (arith, h)))

fetch-later :
    (m : ℕ) (c : Cursor) (rows : List Answer)
    → AreLater c.rows
    → AreLater rows
    → AreLater (fetch m c rows).rows × ((fetch m c rows).ret_val ≡ c.ret_val)
fetch-later m c [] old later = (old, refl)
fetch-later m c (a ∷ rows) old later = (λ b i. later b (inr i), rw (later a (inl refl)) refl)

fetch_if-later :
    (b : Bool) (m : ℕ) (c : Cursor)
    → AreLater c.rows
    → AreLater (fetch_if b m c).rows × ((fetch_if b m c).ret_val ≡ c.ret_val)
fetch_if-later true m c later = fetch-later m c c.rows later later
fetch_if-later false m c later = (later, refl)

-- Behind the first principal the answer stays.
go_through-ret_val :
    (q : Question) (m order : ℕ) (ps : List ℕ) (c : Cursor)
    → AreLater c.rows
    → (go_through q m order ps c).ret_val ≡ c.ret_val
unfolding go_through
go_through-ret_val q m order [] c later = refl
go_through-ret_val q m order (p ∷ ps) c later =
    let (later', same) = fetch_if-later (ltb c.next_order order) m c later in
    go_through-ret_val q m (suc order) ps (cached q order p (fetch_if (ltb c.next_order order) m c))
      later'
    ∙ same

abbrev granted : Option Placed → Bool
granted none = false
granted (some a) = a.ace.grants

first_fetch :
    (m : ℕ) (o : Option Placed) (rest : List Answer) (cache : Option AceCache)
    → AreLater rest
    → AreLater (fetch m (start_cursor (answer_row 1 o rest) cache) (answer_row 1 o rest)).rows
      × ((fetch m (start_cursor (answer_row 1 o rest) cache) (answer_row 1 o rest)).ret_val
          ≡ granted o)
first_fetch m (some a) rest cache later = (later, refl)
first_fetch m none rest cache later = fetch-later m (start_cursor rest cache) rest later later

pub decided :
    (char_length : List ℕ → ℕ) (q : Question) (p m : ℕ) (ps : List ℕ) (cache : Option AceCache)
    (db : Db)
    → (go_through q m 1 (p ∷ ps) (start_cursor (answers char_length q 1 (p ∷ ps) db) cache)).ret_val
      ≡ granted (first_entry char_length q p db)
unfolding go_through answers
decided char_length q p m ps cache db =
    let rest = answers char_length q 2 ps db in
    let o = first_entry char_length q p db in
    let (later, answer) =
      first_fetch m o rest cache (answers-AreLater char_length q 2 ps db (omega arith)) in
    go_through-ret_val q m 2 ps
      (cached q 1 p (fetch m (start_cursor (answer_row 1 o rest) cache) (answer_row 1 o rest)))
      later
    ∙ answer

-- Protected entries come first, then those of longer paths, then those with lower ids.
abbrev Precedes : Bool → Bool → ℕ → ℕ → ℕ → ℕ → Type 0
Precedes x y m n i j = ((x ≡ true) × (y ≡ false)) ⊎ ((x ≡ y) × ((n < m) ⊎ ((m ≡ n) × (i < j))))

abbrev pub Before : Placed → Placed → Type 0
Before b a = Precedes b.ace.protected a.ace.protected b.path_length a.path_length b.ace.id a.ace.id

not-Precedes : (x y : Bool) (m n i j : ℕ) → precedes x y m n i j ≡ false → ¬ Precedes x y m n i j
not-Precedes true false m n i j e p = cc e
not-Precedes false true m n i j e (inl (a, b)) = cc a
not-Precedes false true m n i j e (inr (a, b)) = cc a
not-Precedes true true m n i j e (inl (a, b)) = cc b
not-Precedes true true m n i j e (inr (a, inl b)) = ground (arith, e, b)
not-Precedes true true m n i j e (inr (a, inr (b, c))) = ground (arith, e, b, c)
not-Precedes false false m n i j e (inl (a, b)) = cc a
not-Precedes false false m n i j e (inr (a, inl b)) = ground (arith, e, b)
not-Precedes false false m n i j e (inr (a, inr (b, c))) = ground (arith, e, b, c)

not-Before : (b a : Placed) → comes_before b a ≡ false → ¬ Before b a
not-Before b a e = not-Precedes _ _ _ _ _ _ e

-- The rule: the first of the entries that apply to the principal itself, if there is one, says it.
abbrev pub IsRuled : (List ℕ → ℕ) → Question → ℕ → Db → ℕ → Type 0
IsRuled char_length q p db n =
    ((n ≡ 0) × ((a : AceRow) → In a db.aces → applies q p db a ≡ false))
    ⊎ ((a : AceRow) × In a db.aces
        × (applies q p db a ≡ true)
        × (n ≡ int_of a.grants)
        × ((b : AceRow)
            → In b db.aces
            → applies q p db b ≡ true
            → ¬ Before (place char_length db b) (place char_length db a)))

pub granted-IsRuled :
    (char_length : List ℕ → ℕ) (q : Question) (p : ℕ) (db : Db)
    → IsRuled char_length q p db (int_of (granted (first_entry char_length q p db)))
unfolding first_entry
granted-IsRuled char_length q p db =
    let f = place char_length db in
    let l = map f (keep (applies q p db) db.aces) in go (first_placed l) (first_placed-Finds l)
  where
    go :
        (o : Option Placed)
        → Finds (map (place char_length db) (keep (applies q p db) db.aces)) o
        → IsRuled char_length q p db (int_of (granted o))
    go none empty = inl (
      refl,
      λ a i. elim (Bool-cases (applies q p db a)) [
        | inl t ↦
            let f = place char_length db in
            let inside =
              map-In f a (keep (applies q p db) db.aces) (keep-In (applies q p db) a db.aces i t) in
            let past : In (f a) [] = rw empty at inside in elim past [ ]
        | inr t ↦ t
      ],
    )
    go (some x) (inside, first) =
        let f = place char_length db in
        let (a, i, e) = In-map f x (keep (applies q p db) db.aces) inside in
        let (j, t) = In-keep (applies q p db) a db.aces i in
        inr (
          a,
          j,
          t,
          ap (λ (y : Placed). int_of y.ace.grants) e,
          λ b k s.
              subst (λ y. ¬ Before (f b) y) e
                (not-Before (f b) x (
                  first (f b) (
                    map-In f b (keep (applies q p db) db.aces)
                      (keep-In (applies q p db) b db.aces k s)))),
        )
