-- ===== src/Statement/Fits.antt =====
-- Statements of limestone/dbms_dbd.c in the buffers that are made for them.

use limestone.Prelude.{
  ℕ, zero, suc, ◌+◌, ◌-◌, ◌≡◌, refl, ap, ◌∙◌, inl, inr, ◌||◌, Option, none, some, List, [], ◌∷◌,
  ◌++◌, Bytes, ◌==◌, ltb, length, Bool-cases, arith,
}
use limestone.Statement.{
  mark, DavQuery, count_marks, unset, dbms_prepare, set_at, set_parameter, all_set, full_length,
  substitute, Sent, not_sent, sent, overrun, statement_text,
}

-- A parameter for each mark.
abbrev pub IsPrepared : DavQuery → Type 0
IsPrepared q = length q.parameters ≡ count_marks q.query_string

length-unset : (n : ℕ) → length (unset n) ≡ n
unfolding unset
length-unset zero = refl
length-unset (suc n) = ap suc (length-unset n)

length-set_at : (n : ℕ) (v : Bytes) (ps : List (Option Bytes)) → length (set_at n v ps) ≡ length ps
unfolding set_at
length-set_at n v [] = refl
length-set_at zero v (p ∷ ps) = refl
length-set_at (suc n) v (p ∷ ps) = ap suc (length-set_at n v ps)

pub dbms_prepare-IsPrepared : (s : Bytes) → IsPrepared (dbms_prepare s)
unfolding dbms_prepare
dbms_prepare-IsPrepared s = length-unset (count_marks s)

pub set_parameter-IsPrepared :
    (num : ℕ) (v : Bytes) (q : DavQuery) → IsPrepared q → IsPrepared (set_parameter num v q).1
unfolding set_parameter
set_parameter-IsPrepared num v q h =
    elim (Bool-cases (ltb num 1 || ltb (length q.parameters) num)) [
      | inl e ↦ rw e h
      | inr e ↦ rw e (length-set_at (num - 1) v q.parameters ∙ h)
    ]

-- The number of bytes of all parameters.
abbrev total : List Bytes → ℕ
total [] = 0
total (p ∷ ps) = length p + total ps

-- What is sent: nothing if a parameter was never set, or a text of as many bytes as the buffer was
-- made for.
abbrev pub Fits : DavQuery → Sent → Type 0
Fits q not_sent = all_set q.parameters ≡ none
Fits q (sent t) =
    (ps : List Bytes) × (all_set q.parameters ≡ some ps)
    × (substitute q.query_string ps ≡ some t)
    × (length t ≡ full_length (length q.query_string) ps)
Fits q overrun = ⊥

marks_positive : (a b : Bytes) → (n : ℕ) × (count_marks (a ++ (mark ∷ b)) ≡ suc n)
unfolding count_marks
marks_positive [] b = (count_marks b, omega arith)
marks_positive (c ∷ a) b =
    let (n, e) = marks_positive a b in
    elim (Bool-cases (c == mark)) [
      | inl at ↦ (suc n, rw at (omega (arith, e)))
      | inr off ↦ (n, rw off e)
    ]

-- A statement whose text was put together with a question mark in it, and for which no parameter is
-- set, is not sent, and the caller is told that it was carried out.
pub mark_not_sent : (a b : Bytes) → statement_text (dbms_prepare (a ++ (mark ∷ b))) ≡ not_sent
unfolding statement_text dbms_prepare unset all_set
mark_not_sent a b = let (n, e) = marks_positive a b in rw e refl
