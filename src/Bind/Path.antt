-- ===== src/Bind/Path.antt =====
-- The search from a resource up to a collection: limestone/dbms_bind.c, lines 165-275.
pub mod Listed
pub mod Route
pub mod Hash
pub mod Scan
pub mod Search
pub mod Exclusion
pub mod Quiet
use limestone.Prelude.{
  ℕ, zero, suc, ◌+◌, Bool, false, not, ◌&&◌, ◌||◌, Option, none, some, List, [], ◌∷◌, ◌++◌, Bytes,
  ◌==◌, ltb, keep, length, if◌then◌else◌,
}
use limestone.Store.{Bind, M, internal_server_error, pure, gets, ◌>>=◌, select}
use limestone.Text.Uri.{slash}

-- id IN (…)
unfoldable pub is_in : List ℕ → ℕ → Bool
is_in [] i = false
is_in (j ∷ js) i = (j == i) || is_in js i

-- The ids behind "id NOT IN": the first one of the list, and of the others those above zero.
abbrev pub excluded : List ℕ → ℕ → Bool
excluded [] i = false
excluded (j ∷ js) i = (j == i) || is_in (keep (λ k. ltb 0 k) js) i

abbrev pub is_selected : List ℕ → List ℕ → Bind → Bool
is_selected excl fathers b = is_in fathers b.resource_id && not (excluded excl b.id)

-- `shortest_path_hash`, by resource id.
abbrev pub Hash : Type 0
Hash = List (ℕ × Bytes)

unfoldable pub hash_get : ℕ → Hash → Option Bytes
hash_get k [] = none
hash_get k ((j, p) ∷ h) = if j == k then some p else hash_get k h

-- apr_pstrcat ends at a NULL `prev_sp`.
abbrev pub parent_path : Bind → Option Bytes → Bytes
parent_path b none = slash ∷ b.name
parent_path b (some prev) = slash ∷ b.name ++ prev

-- What the loop over the rows comes to: it returns, or it leaves the hash and the new forefathers.
pub data Scanned : Type 0 where
  found : Bytes → Scanned
  more : Hash → List ℕ → Scanned

pub scan : ℕ → List Bind → Hash → List ℕ → Scanned
unfolding hash_get
scan from [] h news = more h news
scan from (b ∷ rows) h news =
    let path = parent_path b (hash_get b.resource_id h) in
    let seen = scan from rows h news in
    let fresh = scan from rows ((b.collection_id, path) ∷ h) (news ++ (b.collection_id ∷ [])) in
    elim (hash_get b.collection_id h) [
      | some p ↦ seen
      | none ↦ if b.collection_id == from then found path else fresh
    ]

pub data Outcome : Type 0 where
  shortest_path : Option Bytes → Outcome
  out_of_fuel : Outcome

-- The loop ends where no new forefather was found.
abbrev pub continue : (List ℕ → Hash → M Outcome) → Scanned → M Outcome
continue go (found p) = pure (shortest_path (some p))
continue go (more h []) = pure (shortest_path none)
continue go (more h (f ∷ fs)) = go (f ∷ fs) h

-- One round of the do loop to each unit of fuel. `excl` is the list that is left in `excl_binds`.
pub search_rounds : ℕ → ℕ → List ℕ → List ℕ → Hash → M Outcome
unfolding scan is_in
search_rounds zero from excl fathers h = pure out_of_fuel
search_rounds (suc n) from excl fathers h = do
  rows ← select internal_server_error (λ db. keep (is_selected excl fathers) db.binds)
  continue (λ new h'. search_rounds n from [] (fathers ++ new) h') (scan from rows h [])

unfoldable pub dbms_find_shortest_path_excl_binds : ℕ → ℕ → List ℕ → M Outcome
unfolding search_rounds
dbms_find_shortest_path_excl_binds from to excl = do
  fuel ← gets (λ db. length db.binds + 1)
  (if from == to
      then pure (shortest_path (some []))
      else search_rounds fuel from excl (to ∷ []) ((to, []) ∷ []))

unfoldable pub dbms_find_shortest_path : ℕ → ℕ → M Outcome
unfolding dbms_find_shortest_path_excl_binds
dbms_find_shortest_path from to = dbms_find_shortest_path_excl_binds from to []
