-- ===== src/Bind/Path/Route.antt =====
-- Walks through the table of binds, the specification of the searches in limestone/dbms_bind.c.
use limestone.Prelude.{ℕ, ◌≡◌, List, [], ◌∷◌, ◌++◌, Bytes, In}
use limestone.Store.{Bind}
use limestone.Text.Uri.{slash}

-- From the first resource the names lead, bind by bind, to the second.
abbrev pub Route : List Bind → ℕ → ℕ → List Bytes → Type 0
Route bs x y [] = x ≡ y
Route bs x y (n ∷ ns) =
    (b : Bind) × In b bs × (b.collection_id ≡ x) × (b.name ≡ n) × Route bs b.resource_id y ns

-- The path that the names spell.
abbrev pub render : List Bytes → Bytes
render [] = []
render (n ∷ ns) = slash ∷ n ++ render ns

-- A path that spells some route.
abbrev pub Spells : List Bind → ℕ → ℕ → Bytes → Type 0
Spells bs x y p = (ns : List Bytes) × (p ≡ render ns) × Route bs x y ns
