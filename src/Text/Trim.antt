-- ===== src/Text/Trim.antt =====
-- `strip_whitespace` of limestone/util.c, lines 372-382.
pub mod Laws
use mathlib.Core.List.{reverse}
use limestone.Prelude.{
  ℕ, ◌≡◌, refl, ◌↔◌, Bool, true, false, ◌&&◌, ◌||◌, Option, none, some, List, [], ◌∷◌, Bytes, codes,
  ◌==◌, leb, if◌then◌else◌, arith,
}

-- isspace in the C locale
unfoldable pub isspace : ℕ → Bool
isspace c = (c == 32) || (leb 9 c && leb c 13)

-- The first loop, over the reversed bytes; `none` is the read of data[-1].
unfoldable pub trim_end : Bytes → Option Bytes
trim_end [] = none
trim_end (c ∷ s) = if isspace c then trim_end s else some (c ∷ s)

unfoldable pub trim_start : Bytes → Bytes
trim_start [] = []
trim_start (c ∷ s) = if isspace c then trim_start s else c ∷ s

-- Cuts white space off both ends of a string.
unfoldable pub strip_whitespace : Bytes → Option Bytes
unfolding trim_end trim_start isspace
strip_whitespace [] = some []
strip_whitespace (c ∷ s) = elim (trim_end (reverse (c ∷ s))) [
  | none ↦ none
  | some rest ↦ some (trim_start (reverse rest))
]
