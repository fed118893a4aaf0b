-- ===== src/Text/Uri/Compact.antt =====
-- What `compact_uri` of limestone/util.c keeps, and what it removes.
use limestone.Prelude.{
  ℕ, ◌≡◌, refl, inl, inr, false, ◌&&◌, List, [], ◌∷◌, ◌++◌, Bytes, ◌==◌, Bool-cases, if◌then◌else◌,
  arith,
}
use limestone.Text.Uri.{slash, compact_from, compact_uri}

-- The segments of a path: its maximal runs of bytes other than slashes. `run` is the run in hand.
abbrev pub flush : Bytes → List Bytes → List Bytes
flush [] rest = rest
flush (c ∷ run) rest = (c ∷ run) ∷ rest

unfoldable pub segments_from : Bytes → Bytes → List Bytes
segments_from run [] = flush run []
segments_from run (c ∷ s) =
    let cut = flush run (segments_from [] s) in
    let grown = segments_from (run ++ c ∷ []) s in if c == slash then cut else grown

unfoldable pub segments : Bytes → List Bytes
unfolding segments_from
segments s = segments_from [] s

segments_from-compact_from :
    (last : ℕ) (run s : Bytes)
    → (last ≡ slash → run ≡ [])
    → segments_from run (compact_from last s) ≡ segments_from run s
unfolding segments_from compact_from
segments_from-compact_from last run [] h = refl
segments_from-compact_from last run (c ∷ s) h = elim (Bool-cases (c == slash)) [
  | inl at_slash ↦ elim (Bool-cases (last == slash)) [
    | inl doubled ↦
        ground (arith, at_slash, doubled, segments_from-compact_from last run s h, h (ground arith))
    | inr single ↦ ground (arith, at_slash, single, segments_from-compact_from c [] s (λ _. refl))
  ]
  | inr letter ↦
      ground
        (arith, letter, segments_from-compact_from c (run ++ c ∷ []) s (λ e. absurd (ground arith)))
]

-- Compacting a URI changes none of the path segments that it names.
pub segments-compact_uri : (s : Bytes) → segments (compact_uri s) ≡ segments s
unfolding segments compact_uri segments_from
segments-compact_uri [] = refl
segments-compact_uri (c ∷ s) = elim (Bool-cases (c == slash)) [
  | inl at_slash ↦ ground (arith, at_slash, segments_from-compact_from c [] s (λ _. refl))
  | inr letter ↦
      ground (arith, letter, segments_from-compact_from c (c ∷ []) s (λ e. absurd (ground arith)))
]

-- No two slashes stand side by side in `last` followed by the string.
abbrev pub NoDouble : ℕ → Bytes → Type 0
NoDouble last [] = Unit
NoDouble last (c ∷ s) = (((last == slash) && (c == slash)) ≡ false) × NoDouble c s

compact_from-NoDouble : (last : ℕ) (s : Bytes) → NoDouble last (compact_from last s)
unfolding compact_from
compact_from-NoDouble last [] = tt
compact_from-NoDouble last (c ∷ s) =
    ground (arith, compact_from-NoDouble last s, compact_from-NoDouble c s)

compact_from_fixed : (last : ℕ) (s : Bytes) → NoDouble last s → compact_from last s ≡ s
unfolding compact_from
compact_from_fixed last [] h = refl
compact_from_fixed last (c ∷ s) h = ground (arith, compact_from_fixed c s h.1)

-- The predicate for a whole string.
abbrev pub IsCompact : Bytes → Type 0
IsCompact [] = Unit
IsCompact (c ∷ s) = NoDouble c s

-- A compacted URI has no two slashes side by side, a URI without such a pair is left as it is,
-- and so compacting twice is compacting once.
pub compact_uri-IsCompact :
    (s : Bytes)
    → IsCompact (compact_uri s)
      × (IsCompact s → compact_uri s ≡ s)
      × (compact_uri (compact_uri s) ≡ compact_uri s)
unfolding compact_uri
compact_uri-IsCompact [] = (tt, λ _. refl, refl)
compact_uri-IsCompact (c ∷ s) = (
  compact_from-NoDouble c s,
  λ h. rw (compact_from_fixed c s h),
  rw (compact_from_fixed c (compact_from c s) (compact_from-NoDouble c s)),
)
