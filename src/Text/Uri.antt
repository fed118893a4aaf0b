-- ===== src/Text/Uri.antt =====
-- Slashes of request URIs: limestone/util.c, lines 122-148 and 209-224 and 321-352.
pub mod Compact
use mathlib.Core.List.{reverse}
use limestone.Prelude.{
  ℕ, suc, ◌+◌, Bool, true, false, not, ◌&&◌, ◌||◌, Option, none, some, List, [], ◌∷◌, ◌++◌, Bytes,
  codes, ◌==◌, str_eq, length, if◌then◌else◌,
}

abbrev pub slash : ℕ
slash = b'/'

-- NULL_NAMESPACE
abbrev null_namespace : Bytes
null_namespace = 32 ∷ []

-- `none` is a NULL pointer; the pool is never NULL.
build_ns_name_key : Option Bytes → Option Bytes → Option Bytes
build_ns_name_key (some []) (some name) = some (null_namespace ++ 9 ∷ name)
build_ns_name_key (some (c ∷ ns)) (some name) = some ((c ∷ ns) ++ 9 ∷ name)
build_ns_name_key _ _ = none

-- The string is read from its end, so this is over the reversed bytes.
drop_slashes : Bytes → Bytes
drop_slashes [] = []
drop_slashes (c ∷ s) = if c == slash then drop_slashes s else c ∷ s

unfoldable pub chomp_slash : Bytes → Bytes
unfolding drop_slashes
chomp_slash s = reverse (drop_slashes (reverse s))

pub chomp_trailing_slash : Bytes → Bytes
unfolding chomp_slash
chomp_trailing_slash [] = []
chomp_trailing_slash (c ∷ []) = c ∷ []
chomp_trailing_slash (c ∷ d ∷ s) = chomp_slash (c ∷ d ∷ s)

-- The loop of `compact_uri`, over the bytes not yet read; `last` is v[j].
compact_from : ℕ → Bytes → Bytes
compact_from last [] = []
compact_from last (c ∷ s) =
    let skip = compact_from last s in
    let copy = c ∷ compact_from c s in
    if not (last == slash) || not (c == slash) then copy else skip

unfoldable pub compact_uri : Bytes → Bytes
unfolding compact_from
compact_uri [] = []
compact_uri (c ∷ s) = c ∷ compact_from c s

-- The number of tokens that apr_strtok cuts the URI into; apr_strtok is the parameter.
unfoldable pub get_num_tokens : (Bytes → List Bytes) → Bytes → ℕ
get_num_tokens strtok uri = length (strtok uri)

-- strncmp(s, prefix, strlen(prefix)) == 0
unfoldable pub has_prefix : Bytes → Bytes → Bool
has_prefix [] s = true
has_prefix (p ∷ ps) [] = false
has_prefix (p ∷ ps) (c ∷ s) = (c == p) && has_prefix ps s

bad_content_types : List Bytes
bad_content_types = codes "multipart/form-data" ∷ []

good_among : List Bytes → Bytes → Bool
unfolding has_prefix
good_among [] t = true
good_among (b ∷ bs) t = if has_prefix b t then false else good_among bs t

is_content_type_good : Option Bytes → Bool
unfolding good_among bad_content_types
is_content_type_good none = false
is_content_type_good (some []) = false
is_content_type_good (some (c ∷ t)) = good_among bad_content_types (c ∷ t)
