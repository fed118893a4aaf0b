-- ===== src/Text/Uuid.antt =====
-- UUIDs with and without hyphens, and lock tokens: limestone/util.c, lines 246-259 and 301-312,
-- and limestone/lock.c, lines 79-122.
pub mod RoundTrip
use mathlib.Core.Option
use limestone.Prelude.{
  ℕ, zero, suc, ◌+◌, Bool, true, false, ◌||◌, Option, none, some, List, [], ◌∷◌, ◌++◌, Bytes, codes,
  ◌==◌, ltb, str_eq, if◌then◌else◌,
}
use limestone.Text.Uri.{has_prefix}

abbrev pub hyphen : ℕ
hyphen = b'-'

-- What one round of the loop of `add_hyphens_to_uuid` puts before what the later rounds write.
pub put_byte : ℕ → ℕ → Bytes → Bytes
put_byte i c out =
    if (i == 8) || (i == 12) || (i == 16) || (i == 20) then hyphen ∷ c ∷ out else c ∷ out

-- `rounds` is 32 - i, and the string is what is left of the UUID at i. The terminating NUL can be
-- read; `none` is a read behind it.
pub add_hyphens_from : ℕ → ℕ → Bytes → Option Bytes
unfolding put_byte
add_hyphens_from zero i s = some []
add_hyphens_from (suc n) i (c ∷ s) = Option.map (put_byte i c) (add_hyphens_from n (i + 1) s)
add_hyphens_from (suc zero) i [] = some (put_byte i 0 [])
add_hyphens_from (suc (suc n)) i [] = none

-- The bytes that are written to the zeroed buffer of 37.
unfoldable pub add_hyphens_to_uuid : Bytes → Option Bytes
unfolding add_hyphens_from
add_hyphens_to_uuid uuid = add_hyphens_from 32 0 uuid

-- `buf` has 33 bytes; `none` is a write behind its end, at buf[j] with j of 33 or more.
pub remove_hyphens_from : ℕ → Bytes → Option Bytes
remove_hyphens_from j [] = if ltb j 33 then some [] else none
remove_hyphens_from j (c ∷ s) =
    let skip = remove_hyphens_from j s in
    let copy = Option.map (λ out. c ∷ out) (remove_hyphens_from (j + 1) s) in
    if c == hyphen then skip else if ltb j 33 then copy else none

unfoldable pub remove_hyphens_from_uuid : Bytes → Option Bytes
unfolding remove_hyphens_from
remove_hyphens_from_uuid uuid = remove_hyphens_from 0 uuid

-- The lock token's `char_uuid`, NULL for DAV:no-lock.
abbrev pub LockToken : Type 0
LockToken = Option Bytes

-- What `dav_repos_parse_locktoken` does: a token, the error 400, or a write out of bounds.
pub data Parsed : Type 0 where
  token : LockToken → Parsed
  bad_request : Parsed
  overflow : Parsed

abbrev pub opaque_prefix : Bytes
opaque_prefix = codes "opaquelocktoken:"

abbrev no_lock : Bytes
no_lock = codes "DAV:no-lock"

-- char_token + 16
unfoldable pub behind : ℕ → Bytes → Bytes
behind zero s = s
behind (suc n) [] = []
behind (suc n) (c ∷ s) = behind n s

pub parsed_uuid : Option Bytes → Parsed
parsed_uuid none = overflow
parsed_uuid (some u) = token (some u)

unfoldable pub parse_locktoken : Bytes → Parsed
unfolding has_prefix behind parsed_uuid
parse_locktoken s =
    if has_prefix no_lock s
    then token none
    else if has_prefix opaque_prefix s
    then parsed_uuid (remove_hyphens_from_uuid (behind 16 s))
    else bad_request

-- `none` where the token has no UUID, or one that is too short.
unfoldable pub format_locktoken : LockToken → Option Bytes
format_locktoken none = none
format_locktoken (some uuid) = Option.map (λ u. opaque_prefix ++ u) (add_hyphens_to_uuid uuid)

-- Zero if both tokens have the same UUID; the pointers are not NULL.
compare_locktoken : LockToken → LockToken → Bool
compare_locktoken (some a) (some b) = str_eq a b
compare_locktoken _ _ = false
