-- ===== src/Text/Uuid/RoundTrip.antt =====
-- Adding hyphens to a UUID and removing them, and how long a string fits the buffer.
use limestone.Prelude.{
  ℕ, zero, suc, ◌+◌, ◌≤◌, ◌<◌, ◌≡◌, refl, ◌↔◌, false, none, some, [], ◌∷◌, ◌++◌, Bytes, ◌==◌,
  length, if◌then◌else◌, arith,
}
use limestone.Text.Uuid.{
  hyphen, put_byte, add_hyphens_from, add_hyphens_to_uuid, remove_hyphens_from,
  remove_hyphens_from_uuid, token, overflow, opaque_prefix, parse_locktoken, format_locktoken,
}

-- No byte of the string is a hyphen.
abbrev pub NoHyphen : Bytes → Type 0
NoHyphen [] = Unit
NoHyphen (c ∷ s) = ((c == hyphen) ≡ false) × NoHyphen s

-- The number of bytes other than hyphens.
abbrev pub letters : Bytes → ℕ
letters [] = 0
letters (c ∷ s) = if c == hyphen then letters s else letters s + 1

-- The digits that `rounds` of the loop write can be read back behind j bytes already kept.
remove-add_from :
    (n i j : ℕ) (u : Bytes)
    → length u ≡ n
    → NoHyphen u
    → j + n ≤ 32
    → (out : Bytes) × (add_hyphens_from n i u ≡ some out) × (remove_hyphens_from j out ≡ some u)
unfolding add_hyphens_from remove_hyphens_from put_byte
remove-add_from zero i j [] len clean room = ([], refl, ground arith)
remove-add_from zero i j (c ∷ u) len clean room = absurd (omega arith)
remove-add_from (suc n) i j [] len clean room = absurd (omega arith)
remove-add_from (suc n) i j (c ∷ u) len clean room =
    let (out, written, back) =
      remove-add_from n (i + 1) (j + 1) u (omega arith) clean.1 (omega arith) in
    (put_byte i c out, ground arith, ground arith)

-- A UUID of 32 bytes, none of them a hyphen, is unchanged by adding the hyphens and removing them.
pub remove-add_hyphens :
    (u : Bytes)
    → length u ≡ 32
    → NoHyphen u
    → (out : Bytes) × (add_hyphens_to_uuid u ≡ some out) × (remove_hyphens_from_uuid out ≡ some u)
unfolding add_hyphens_to_uuid remove_hyphens_from_uuid
remove-add_hyphens u len clean = remove-add_from 32 0 0 u len clean (omega arith)

-- A lock token that the server prints is parsed back as the same token.
pub parse-format_locktoken :
    (u : Bytes)
    → length u ≡ 32
    → NoHyphen u
    → (s : Bytes) × (format_locktoken (some u) ≡ some s) × (parse_locktoken s ≡ token (some u))
unfolding format_locktoken parse_locktoken
parse-format_locktoken u len clean =
    let (out, written, back) = remove-add_hyphens u len clean in
    (opaque_prefix ++ out, rw written, rw back)

remove_from-eq-none : (j : ℕ) (s : Bytes) → (remove_hyphens_from j s ≡ none) ↔ (32 < j + letters s)
unfolding remove_hyphens_from
remove_from-eq-none j [] = ground arith
remove_from-eq-none j (c ∷ s) =
    ground (arith, remove_from-eq-none j s, remove_from-eq-none (j + 1) s)

-- The copy runs over the end of its buffer of 33 bytes exactly when the string has more than 32
-- bytes other than hyphens.
pub remove_hyphens_overflows : (s : Bytes) → (remove_hyphens_from_uuid s ≡ none) ↔ (32 < letters s)
unfolding remove_hyphens_from_uuid
remove_hyphens_overflows s = ground (arith, remove_from-eq-none 0 s)

-- A token that a client sends with more than 32 bytes other than hyphens behind its prefix makes
-- the parser write out of bounds, and no shorter one does.
pub parse_locktoken_overflows :
    (s : Bytes) → (parse_locktoken (opaque_prefix ++ s) ≡ overflow) ↔ (32 < letters s)
unfolding parse_locktoken
parse_locktoken_overflows s = ground (arith, remove_hyphens_overflows s)
