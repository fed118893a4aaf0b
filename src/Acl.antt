-- ===== src/Acl.antt =====
-- The checks for conflicting entries of access control lists: limestone/bridge.c, lines 1031-1091.
pub mod Conflict
pub mod Allow
pub mod Write
pub mod Inherit
use limestone.Prelude.{Bool, true, false, not, ◌&&◌, ◌||◌, List, [], ◌∷◌, Bytes, str_eq}

-- An entry: grant or deny, its principal as a string, and the names of its privileges.
pub record Ace : Type 0 where
  pub is_deny : Bool
  pub principal : Bytes
  pub privileges : List Bytes

unfoldable pub has_privilege : Bytes → List Bytes → Bool
has_privilege p [] = false
has_privilege p (q ∷ qs) = str_eq p q || has_privilege p qs

unfoldable pub sabridge_check_privileges_overlap : List Bytes → List Bytes → Bool
unfolding has_privilege
sabridge_check_privileges_overlap [] qs = false
sabridge_check_privileges_overlap (p ∷ ps) qs =
    has_privilege p qs || sabridge_check_privileges_overlap ps qs

-- !(is_deny_i * is_deny_j) && (is_deny_i + is_deny_j)
abbrev pub one_denies : Bool → Bool → Bool
one_denies i j = not (i && j) && (i || j)

-- `basename` is the C library's function.
pub are_conflicting : (Bytes → Bytes) → Ace → Ace → Bool
unfolding sabridge_check_privileges_overlap
are_conflicting basename i j =
    one_denies i.is_deny j.is_deny
    && str_eq (basename i.principal) (basename j.principal)
    && sabridge_check_privileges_overlap i.privileges j.privileges

unfoldable pub conflicts_with : (Bytes → Bytes) → Ace → List Ace → Bool
unfolding are_conflicting
conflicts_with basename i [] = false
conflicts_with basename i (j ∷ js) = are_conflicting basename i j || conflicts_with basename i js

-- `true` is HTTP_CONFLICT and `false` is OK.
unfoldable pub sabridge_acl_check_preconditions : (Bytes → Bytes) → List Ace → List Ace → Bool
unfolding conflicts_with
sabridge_acl_check_preconditions basename [] acldest = false
sabridge_acl_check_preconditions basename (i ∷ is) acldest =
    conflicts_with basename i acldest || sabridge_acl_check_preconditions basename is acldest
