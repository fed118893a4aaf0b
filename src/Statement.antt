-- ===== src/Statement.antt =====
-- The text of a statement: limestone/dbms_dbd.c, lines 73-143 and 153-183.
pub mod Fits
use mathlib.Core.Option
use limestone.Prelude.{
  ℕ, zero, suc, ◌+◌, ◌-◌, Bool, true, false, ◌||◌, Option, none, some, List, [], ◌∷◌, ◌++◌, Bytes,
  codes, ◌==◌, ltb, leb, length, if◌then◌else◌,
}

abbrev pub mark : ℕ
mark = b'?'

-- The dav_repos_query; `none` is a parameter that was not set.
pub record DavQuery : Type 0 where
  pub query_string : Bytes
  pub parameters : List (Option Bytes)

unfoldable pub count_marks : Bytes → ℕ
count_marks [] = 0
count_marks (c ∷ s) = if c == mark then count_marks s + 1 else count_marks s

unfoldable pub unset : ℕ → List (Option Bytes)
unset zero = []
unset (suc n) = none ∷ unset n

unfoldable pub dbms_prepare : Bytes → DavQuery
unfolding count_marks unset
dbms_prepare query = record { query_string = query; parameters = unset (count_marks query) }

-- parameters[n] = value
unfoldable pub set_at : ℕ → Bytes → List (Option Bytes) → List (Option Bytes)
set_at n value [] = []
set_at zero value (p ∷ ps) = some value ∷ ps
set_at (suc n) value (p ∷ ps) = p ∷ set_at n value ps

-- The error -1 is `false`.
unfoldable pub set_parameter : ℕ → Bytes → DavQuery → Bool × DavQuery
unfolding set_at
set_parameter num value q =
    if ltb num 1 || ltb (length q.parameters) num
    then (false, q)
    else (true, record q { parameters = set_at (num - 1) value q.parameters })

-- `decimal` is the printing of %ld.
pub dbms_set_int : (ℕ → Bytes) → ℕ → ℕ → DavQuery → Bool × DavQuery
unfolding set_parameter
dbms_set_int decimal num value q = set_parameter num (decimal value) q

-- `escape` is apr_dbd_escape; a NULL is sent as null.
unfoldable pub dbms_set_string : (Bytes → Bytes) → ℕ → Option Bytes → DavQuery → Bool × DavQuery
unfolding set_parameter
dbms_set_string escape num none q = set_parameter num (codes "null") q
dbms_set_string escape num (some value) q =
    set_parameter num (codes "'" ++ (escape value ++ codes "'")) q

-- `none` where some parameter was never set.
unfoldable pub all_set : List (Option Bytes) → Option (List Bytes)
all_set [] = some []
all_set (none ∷ ps) = none
all_set (some p ∷ ps) = Option.map (λ l. p ∷ l) (all_set ps)

-- Each parameter takes the place of a mark of one byte.
unfoldable pub full_length : ℕ → List Bytes → ℕ
full_length n [] = n
full_length n (p ∷ ps) = full_length (n + length p - 1) ps

-- `none` is a read behind the parameters.
unfoldable pub substitute : Bytes → List Bytes → Option Bytes
substitute [] ps = some []
substitute (c ∷ s) [] =
    let rest = Option.map (λ t. c ∷ t) (substitute s []) in if c == mark then none else rest
substitute (c ∷ s) (p ∷ ps) =
    let filled = Option.map (λ t. p ++ t) (substitute s ps) in
    let rest = Option.map (λ t. c ∷ t) (substitute s (p ∷ ps)) in if c == mark then filled else rest

-- What is sent to the DBMS: nothing, and 0 is returned; the text; or the buffer of
-- full_length + 1 bytes or the array of parameters is overrun.
pub data Sent : Type 0 where
  not_sent : Sent
  sent : Bytes → Sent
  overrun : Sent

abbrev pub in_buffer : ℕ → Option Bytes → Sent
in_buffer n none = overrun
in_buffer n (some t) = if leb (length t) n then sent t else overrun

abbrev pub sent_text : Bytes → Option (List Bytes) → Sent
sent_text s none = not_sent
sent_text s (some []) = sent s
sent_text s (some (p ∷ ps)) = in_buffer (full_length (length s) (p ∷ ps)) (substitute s (p ∷ ps))

unfoldable pub statement_text : DavQuery → Sent
unfolding all_set full_length substitute
statement_text q = sent_text q.query_string (all_set q.parameters)
