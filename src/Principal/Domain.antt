-- ===== src/Principal/Domain.antt =====
-- The folder that a domain stands for, and a user's domains: limestone/dbms_principal.c, lines
-- 134-167, 193-237 and 240-286.
pub mod Www
pub mod Stored
use limestone.Prelude.{
  ℕ, suc, ◌+◌, length, Bool, true, false, ◌&&◌, ◌||◌, not, Option, none, some, List, [], ◌∷◌, ◌++◌,
  map, Bytes, codes, str_eq, ◌==◌, ltb, keep, if◌then◌else◌,
}
use limestone.Store.{
  Principal, UserDomain, Db, M, internal_server_error, pure, fail, ◌>>=◌, ◌>>◌, select, update,
  ignore_error, some_row,
}

-- A row of the join of principals and user_domains.
pub record DomainRow : Type 0 where
  pub id : ℕ
  pub user : Bytes
  pub path : Bytes

abbrev of_principals : UserDomain → List Principal → List DomainRow
of_principals d ps =
    map (λ p. record { id = d.id; user = p.name; path = d.path })
      (keep (λ p. p.resource_id == d.principal_id) ps)

-- FROM principals INNER JOIN user_domains WHERE domain = ?
unfoldable pub domain_rows : Bytes → List Principal → List UserDomain → List DomainRow
domain_rows host ps [] = []
domain_rows host ps (d ∷ ds) =
    let rest = domain_rows host ps ds in
    if str_eq d.domain host then of_principals d ps ++ rest else rest

-- ORDER BY id LIMIT 1
abbrev pub lesser : DomainRow → Option DomainRow → Option DomainRow
lesser r none = some r
lesser r (some q) = if ltb q.id r.id then some q else some r

unfoldable pub least_id : List DomainRow → Option DomainRow
least_id [] = none
least_id (r ∷ rs) = lesser r (least_id rs)

unfoldable pub domain_row : Bytes → Db → Option DomainRow
unfolding domain_rows least_id
domain_row host db = least_id (domain_rows host db.principals db.user_domains)

abbrev pub home_path : DomainRow → Bytes
home_path r = codes "/home/" ++ r.user ++ r.path

-- A query that is refused has no row.
abbrev pub read_domain_row : Bytes → M (Option DomainRow)
read_domain_row host = ignore_error none (select internal_server_error (domain_row host))

abbrev pub is_www : ℕ → ℕ → ℕ → ℕ → Bool
is_www a b c d = str_eq (a ∷ b ∷ c ∷ d ∷ []) (codes "www.")

abbrev pub answer_or : M (Option Bytes) → Option DomainRow → M (Option Bytes)
answer_or next (some r) = pure (some (home_path r))
answer_or next none = next

-- Without the domain, the search goes on behind a "www." in front of it.
unfoldable pub dbms_get_domain_path : Bytes → M (Option Bytes)
unfolding domain_row
dbms_get_domain_path (a ∷ b ∷ c ∷ d ∷ host) = do
  row ← read_domain_row (a ∷ b ∷ c ∷ d ∷ host)
  answer_or
      (λ s.
        let rest = dbms_get_domain_path host s in
        elim (is_www a b c d) [ true ↦ rest | false ↦ pure none s ])
      row
dbms_get_domain_path host = do row ← read_domain_row host; answer_or (pure none) row

-- A user's domains with their paths. The map is NULL where there is none.
abbrev pub pair_of : UserDomain → Bytes × Bytes
pair_of d = (d.domain, d.path)

abbrev pub or_null : List (Bytes × Bytes) → Option (List (Bytes × Bytes))
or_null [] = none
or_null (x ∷ xs) = some (x ∷ xs)

unfoldable pub dbms_get_domain_map : ℕ → M (Option (List (Bytes × Bytes)))
dbms_get_domain_map principal_id = ignore_error none (
    select internal_server_error
      λ db. or_null (map pair_of (keep (λ d. d.principal_id == principal_id) db.user_domains)))

abbrev pub without_domains : ℕ → Db → Db
without_domains principal db = record db {
  user_domains = keep (λ d. not (d.principal_id == principal)) db.user_domains;
}

-- The rows that are inserted, with the ids that the sequence gives.
unfoldable pub domain_values : ℕ → ℕ → List (Bytes × Bytes) → List UserDomain
domain_values principal id [] = []
domain_values principal id ((domain, path) ∷ ds) =
    record { id = id; principal_id = principal; domain = domain; path = path }
    ∷ domain_values principal (suc id) ds

abbrev has_pair_domain : Bytes → List (Bytes × Bytes) → Bool
has_pair_domain domain ds = some_row (λ d. str_eq d.0 domain) ds

-- No domain twice.
unfoldable pub are_distinct : List (Bytes × Bytes) → Bool
unfolding some_row
are_distinct [] = true
are_distinct (d ∷ ds) = not (has_pair_domain d.0 ds) && are_distinct ds

-- The columns domain and path are varchar(255); `char_length` counts characters.
abbrev pub is_too_long : (Bytes → ℕ) → Bytes × Bytes → Bool
is_too_long char_length (domain, path) = ltb 255 (char_length domain) || ltb 255 (char_length path)

-- A value that is too long is refused; PostgreSQL cuts one that is too long by spaces alone, which is
-- not modelled.
unfoldable pub with_domains : (Bytes → ℕ) → ℕ → List (Bytes × Bytes) → Db → Option Db
unfolding domain_values are_distinct some_row
with_domains char_length principal ds db =
    if are_distinct ds && not (some_row (is_too_long char_length) ds)
    then some (record db {
      user_domains = db.user_domains ++ domain_values principal db.user_domains_id_seq ds;
      user_domains_id_seq = db.user_domains_id_seq + length ds;
    })
    else none

-- A question mark in the text of the INSERT is an unset parameter.
abbrev question_mark : ℕ
question_mark = 63

abbrev pub has_mark : Bytes × Bytes → Bool
has_mark (domain, path) =
    some_row (λ c. c == question_mark) domain || some_row (λ c. c == question_mark) path

-- An empty map prints as VALUES (null), which the server refuses.
unfoldable pub insert_domains : (Bytes → ℕ) → ℕ → Option (List (Bytes × Bytes)) → M (Unit {0})
unfolding with_domains some_row
insert_domains char_length principal none = pure tt
insert_domains char_length principal (some []) = update internal_server_error λ db. none
insert_domains char_length principal (some (d ∷ ds)) =
    if some_row has_mark (d ∷ ds)
    then pure tt
    else update internal_server_error (with_domains char_length principal (d ∷ ds))

unfoldable pub dbms_set_domain_map : (Bytes → ℕ) → ℕ → Option (List (Bytes × Bytes)) → M (Unit {0})
unfolding insert_domains
dbms_set_domain_map char_length principal_id domain_map =
    update internal_server_error (λ db. some (without_domains principal_id db))
    >> insert_domains char_length principal_id domain_map
