-- ===== src/Principal/Domain/Www.antt =====
-- The search for a domain: limestone/dbms_principal.c, lines 250-286.
use mathlib.Core.Path.{subst}
use limestone.Prelude.{
  ℕ, suc, ◌+◌, ◌*◌, ◌≤◌, ◌≡◌, refl, sym, ◌∙◌, ◌⊎◌, inl, inr, Bool, true, false, Option, none, some,
  List, [], ◌∷◌, Bytes, length, In, Bool-cases, if◌then◌else◌, arith,
}
use limestone.Store.{Store, Result, ok, err, pure, behind, select, ignore_error, M}
use limestone.Principal.Domain.{
  DomainRow, domain_row, home_path, read_domain_row, is_www, answer_or, dbms_get_domain_path,
}

-- The host, and what is left of it without one "www." in front after the other.
abbrev pub stripped : Bytes → List Bytes
stripped (a ∷ b ∷ c ∷ d ∷ host) =
    (a ∷ b ∷ c ∷ d ∷ host) ∷ (if is_www a b c d then stripped host else [])
stripped host = host ∷ []

-- A reading that ends, with the statement that it costs.
read_domain_row-end :
    (host : Bytes) (s : Store)
    → (o : Option DomainRow) × (s' : Store) × (read_domain_row host s ≡ (ok o, s'))
      × (s'.db ≡ s.db)
      × ((o ≡ none) ⊎ (o ≡ domain_row host s.db))
      × (length s.faults ≤ suc (length s'.faults))
unfolding select ignore_error
read_domain_row-end host s = go s.faults refl
  where
    go :
        (l : List Bool)
        → s.faults ≡ l
        → (o : Option DomainRow) × (s' : Store) × (read_domain_row host s ≡ (ok o, s'))
          × (s'.db ≡ s.db)
          × ((o ≡ none) ⊎ (o ≡ domain_row host s.db))
          × (length s.faults ≤ suc (length s'.faults))
    go [] p = (domain_row host s.db, s, rw p (ground (arith, p)), refl, inr refl, omega arith)
    go (true ∷ l) p =
        (none, record s { faults = l }, ground (arith, p), refl, inl refl, rw p (omega arith))
    go (false ∷ l) p = (
      domain_row host s.db,
      record s { faults = l },
      ground (arith, p),
      refl,
      inr refl,
      rw p (omega arith),
    )

-- What the search comes to, with the number of its statements.
abbrev pub Searched : List Bytes → ℕ → Store → Result (Option Bytes) × Store → Type 0
Searched hosts n s (ok none, s') = (s'.db ≡ s.db) × (4 * length s.faults ≤ 4 * length s'.faults + n)
Searched hosts n s (ok (some p), s') =
    (s'.db ≡ s.db)
    × (4 * length s.faults ≤ 4 * length s'.faults + n)
    × ((host : Bytes) × (r : DomainRow) × (In host hosts
          × (domain_row host s.db ≡ some r)
          × (p ≡ home_path r)))
Searched hosts n s (err e, s') = ⊥

-- A search behind a statement without a row.
later-Searched :
    (hosts : List Bytes) (first : Bytes) (n : ℕ) (s s1 : Store) (r : Result (Option Bytes) × Store)
    → s1.db ≡ s.db
    → length s.faults ≤ suc (length s1.faults)
    → Searched hosts n s1 r
    → Searched (first ∷ hosts) (n + 4) s r
later-Searched hosts first n s s1 (ok none, s2) same cost (same2, m) =
    (same2 ∙ same, omega (arith, cost, m))
later-Searched hosts first n s s1 (ok (some p), s2) same cost (same2, m, (host, r, (i, at, e))) =
    (same2 ∙ same, omega (arith, cost, m), (host, r, (inr i, rw (← same) at, e)))
later-Searched hosts first n s s1 (err e, s2) same cost q = elim q [ ]

-- An answer from the row at hand, or from the search behind it.
answer-Searched :
    (hosts : List Bytes) (host : Bytes) (n : ℕ) (s : Store) (next : M (Option Bytes))
    → ((s1 : Store) → Searched hosts n s1 (next s1))
    → Searched (host ∷ hosts) (n + 4) s (behind (answer_or next) (read_domain_row host s))
answer-Searched hosts host n s next later =
    let (o, s1, e, same, found, cost) = read_domain_row-end host s in
    subst (λ r. Searched (host ∷ hosts) (n + 4) s (behind (answer_or next) r)) (sym e)
      (go o s1 same found cost)
  where
    go :
        (o : Option DomainRow) (s1 : Store)
        → s1.db ≡ s.db
        → (o ≡ none) ⊎ (o ≡ domain_row host s.db)
        → length s.faults ≤ suc (length s1.faults)
        → Searched (host ∷ hosts) (n + 4) s (answer_or next o s1)
    go none s1 same found cost = later-Searched hosts host n s s1 (next s1) same cost (later s1)
    go (some r) s1 same (inl absent) cost = absurd (cc absent)
    go (some r) s1 same (inr at) cost =
        (same, omega (arith, cost), (host, r, (inl refl, sym at, refl)))

weaken :
    (hosts : List Bytes) (n m : ℕ) (s : Store) (r : Result (Option Bytes) × Store)
    → n ≤ m
    → Searched hosts n s r
    → Searched hosts m s r
weaken hosts n m s (ok none, s1) h (same, k) = (same, omega (arith, h, k))
weaken hosts n m s (ok (some p), s1) h (same, k, found) = (same, omega (arith, h, k), found)
weaken hosts n m s (err e, s1) h q = elim q [ ]

-- A host too short for a "www." costs one statement.
short-Searched :
    (host : Bytes) (s : Store)
    → Searched
        (host ∷ [])
        (length host + 4)
        s
        (behind (answer_or (pure none)) (read_domain_row host s))
short-Searched host s =
    weaken (host ∷ []) (0 + 4) (length host + 4) s _ (omega arith)
      (answer-Searched [] host 0 s (pure none) (λ s1. (refl, omega arith)))

-- Whatever statements the DBMS refuses: the search for a domain ends, behind at most one statement and
-- one more for every four bytes of the host, with nothing written; a folder that it returns is that
-- of the row for the host or for what is left of it behind one or more "www." in front.
pub get_domain_path-Searched :
    (host : Bytes) (s : Store)
    → Searched (stripped host) (length host + 4) s (dbms_get_domain_path host s)
unfolding dbms_get_domain_path
get_domain_path-Searched (a ∷ b ∷ c ∷ d ∷ host) s =
    weaken (stripped (a ∷ b ∷ c ∷ d ∷ host)) (length host + 4 + 4)
      (length (a ∷ b ∷ c ∷ d ∷ host) + 4) s _ (omega arith)
      (answer-Searched (if is_www a b c d then stripped host else []) (a ∷ b ∷ c ∷ d ∷ host)
        (length host + 4) s _
        (λ s1. elim (Bool-cases (is_www a b c d)) [
          | inl e ↦ rw e (get_domain_path-Searched host s1)
          | inr e ↦ rw e (refl, omega arith)
        ]))
get_domain_path-Searched [] s = short-Searched [] s
get_domain_path-Searched (a ∷ []) s = short-Searched (a ∷ []) s
get_domain_path-Searched (a ∷ b ∷ []) s = short-Searched (a ∷ b ∷ []) s
get_domain_path-Searched (a ∷ b ∷ c ∷ []) s = short-Searched (a ∷ b ∷ c ∷ []) s
