-- ===== src/Acl/Allow/Decision.antt =====
-- What the check of a privilege answers: limestone/dbms_acl.c, lines 454-573.
use limestone.Prelude.{
  ℕ, ◌≡◌, refl, sym, ◌⊎◌, inl, inr, true, false, Option, none, some, List, ◌∷◌, ◌==◌, length,
  Bool-cases, ◌≢◌, ==_iff, str_eq, str_eq_iff, arith,
}
use mathlib.Core.Path.{subst}
use limestone.Store.{Store, Result, internal_server_error}
use limestone.Store.Ends.{Refuses, select_refused}
use limestone.Acl.Allow.{
  Question, Answer, answers, AceCache, int_of, concluded, query_allow, is_hit, unless_cached,
  dbms_is_allow,
}
use limestone.Acl.Allow.Rule.{IsRuled, decided, granted-IsRuled}

-- The cache has the answer to the question about the principal.
abbrev pub Hits : Question → ℕ → AceCache → Type 0
Hits q p c = (c.principal_id ≡ p) × (c.priv_ns_id ≡ q.priv_ns_id) × (c.privilege ≡ q.privilege)

Hits-is_hit : (q : Question) (p : ℕ) (c : AceCache) → is_hit q p c ≡ true → Hits q p c
Hits-is_hit q p c t =
    let name : str_eq c.privilege q.privilege ≡ true = ground (arith, t) in
    (ground (arith, t), ground (arith, t), (str_eq_iff c.privilege q.privilege).0 name)

is_hit-Hits : (q : Question) (p : ℕ) (c : AceCache) → is_hit q p c ≡ false → ¬ Hits q p c
is_hit-Hits q p c f (a, b, e) =
    let name : str_eq c.privilege q.privilege ≡ true = (str_eq_iff c.privilege q.privilege).1 e in
    ground (arith, a, b, name, f)

-- The query was refused, or it gave the answer.
abbrev pub Asked : (List ℕ → ℕ) → Question → ℕ → Store → (ℕ × Option AceCache) × Store → Type 0
Asked char_length q p s ((n, c'), s') =
    (s'.db ≡ s.db) × ((Refuses s × (n ≡ 500)) ⊎ (¬ Refuses s × IsRuled char_length q p s.db n))

-- What the answer comes to: for the super user, from the cache, or from the query.
abbrev pub Decided :
    (List ℕ → ℕ) → Question → ℕ → Option AceCache → Store → (ℕ × Option AceCache) × Store → Type 0
Decided char_length q p cache s res =
    ((p ≡ 1) × (res ≡ ((1, cache), s)))
    ⊎ ((p ≢ 1)
        × (c : AceCache) × (cache ≡ some c)
        × Hits q p c
        × (res ≡ ((int_of c.is_allow, cache), s)))
    ⊎ ((p ≢ 1) × ((c : AceCache) → cache ≡ some c → ¬ Hits q p c) × Asked char_length q p s res)

query_allow-Asked :
    (char_length : List ℕ → ℕ) (q : Question) (p : ℕ) (ps : List ℕ) (cache : Option AceCache)
    (s : Store)
    → Asked char_length q p s (query_allow char_length q (p ∷ ps) cache s)
unfolding query_allow
query_allow-Asked char_length q p ps cache s =
    let ask = answers char_length q 1 (p ∷ ps) in
    let P = λ (x : Result (List Answer) × Store).
      Asked char_length q p s (concluded q (p ∷ ps) cache x) in
    let (s', same, ended) = select_refused internal_server_error ask s in
    elim ended [
      | inl (refused, run) ↦ subst P (sym run) (same, inl (refused, refl))
      | inr (allowed, run) ↦ subst P (sym run) (
        same,
        inr (
          allowed,
          subst (λ b. IsRuled char_length q p s.db (int_of b))
              (sym (decided char_length q p (length (p ∷ ps)) ps cache s.db))
              (granted-IsRuled char_length q p s.db),
        ),
      )
    ]

-- Whatever statements the DBMS refuses: the super user, principal 1, is answered 1. For another one an
-- answer that the cache has for the principal and the privilege is given again, without a statement.
-- Without one, nothing is written, and the answer is 500 exactly if the DBMS refuses the query. Else it
-- is what the first of the entries that apply to the principal itself says, and 0 where none
-- applies; entries count in the order of protected ones,
-- longer paths and lower ids. The principals behind the first in the list do not matter.
pub is_allow-Decided :
    (char_length : List ℕ → ℕ) (q : Question) (p : ℕ) (ps : List ℕ) (cache : Option AceCache)
    (s : Store)
    → Decided char_length q p cache s (dbms_is_allow char_length q p ps cache s)
unfolding dbms_is_allow
is_allow-Decided char_length q p ps cache s = elim (Bool-cases (p == 1)) [
  | inl t ↦ rw t (inl ((==_iff p 1).0 t, refl))
  | inr f ↦ let other : p ≢ 1 = λ e. let t = (==_iff p 1).1 e in cc (t, f) in rw f (go other cache)
]
  where
    go :
        p ≢ 1
        → (cache : Option AceCache)
        → Decided char_length q p cache s
            (unless_cached q p cache (query_allow char_length q (p ∷ ps) cache) s)
    go other none =
        inr (inr (other, (λ c e. absurd (cc e)), query_allow-Asked char_length q p ps none s))
    go other (some c) = elim (Bool-cases (is_hit q p c)) [
      | inl t ↦ rw t (inr (inl (other, c, refl, Hits-is_hit q p c t, refl)))
      | inr f ↦ rw f (
          inr (
            inr (
              other,
              (λ d e.
                  let same : c ≡ d = cc e in subst (λ d. ¬ Hits q p d) same (is_hit-Hits q p c f)),
              query_allow-Asked char_length q p ps (some c) s,
            )))
    ]
