-- ===== src/Bind/Path/Scan.antt =====
-- What one round of the search of limestone/dbms_bind.c does to the hash and the new forefathers.
use mathlib.Core.Path.{subst, subst₂}
use native.Mathlib.Nat.{le_refl}
use limestone.Prelude.{
  ℕ, ◌+◌, ◌≤◌, ◌≡◌, refl, sym, ap, inl, inr, true, false, some, List, [], ◌∷◌, ◌++◌, Bytes, ◌==◌,
  length, In, Bool-cases, Option-cases, length-append, arith,
}
use limestone.Store.{Bind}
use limestone.Bind.Path.{is_in, Hash, hash_get, parent_path, Scanned, found, more, scan}
use limestone.Bind.Path.Hash.{has, is_in-append, unseen, has-cons, unseen-cons-lt}
use limestone.Bind.Path.Route.{Spells}
use limestone.Text.Uri.{slash}

-- The rows are rows of the table, and their resources are in the hash.
abbrev pub Rows : (Bind → Type 0) → List Bind → Type 0
Rows P [] = Unit
Rows P (b ∷ rows) = P b × Rows P rows

-- Every path in the hash leads to the resource searched from.
abbrev pub IsSound : List Bind → ℕ → Hash → Type 0
IsSound bs to [] = Unit
IsSound bs to ((k, p) ∷ h) = Spells bs k to p × IsSound bs to h

IsSound-get :
    (bs : List Bind) (to k : ℕ) (p : Bytes) (h : Hash)
    → IsSound bs to h
    → hash_get k h ≡ some p
    → Spells bs k to p
unfolding hash_get
IsSound-get bs to k p [] s e = absurd (cc)
IsSound-get bs to k p ((j, q) ∷ h) (t, s) e = elim (Bool-cases (j == k)) [
  | inl same ↦
      let e1 : j ≡ k = ground arith in
      let e2 : q ≡ p = ground (arith, same) in subst₂ (λ x y. Spells bs x to y) e1 e2 t
  | inr other ↦ IsSound-get bs to k p h s (rw other at e)
]

Rows-map :
    {P Q : Bind → Type 0} (rows : List Bind) → ((b : Bind) → P b → Q b) → Rows P rows → Rows Q rows
Rows-map [] f r = tt
Rows-map (b ∷ rows) f (t, r) = (f b t, Rows-map rows f r)

-- A row of the table whose resource has been reached.
abbrev pub Reached : List Bind → Hash → Bind → Type 0
Reached bs h b = In b bs × (has b.resource_id h ≡ true)

Reached-cons :
    (bs : List Bind) (h : Hash) (j : ℕ) (p : Bytes) (b : Bind)
    → Reached bs h b
    → Reached bs ((j, p) ∷ h) b
Reached-cons bs h j p b (m, r) = (m, ground (arith, has-cons b.resource_id j p h))

abbrev pub SoundResult : List Bind → ℕ → ℕ → Scanned → Type 0
SoundResult bs from to (found p) = Spells bs from to p
SoundResult bs from to (more h news) = IsSound bs to h

-- The path that is computed for a row leads on from the row's collection.
Spells-parent :
    (bs : List Bind) (to : ℕ) (h : Hash) (b : Bind)
    → IsSound bs to h
    → Reached bs h b
    → Spells bs b.collection_id to (parent_path b (hash_get b.resource_id h))
unfolding has
Spells-parent bs to h b sound (m, r) = elim (Option-cases (hash_get b.resource_id h)) [
  | inl absent ↦ absurd (ground (arith, absent))
  | inr (p, e) ↦
      let (ns, spelled, route) = IsSound-get bs to b.resource_id p h sound e in
      rw e (b.name ∷ ns, ap (λ t. slash ∷ b.name ++ t) spelled, (b, m, refl, refl, route))
]

-- The three ways in which a row is treated.
data RowCase (from : ℕ) (b : Bind) (rows : List Bind) (h : Hash) (news : List ℕ) : Type 0 where
  seen :
      has b.collection_id h ≡ true
      → scan from (b ∷ rows) h news ≡ scan from rows h news
      → RowCase from b rows h news
  arrived :
      has b.collection_id h ≡ false
      → b.collection_id ≡ from
      → scan from (b ∷ rows) h news ≡ found (parent_path b (hash_get b.resource_id h))
      → RowCase from b rows h news
  fresh :
      has b.collection_id h ≡ false
      → (b.collection_id == from) ≡ false
      → scan from (b ∷ rows) h news
        ≡ scan from rows
            ((b.collection_id, parent_path b (hash_get b.resource_id h)) ∷ h)
            (news ++ (b.collection_id ∷ []))
      → RowCase from b rows h news

row_case :
    (from : ℕ) (b : Bind) (rows : List Bind) (h : Hash) (news : List ℕ) → RowCase from b rows h news
unfolding scan has
row_case from b rows h news = elim (Option-cases (hash_get b.collection_id h)) [
  | inr (p, e) ↦ seen (rw e) (rw (e, scan))
  | inl e ↦ elim (Bool-cases (b.collection_id == from)) [
    | inl here ↦ arrived (rw e) (ground arith) (rw (e, scan) (rw here))
    | inr other ↦ fresh (rw e) other (rw (e, scan) (rw other))
  ]
]

pub scan_sound :
    (bs : List Bind) (from to : ℕ) (rows : List Bind) (h : Hash) (news : List ℕ)
    → Rows (Reached bs h) rows
    → IsSound bs to h
    → SoundResult bs from to (scan from rows h news)
unfolding scan
scan_sound bs from to [] h news reached sound = sound
scan_sound bs from to (b ∷ rows) h news (r, reached) sound = elim (row_case from b rows h news) [
  | seen _ e ↦
      subst (SoundResult bs from to) (sym e) (scan_sound bs from to rows h news reached sound)
  | arrived _ here e ↦ subst (SoundResult bs from to) (sym e) (
      subst (λ x. Spells bs x to (parent_path b (hash_get b.resource_id h))) here
        (Spells-parent bs to h b sound r))
  | fresh new other e ↦
      let path = parent_path b (hash_get b.resource_id h) in
      subst (SoundResult bs from to) (sym e) (
        scan_sound bs from to rows ((b.collection_id, path) ∷ h) (news ++ (b.collection_id ∷ []))
          (Rows-map rows (Reached-cons bs h b.collection_id path) reached)
          (Spells-parent bs to h b sound r, sound))
]

-- What the scan leaves where it does not return: every key of the hash is in the list of
-- forefathers, old or new, and the other way round, the collections of the rows are among them and
-- the collection searched for is not, and each new forefather has one bind fewer unseen.
pub record Covers (bs : List Bind) (from : ℕ) (fathers : List ℕ) (rows : List Bind) (h : Hash)
    (news : List ℕ) (h' : Hash) (news' : List ℕ) : Type 0 where
  pub agrees : (k : ℕ) → has k h' ≡ is_in (fathers ++ news') k
  pub grows : (k : ℕ) → has k h ≡ true → has k h' ≡ true
  pub closed : Rows (λ b. has b.collection_id h' ≡ true) rows
  pub absent : has from h' ≡ false
  pub fewer : unseen bs h' + length news' ≤ unseen bs h + length news

abbrev pub CoversResult : List Bind → ℕ → List ℕ → List Bind → Hash → List ℕ → Scanned → Type 0
CoversResult bs from fathers rows h news (found p) = Unit
CoversResult bs from fathers rows h news (more h' news') =
    Covers bs from fathers rows h news h' news'

covers_seen :
    (bs : List Bind) (from : ℕ) (fathers : List ℕ) (b : Bind) (rows : List Bind) (h : Hash)
    (news : List ℕ) (r : Scanned)
    → has b.collection_id h ≡ true
    → CoversResult bs from fathers rows h news r
    → CoversResult bs from fathers (b ∷ rows) h news r
covers_seen bs from fathers b rows h news (found p) old c = tt
covers_seen bs from fathers b rows h news (more h' news') old c = record {
  agrees = c.agrees;
  grows = c.grows;
  closed = (c.grows b.collection_id old, c.closed);
  absent = c.absent;
  fewer = c.fewer;
}

covers_fresh :
    (bs : List Bind) (from : ℕ) (fathers : List ℕ) (b : Bind) (p : Bytes) (rows : List Bind)
    (h : Hash) (news : List ℕ) (r : Scanned)
    → In b bs
    → has b.collection_id h ≡ false
    → CoversResult bs from fathers rows
        ((b.collection_id, p) ∷ h)
        (news ++ (b.collection_id ∷ []))
        r
    → CoversResult bs from fathers (b ∷ rows) h news r
covers_fresh bs from fathers b p rows h news (found q) m new c = tt
covers_fresh bs from fathers b p rows h news (more h' news') m new c =
    let old = λ (k : ℕ). has-cons k b.collection_id p h in
    record {
      agrees = c.agrees;
      grows = λ k e. c.grows k (ground (arith, old k));
      closed = (c.grows b.collection_id (ground (arith, old b.collection_id)), c.closed);
      absent = c.absent;
      fewer = omega (
        arith,
        c.fewer,
        unseen-cons-lt b p h bs m new,
        length-append news (b.collection_id ∷ []),
      );
    }

agrees_cons :
    (fathers news : List ℕ) (j : ℕ) (p : Bytes) (h : Hash)
    → ((k : ℕ) → has k h ≡ is_in (fathers ++ news) k)
    → (k : ℕ) → has k ((j, p) ∷ h) ≡ is_in (fathers ++ (news ++ (j ∷ []))) k
unfolding is_in
agrees_cons fathers news j p h agrees k = ground (
  arith,
  has-cons k j p h,
  agrees k,
  is_in-append k fathers news,
  is_in-append k fathers (news ++ (j ∷ [])),
  is_in-append k news (j ∷ []),
)

pub scan_covers :
    (bs : List Bind) (from : ℕ) (fathers : List ℕ) (rows : List Bind) (h : Hash) (news : List ℕ)
    → Rows (λ b. In b bs) rows
    → ((k : ℕ) → has k h ≡ is_in (fathers ++ news) k)
    → has from h ≡ false
    → CoversResult bs from fathers rows h news (scan from rows h news)
unfolding scan
scan_covers bs from fathers [] h news inside agrees absent = record {
  agrees = agrees;
  grows = λ k e. e;
  closed = tt;
  absent = absent;
  fewer = le_refl _;
}
scan_covers bs from fathers (b ∷ rows) h news (m, inside) agrees absent =
    elim (row_case from b rows h news) [
      | seen old e ↦ rw e (
          covers_seen bs from fathers b rows h news (scan from rows h news) old
            (scan_covers bs from fathers rows h news inside agrees absent))
      | arrived _ here e ↦ rw e tt
      | fresh new other e ↦
          let p = parent_path b (hash_get b.resource_id h) in
          let news' = news ++ (b.collection_id ∷ []) in
          rw e (
            covers_fresh bs from fathers b p rows h news
              (scan from rows ((b.collection_id, p) ∷ h) news') m new
              (scan_covers bs from fathers rows ((b.collection_id, p) ∷ h) news' inside
                (agrees_cons fathers news b.collection_id p h agrees)
                (ground (arith, has-cons from b.collection_id p h))))
    ]
