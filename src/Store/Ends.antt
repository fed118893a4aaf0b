-- ===== src/Store/Ends.antt =====
-- Why statements end the way they do.
use limestone.Prelude.{
  ◌≡◌, refl, ◌∙◌, ◌⊎◌, inl, inr, Bool, true, false, Option, none, some, List, [], ◌∷◌, In, arith,
}
use limestone.Store.Tables.{Db}
use limestone.Store.Monad.{Status, ok, err, Store, select, update, apply}

-- The statements that are still to come are some of those that were.
abbrev pub Later : Store → Store → Type 0
Later s s' = (b : Bool) → In b s'.faults → In b s.faults

-- How a SELECT ends, with what makes it fail.
pub select_ends :
    {A : Type 0} (e : Status) (f : Db → A) (s : Store)
    → (s' : Store) × (s'.db ≡ s.db)
      × Later s s'
      × ((In true s.faults × (select e f s ≡ (err e, s'))) ⊎ (select e f s ≡ (ok (f s.db), s')))
unfolding select
select_ends e f s = go s.faults refl
  where
    go :
        (l : List Bool)
        → s.faults ≡ l
        → (s' : Store) × (s'.db ≡ s.db)
          × Later s s'
          × ((In true s.faults × (select e f s ≡ (err e, s'))) ⊎ (select e f s ≡ (ok (f s.db), s')))
    go [] p = (s, refl, (λ b m. m), inr (ground (arith, p)))
    go (true ∷ l) p = (
      record s { faults = l },
      refl,
      (λ b m. rw p (inr m)),
      inl (rw p (inl refl), ground (arith, p)),
    )
    go (false ∷ l) p =
        (record s { faults = l }, refl, (λ b m. rw p (inr m)), inr (ground (arith, p)))

-- The next statement is refused.
abbrev pub Refuses : Store → Type 0
Refuses s = (l : List Bool) × (s.faults ≡ true ∷ l)

-- A SELECT fails exactly if it is refused.
pub select_refused :
    {A : Type 0} (e : Status) (f : Db → A) (s : Store)
    → (s' : Store) × (s'.db ≡ s.db)
      × ((Refuses s × (select e f s ≡ (err e, s')))
          ⊎ (¬ Refuses s × (select e f s ≡ (ok (f s.db), s'))))
unfolding select
select_refused e f s = go s.faults refl
  where
    go :
        (l : List Bool)
        → s.faults ≡ l
        → (s' : Store) × (s'.db ≡ s.db)
          × ((Refuses s × (select e f s ≡ (err e, s')))
              ⊎ (¬ Refuses s × (select e f s ≡ (ok (f s.db), s'))))
    go [] p = (s, refl, inr ((λ (l, q). cc (p, q)), ground (arith, p)))
    go (true ∷ l) p = (record s { faults = l }, refl, inl ((l, p), ground (arith, p)))
    go (false ∷ l) p =
        (record s { faults = l }, refl, inr ((λ (m, q). cc (p, q)), ground (arith, p)))

-- How a statement that writes ends, with what makes it fail.
abbrev pub Ended : Status → (Db → Option Db) → Store → Store → Type 0
Ended e f s s' =
    (In true s.faults × (s'.db ≡ s.db) × (update e f s ≡ (err e, s')))
    ⊎ ((f s.db ≡ none) × (s'.db ≡ s.db) × (update e f s ≡ (err e, s')))
    ⊎ ((f s.db ≡ some s'.db) × (update e f s ≡ (ok tt, s')))

applied :
    (e : Status) (o : Option Db) (s : Store)
    → (s' : Store) × (s'.faults ≡ s.faults)
      × (((o ≡ none) × (s'.db ≡ s.db) × (apply e o s ≡ (err e, s')))
          ⊎ ((o ≡ some s'.db) × (apply e o s ≡ (ok tt, s'))))
applied e none s = (s, refl, inl (refl, refl, refl))
applied e (some d) s = (record s { db = d }, refl, inr (refl, refl))

pub update_ends :
    (e : Status) (f : Db → Option Db) (s : Store) → (s' : Store) × Later s s' × Ended e f s s'
unfolding update
update_ends e f s = go s.faults refl
  where
    calm :
        (l : List Bool)
        → Later s (record s { faults = l })
        → update e f s ≡ apply e (f s.db) (record s { faults = l })
        → (s' : Store) × Later s s' × Ended e f s s'
    calm l later run =
        let (s', same, ended) = applied e (f s.db) (record s { faults = l }) in
        (
          s',
          (λ b m. later b (rw same at m)),
          elim ended [
            | inl (o, d, a) ↦ inr (inl (o, d, run ∙ a))
            | inr (o, a) ↦ inr (inr (o, run ∙ a))
          ],
        )

    go : (l : List Bool) → s.faults ≡ l → (s' : Store) × Later s s' × Ended e f s s'
    go [] p = calm [] (λ b m. elim m [ ]) (rw p refl)
    go (true ∷ l) p =
        (record s { faults = l }, (λ b m. rw p (inr m)), inl (rw p (inl refl), refl, rw p refl))
    go (false ∷ l) p = calm l (λ b m. rw p (inr m)) (rw p refl)
