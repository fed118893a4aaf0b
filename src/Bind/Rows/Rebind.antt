-- ===== src/Bind/Rows/Rebind.antt =====
-- Moving a bind: `dbms_rebind_resource`, limestone/dbms_bind.c, lines 484-508.
use mathlib.Core.Path.{subst}
use mathlib.Core.Option.{some-injective}
use limestone.Prelude.{
  ℕ, ◌≡◌, refl, ap, ◌∙◌, ◌⊎◌, inl, inr, ◌↔◌, Bool, true, false, Option, none, some, List, [], ◌∷◌,
  Bytes, In, Bool-cases, arith,
}
use limestone.Store.{Bind, Db, Store, Result, ok, err, internal_server_error}
use limestone.Store.Laws.{update-holds}
use limestone.Bind.Rows.{
  is_at, first_row, find_bind, move_rows, moved_to, is_taken, moved, dbms_rebind_resource,
}
use limestone.Bind.Rows.Unique.{find_bind-none}

-- The row as it is after the move.
abbrev pub at_target : ℕ → ℕ → Bytes → Bind → Bind
at_target now coll name b = record b { collection_id = coll; name = name; updated_at = now }

module _ (now src_coll : ℕ) (src_name : Bytes) (dst_coll : ℕ) (dst_name : Bytes) where
  -- A row of the new table: one that was not at the source, or the one from there.
  abbrev pub IsRow : List Bind → Bind → Type 0
  IsRow old b =
      (In b old × (is_at src_coll src_name b ≡ false))
      ⊎ ((a : Bind) × In a old
          × (is_at src_coll src_name a ≡ true)
          × (b ≡ at_target now dst_coll dst_name a))

  IsRow-later : (c : Bind) (bs : List Bind) (b : Bind) → IsRow bs b → IsRow (c ∷ bs) b
  IsRow-later c bs b (inl (m, off)) = inl (inr m, off)
  IsRow-later c bs b (inr (a, m, at, e)) = inr (a, inr m, at, e)

  move_rows_sound :
      (bs : List Bind) (b : Bind)
      → In b (move_rows now src_coll src_name dst_coll dst_name bs)
      → IsRow bs b
  unfolding move_rows
  move_rows_sound [] b m = elim m [ ]
  move_rows_sound (c ∷ bs) b (inr m) = IsRow-later c bs b (move_rows_sound bs b m)
  move_rows_sound (c ∷ bs) b (inl e) = elim (Bool-cases (is_at src_coll src_name c)) [
    | inl at ↦
        let e' : b ≡ at_target now dst_coll dst_name c = rw at at e in inr (c, inl refl, at, e')
    | inr off ↦ let e' : b ≡ c = rw off at e in inl (inl e', rw e' off)
  ]

  move_rows_complete :
      (bs : List Bind) (b : Bind)
      → IsRow bs b
      → In b (move_rows now src_coll src_name dst_coll dst_name bs)
  unfolding move_rows
  move_rows_complete [] b (inl (m, off)) = elim m [ ]
  move_rows_complete [] b (inr (a, m, at, e)) = elim m [ ]
  move_rows_complete (c ∷ bs) b (inl (inl e, off)) =
      let off' : is_at src_coll src_name c ≡ false = rw (← e) off in rw off' (inl e)
  move_rows_complete (c ∷ bs) b (inl (inr m, off)) = inr (move_rows_complete bs b (inl (m, off)))
  move_rows_complete (c ∷ bs) b (inr (a, inl q, at, e)) =
      let at' : is_at src_coll src_name c ≡ true = rw (← q) at in
      rw at' (inl (e ∙ ap (at_target now dst_coll dst_name) q))
  move_rows_complete (c ∷ bs) b (inr (a, inr m, at, e)) =
      inr (move_rows_complete bs b (inr (a, m, at, e)))

  -- What a move comes to: the rows are those of the table with the one at the source moved, and if
  -- there is one, only it is at the target.
  abbrev pub Moved : Db → Result (Unit {0}) × Store → Type 0
  Moved db (ok _, s') =
      ((b : Bind) → In b s'.db.binds ↔ IsRow db.binds b)
      × ((c : Bind)
          → find_bind src_coll src_name db.binds ≡ some c
          → (b : Bind) → In b s'.db.binds
          → is_at dst_coll dst_name b ≡ true
          → (a : Bind) × (is_at src_coll src_name a ≡ true)
            × (b ≡ at_target now dst_coll dst_name a))
  Moved db (err e, s') = s'.db ≡ db

  first_row-none :
      (p : Bind → Bool) (bs : List Bind) (b : Bind) → first_row p bs ≡ none → In b bs → p b ≡ false
  unfolding first_row
  first_row-none p [] b e m = elim m [ ]
  first_row-none p (c ∷ bs) b e m = elim (Bool-cases (p c)) [
    | inl t ↦ let e' : some c ≡ none = rw t at e in absurd (cc e')
    | inr f ↦
        let e' : first_row p bs ≡ none = rw f at e in
        elim m [ inl q ↦ rw q f | inr m' ↦ first_row-none p bs b e' m' ]
  ]

  Moved-end :
      (db : Db) (s' : Store) (src taken : Option Bind)
      → find_bind src_coll src_name db.binds ≡ src
      → first_row (is_taken src_coll src_name dst_coll dst_name) db.binds ≡ taken
      → moved_to (move_rows now src_coll src_name dst_coll dst_name db.binds) db src taken
        ≡ some s'.db
      → Moved db (ok tt, s')
  Moved-end db s' none taken empty _ e =
      subst (λ (d : Db). Moved db (ok tt, record s' { db = d })) (some-injective db s'.db e)
        (
          λ b. (
            λ m. inl (m, find_bind-none src_coll src_name db.binds b empty m),
            λ r. elim r [
              | inl (m, off) ↦ m
              | inr (a, m, at, q) ↦
                  absurd (cc (at, find_bind-none src_coll src_name db.binds a empty m))
            ],
          ),
          λ c there. absurd (cc (empty, there)),
        )
  Moved-end db s' (some c) none _ free e =
      let rows = move_rows now src_coll src_name dst_coll dst_name db.binds in
      subst (λ (d : Db). Moved db (ok tt, record s' { db = d })) (some-injective _ s'.db e)
        (
          λ b. (move_rows_sound db.binds b, move_rows_complete db.binds b),
          λ x there b m at. elim (move_rows_sound db.binds b m) [
            | inl (inside, off) ↦
                let clash =
                  first_row-none (is_taken src_coll src_name dst_coll dst_name) db.binds b free
                    inside in
                absurd (ground (arith, at, off, clash))
            | inr (a, _, from, q) ↦ (a, from, q)
          ],
        )
  Moved-end db s' (some c) (some d) _ _ e = absurd (cc e)

-- Whatever statements the DBMS refuses: a move of a bind that reports no error leaves the rows that
-- were not at the source, and those that were there with the place of the target and the time; if there
-- was one, nothing else is at the target then. A move that reports an error has changed nothing.
pub rebind_resource-Moved :
    (now src_coll : ℕ) (src_name : Bytes) (dst_coll : ℕ) (dst_name : Bytes) (s : Store)
    → Moved now src_coll src_name dst_coll dst_name s.db
        (dbms_rebind_resource now src_coll src_name dst_coll dst_name s)
unfolding dbms_rebind_resource
rebind_resource-Moved now src_coll src_name dst_coll dst_name s =
    update-holds (Moved now src_coll src_name dst_coll dst_name s.db) internal_server_error
      (moved now src_coll src_name dst_coll dst_name) s
      (λ s' e. Moved-end now src_coll src_name dst_coll dst_name s.db s' _ _ refl refl e)
      (λ s' same. same)
