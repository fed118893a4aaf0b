-- ===== src/Bind/Path/Search.antt =====
-- The rounds of the search of limestone/dbms_bind.c together: what is returned is a route, and where
-- nothing is returned there is none.
use mathlib.Core.Path.{subst}
use mathlib.Core.List.{append-nil}
use limestone.Prelude.{
  ℕ, zero, suc, ◌+◌, ◌≤◌, ◌<◌, ◌≡◌, refl, sym, ap, ◌∙◌, ◌≢◌, inl, inr, true, false, none, some,
  List, [], ◌∷◌, ◌++◌, Bytes, ◌==◌, keep, length, In, In-keep, keep-In, Bool-cases, arith,
}
use limestone.Store.{Bind, Db, Store, Result, ok, err, internal_server_error, select, M}
use limestone.Store.Laws.{select_case, bind-eq-ok, bind-eq-err}
use limestone.Bind.Path.{
  is_in, is_selected, Hash, Scanned, found, more, scan, Outcome, shortest_path, out_of_fuel,
  continue, search_rounds, dbms_find_shortest_path_excl_binds,
}
use limestone.Bind.Path.Hash.{has, unseen}
use limestone.Bind.Path.Route.{Route, Spells}
use limestone.Bind.Path.Scan.{
  Rows, Reached, IsSound, SoundResult, scan_sound, CoversResult, scan_covers,
}

-- What a finished search says.
abbrev pub Answers : List Bind → ℕ → ℕ → List ℕ → Result Outcome → Type 0
Answers bs from to excl (ok (shortest_path (some p))) = Spells bs from to p
Answers bs from to excl (ok (shortest_path none)) =
    excl ≡ [] → (ns : List Bytes) → ¬ Route bs from to ns
Answers bs from to excl (ok out_of_fuel) = ⊥
Answers bs from to excl (err e) = e ≡ internal_server_error

Rows-in : (P : Bind → Type 0) (b : Bind) (rows : List Bind) → Rows P rows → In b rows → P b
Rows-in P b [] r m = elim m [ ]
Rows-in P b (c ∷ rows) (t, r) (inl e) = subst P (sym e) t
Rows-in P b (c ∷ rows) (t, r) (inr m) = Rows-in P b rows r m

In-Rows : {P : Bind → Type 0} (rows : List Bind) → ((b : Bind) → In b rows → P b) → Rows P rows
In-Rows [] f = tt
In-Rows (c ∷ rows) f = (f c (inl refl), In-Rows rows (λ b m. f b (inr m)))

-- The rows that a round selects are rows of the table whose resources have been reached.
selected-Reached :
    (bs : List Bind) (excl fathers : List ℕ) (h : Hash)
    → ((k : ℕ) → has k h ≡ is_in fathers k)
    → Rows (Reached bs h) (keep (is_selected excl fathers) bs)
selected-Reached bs excl fathers h agrees = In-Rows _ λ b m.
    let (inside, test) = In-keep (is_selected excl fathers) b bs m in
    (inside, ground (arith, agrees b.resource_id))

-- Once a round without exclusions adds no forefather, every resource on a route is in the hash.
Route-has :
    (bs : List Bind) (fathers : List ℕ) (h : Hash) (x to : ℕ) (ns : List Bytes)
    → ((k : ℕ) → has k h ≡ is_in fathers k)
    → Rows (λ b. has b.collection_id h ≡ true) (keep (is_selected [] fathers) bs)
    → has to h ≡ true
    → Route bs x to ns
    → has x h ≡ true
Route-has bs fathers h x to [] agrees closed top e = rw e top
Route-has bs fathers h x to (n ∷ ns) agrees closed top (b, m, at, _, rest) =
    let below = Route-has bs fathers h b.resource_id to ns agrees closed top rest in
    rw (← at) (
      Rows-in _ b _ closed
        (keep-In (is_selected [] fathers) b bs m (ground (arith, agrees b.resource_id))))

-- What the loop keeps true from round to round.
record Loop (bs : List Bind) (from to : ℕ) (fathers : List ℕ) (h : Hash) : Type 0 where
  sound : IsSound bs to h
  agrees : (k : ℕ) → has k h ≡ is_in fathers k
  absent : has from h ≡ false
  top : has to h ≡ true

abbrev Answered : Store → ℕ → ℕ → List ℕ → Result Outcome × Store → Type 0
Answered s from to excl (r, s') = Answers s.db.binds from to excl r × (s'.db ≡ s.db)

Answers-weaken :
    (bs : List Bind) (from to : ℕ) (excl : List ℕ) (r : Result Outcome)
    → Answers bs from to [] r
    → Answers bs from to excl r
Answers-weaken bs from to excl (ok (shortest_path (some p))) a = a
Answers-weaken bs from to excl (ok (shortest_path none)) a = λ _. a refl
Answers-weaken bs from to excl (ok out_of_fuel) a = a
Answers-weaken bs from to excl (err e) a = a

continue_answers :
    (s : Store) (from to : ℕ) (excl fathers : List ℕ) (h : Hash) (go : List ℕ → Hash → M Outcome)
    (r : Scanned) (s' : Store)
    → s'.db ≡ s.db
    → Loop s.db.binds from to fathers h
    → SoundResult s.db.binds from to r
    → CoversResult s.db.binds from fathers (keep (is_selected excl fathers) s.db.binds) h [] r
    → ((new : List ℕ) (h' : Hash)
        → Loop s.db.binds from to (fathers ++ new) h'
        → unseen s.db.binds h' < unseen s.db.binds h
        → Answered s' from to [] (go new h' s'))
    → Answered s from to excl (continue go r s')
continue_answers s from to excl fathers h go (found p) s' same loop sound covers step =
    (sound, same)
continue_answers s from to excl fathers h go (more h' []) s' same loop sound covers step = (
  λ e ns route.
      let closed = rw e at covers.closed in
      let everywhere : (k : ℕ) → has k h' ≡ is_in fathers k =
        λ k. covers.agrees k ∙ ap (λ l. is_in l k) (append-nil fathers) in
      let here =
        Route-has s.db.binds fathers h' from to ns everywhere closed (covers.grows to loop.top)
          route in
      cc (sym here ∙ covers.absent),
  same,
)
continue_answers s from to excl fathers h go (more h' (f ∷ fs)) s' same loop sound covers step =
    let next : Loop s.db.binds from to (fathers ++ (f ∷ fs)) h' = record {
      sound = sound;
      agrees = covers.agrees;
      absent = covers.absent;
      top = covers.grows to loop.top;
    } in
    let (answer, kept) = step (f ∷ fs) h' next (omega (arith, covers.fewer)) in
    (
      Answers-weaken s.db.binds from to excl (go (f ∷ fs) h' s').0
          (subst (λ (d : Db). Answers d.binds from to [] (go (f ∷ fs) h' s').0) same answer),
      kept ∙ same,
    )

inside :
    (excl fathers : List ℕ) (s : Store) (b : Bind)
    → In b (keep (is_selected excl fathers) s.db.binds)
    → In b s.db.binds
inside excl fathers s b m = (In-keep (is_selected excl fathers) b s.db.binds m).0

rounds_answer :
    (n from to : ℕ) (excl fathers : List ℕ) (h : Hash) (s : Store)
    → Loop s.db.binds from to fathers h
    → unseen s.db.binds h < n
    → Answered s from to excl (search_rounds n from excl fathers h s)
unfolding search_rounds
rounds_answer zero from to excl fathers h s loop enough = absurd (omega arith)
rounds_answer (suc n) from to excl fathers h s loop enough =
    let query = select internal_server_error (λ db. keep (is_selected excl fathers) db.binds) in
    let go = λ (new : List ℕ) (h' : Hash). search_rounds n from [] (fathers ++ new) h' in
    let rest = λ (rows : List Bind). continue go (scan from rows h []) in
    let rows = keep (is_selected excl fathers) s.db.binds in
    let reached = selected-Reached s.db.binds excl fathers h loop.agrees in
    let (s', same, ended) =
      select_case internal_server_error (λ db. keep (is_selected excl fathers) db.binds) s in
    elim ended [
      | inl refused ↦
          subst (Answered s from to excl) (sym (bind-eq-err query rest s refused)) (refl, same)
      | inr selected ↦ subst (Answered s from to excl) (sym (bind-eq-ok query rest s selected)) (
          continue_answers s from to excl fathers h go (scan from rows h []) s' same loop
            (scan_sound s.db.binds from to rows h [] reached loop.sound)
            (scan_covers s.db.binds from fathers rows h [] (In-Rows rows (inside excl fathers s))
              (λ k. loop.agrees k ∙ ap (λ l. is_in l k) (sym (append-nil fathers))) loop.absent)
            (λ new h' next less.
              rounds_answer n from to [] (fathers ++ new) h' s'
                (subst (λ (d : Db). Loop d.binds from to (fathers ++ new) h') (sym same) next)
                (subst (λ (d : Db). unseen d.binds h' < n) (sym same) (omega arith))))
    ]

unseen-le-length : (bs : List Bind) (h : Hash) → unseen bs h ≤ length bs
unseen-le-length [] h = omega arith
unseen-le-length (b ∷ bs) h = ground (arith, unseen-le-length bs h)

start-Loop : (bs : List Bind) (from to : ℕ) → from ≢ to → Loop bs from to (to ∷ []) ((to, []) ∷ [])
unfolding has is_in
start-Loop bs from to apart = record {
  sound = (([], refl, refl), tt);
  agrees = λ k. ground arith;
  absent = ground arith;
  top = ground arith;
}

-- The search answers, whatever statements the DBMS refuses: with the path of a route between the
-- two resources, or with no path, and then, if no binds were excluded, there is no route, or with
-- the error 500. It does not run out of the fuel that it is given, one round for each bind and one
-- more, and it leaves the database as it is.
pub find_shortest_path_excl_binds-Answers :
    (from to : ℕ) (excl : List ℕ) (s : Store)
    → let (r, s') = dbms_find_shortest_path_excl_binds from to excl s in
      Answers s.db.binds from to excl r × (s'.db ≡ s.db)
unfolding dbms_find_shortest_path_excl_binds
find_shortest_path_excl_binds-Answers from to excl s = elim (Bool-cases (from == to)) [
  | inl same ↦ rw same (([], refl, ground arith), refl)
  | inr apart ↦ rw apart (
      rounds_answer (length s.db.binds + 1) from to excl (to ∷ []) ((to, []) ∷ []) s
        (start-Loop s.db.binds from to (ground arith))
        (omega (arith, unseen-le-length s.db.binds ((to, []) ∷ []))))
]
