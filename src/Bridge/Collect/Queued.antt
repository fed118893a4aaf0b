-- ===== src/Bridge/Collect/Queued.antt =====
-- The requests that are queued: limestone/dbms_bind.c, lines 620-690.
use limestone.Prelude.{
  ℕ, ◌+◌, ◌≤◌, ◌<◌, ◌≡◌, refl, sym, ap, ◌⊎◌, inl, inr, ◌↔◌, ◌∙◌, none, some, List, [], ◌∷◌, ltb,
  length, In, Bool-cases, arith,
}
use limestone.Store.{Cleanup}
use limestone.Bind.Path.{is_in}
use limestone.Bind.Path.Listed.{is_in_iff}
use limestone.Bind.Cleanup.{union, queue_up, count, first_request}

-- No resource is asked for twice.
abbrev pub AreOnce : List Cleanup → Type 0
AreOnce [] = Unit {0}
AreOnce (x ∷ xs) = ((y : Cleanup) → In y xs → ¬ (y.resource_id ≡ x.resource_id)) × AreOnce xs

union_iff : (seen l : List ℕ) (i : ℕ) → In i (union seen l) ↔ (In i l × ¬ In i seen)
unfolding union
union_iff seen [] i = ((λ m. elim m [ ]), λ (m, _). elim m [ ])
union_iff seen (j ∷ js) i = elim (Bool-cases (is_in seen j)) [
  | inl t ↦
      let (to, from) = union_iff seen js i in
      rw t (
        (λ m. let (n, o) = to m in (inr n, o)),
        λ (m, o). elim m [
          | inl q ↦ absurd (o (rw q ((is_in_iff seen j).0 t)))
          | inr n ↦ from (n, o)
        ],
      )
  | inr f ↦
      let (to, from) = union_iff (j ∷ seen) js i in
      let new : ¬ In j seen = λ m. let t = (is_in_iff seen j).1 m in absurd (cc (t, f)) in
      rw f (
        (λ m. elim m [
          | inl q ↦ (inl q, rw q new)
          | inr n ↦ let (a, o) = to n in (inr a, λ k. o (inr k))
        ]),
        λ (m, o). elim m [
          | inl q ↦ inl q
          | inr n ↦ elim (Bool-cases (is_in (j ∷ []) i)) [
            | inl t ↦ elim ((is_in_iff (j ∷ []) i).0 t) [ inl q ↦ inl q | inr past ↦ elim past [ ] ]
            | inr g ↦ inr (
                from (
                  n,
                  λ k. elim k [
                    | inl q ↦ let t = (is_in_iff (j ∷ []) i).1 (inl q) in absurd (cc (t, g))
                    | inr k' ↦ o k'
                  ],
                ))
          ]
        ],
      )
]

pub queued-In :
    (ids : List ℕ) (seq : ℕ) (y : Cleanup)
    → In y (queue_up ids seq)
    → In y.resource_id ids × (seq ≤ y.id) × (y.id < seq + length (queue_up ids seq))
unfolding queue_up
queued-In [] seq y m = elim m [ ]
queued-In (i ∷ ids) seq y (inl q) =
    let e : y.id ≡ seq = ap (λ (z : Cleanup). z.id) q in
    (inl (ap (λ (z : Cleanup). z.resource_id) q), omega (arith, e), omega (arith, e))
queued-In (i ∷ ids) seq y (inr m) =
    let (n, low, high) = queued-In ids (seq + 1) y m in
    (inr n, omega (arith, low), omega (arith, high))

In-queued :
    (ids : List ℕ) (seq i : ℕ)
    → In i ids
    → (y : Cleanup) × In y (queue_up ids seq) × (y.resource_id ≡ i)
unfolding queue_up
In-queued [] seq i m = elim m [ ]
In-queued (j ∷ ids) seq i (inl q) = (record { id = seq; resource_id = j }, inl refl, sym q)
In-queued (j ∷ ids) seq i (inr m) = let (y, n, e) = In-queued ids (seq + 1) i m in (y, inr n, e)

AreOnce-union : (seen l : List ℕ) (seq : ℕ) → AreOnce (queue_up (union seen l) seq)
unfolding union queue_up
AreOnce-union seen [] seq = tt
AreOnce-union seen (j ∷ js) seq = elim (Bool-cases (is_in seen j)) [
  | inl t ↦ rw t (AreOnce-union seen js seq)
  | inr f ↦ rw f (
    λ y m e.
        let (n, _, _) = queued-In (union (j ∷ seen) js) (seq + 1) y m in
        let (_, out) = (union_iff (j ∷ seen) js y.resource_id).0 n in out (inl e),
    AreOnce-union (j ∷ seen) js (seq + 1),
  )
]

pub count-length : (ids : List ℕ) (seq : ℕ) → count ids ≡ length (queue_up ids seq)
unfolding count queue_up
count-length [] seq = refl
count-length (i ∷ ids) seq = omega (arith, count-length ids (seq + 1))

-- The rows that are queued for resources, and what is known of them.
abbrev pub rows_for : List ℕ → ℕ → List Cleanup
rows_for ids seq = queue_up (union [] ids) seq

pub rows_for-AreOnce : (ids : List ℕ) (seq : ℕ) → AreOnce (rows_for ids seq)
rows_for-AreOnce ids seq = AreOnce-union [] ids seq

pub rows_for_iff :
    (ids : List ℕ) (seq i : ℕ)
    → ((x : Cleanup) × In x (rows_for ids seq) × (x.resource_id ≡ i)) ↔ In i ids
rows_for_iff ids seq i = (
  λ (x, m, e).
      let (n, _, _) = queued-In (union [] ids) seq x m in
      rw e at ((union_iff [] ids x.resource_id).0 n).0,
  λ m. In-queued (union [] ids) seq i ((union_iff [] ids i).1 (m, λ k. elim k [ ])),
)

least_request :
    (cs : List Cleanup)
    → ((first_request cs ≡ none) × ((d : Cleanup) → ¬ In d cs))
      ⊎ ((c : Cleanup) × (first_request cs ≡ some c)
          × In c cs
          × ((d : Cleanup) → In d cs → c.id ≤ d.id))
unfolding first_request
least_request [] = inl (refl, λ d m. m)
least_request (c ∷ cs) = elim (least_request cs) [
  | inl (e, past) ↦ inr (
    c,
    rw e refl,
    inl refl,
    λ d m. elim m [
      | inl q ↦ let n = ap (λ (z : Cleanup). z.id) q in omega (arith, n)
      | inr k ↦ absurd (past d k)
    ],
  )
  | inr (b, e, i, least) ↦ elim (Bool-cases (ltb b.id c.id)) [
    | inl t ↦ inr (
      b,
      rw e (rw t refl),
      inr i,
      λ d m. elim m [
        | inl q ↦ let n = ap (λ (z : Cleanup). z.id) q in ground (arith, n, t)
        | inr k ↦ least d k
      ],
    )
    | inr f ↦ inr (
      c,
      rw e (rw f refl),
      inl refl,
      λ d m. elim m [
        | inl q ↦ let n = ap (λ (z : Cleanup). z.id) q in omega (arith, n)
        | inr k ↦ let h = least d k in ground (arith, h, f)
      ],
    )
  ]
]

-- The oldest request is the first one.
pub first_request-oldest :
    (cs : List Cleanup) (c : Cleanup)
    → In c cs
    → ((d : Cleanup) → In d cs → (d ≡ c) ⊎ (c.id < d.id))
    → first_request cs ≡ some c
first_request-oldest cs c m oldest = elim (least_request cs) [
  | inl (e, past) ↦ absurd (past c m)
  | inr (b, e, i, least) ↦ elim (oldest b i) [
    | inl q ↦ e ∙ ap some q
    | inr later ↦ let h = least c m in absurd (omega (arith, later, h))
  ]
]
