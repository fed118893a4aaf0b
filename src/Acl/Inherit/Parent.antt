-- ===== src/Acl/Inherit/Parent.antt =====
-- A resource inherits the entries of its new parent: limestone/dbms_acl.c, lines 661-712,
use mathlib.Core.Path.{subst}
use limestone.Prelude.{
  ℕ, ◌≡◌, refl, sym, ap, ◌∙◌, ◌⊎◌, inl, inr, ◌↔◌, Bool, true, false, some, List, [], ◌∷◌, ◌++◌, In,
  In-append, append-In, ◌==◌, leb,
}
use limestone.Store.{AclInheritance, Db, Store, Result, ok, err, internal_server_error, behind}
use limestone.Store.Laws.{update-holds, select-holds}
use limestone.Acl.Allow.{Question, inherits_from}
use limestone.Acl.Inherit.{
  fitting, child_row, below_parent, inheritance_of, inherit_unless, dbms_inherit_parent_aces,
}
use limestone.Acl.Inherit.Reach.{Reaches, inherits_from_iff, IsKeyed, first_inheritance, not_here}

module _ (r : ℕ) (a : AclInheritance) (rows : List AclInheritance)
    (free : (b : AclInheritance) → In b rows → (b.resource_id == r) ≡ false) (keyed : IsKeyed rows)
    (stored : In a rows) where
  abbrev grown : List AclInheritance
  grown = rows ++ (child_row r a.path ∷ [])

  IsKeyed-grown : IsKeyed grown
  IsKeyed-grown x y i j e = elim (In-append x rows _ i) [
    | inl k ↦ elim (In-append y rows _ j) [
      | inl l ↦ keyed x y k l e
      | inr l ↦ absurd (not_here r rows free x k (e ∙ ap (λ z. z.resource_id) (only y l)))
    ]
    | inr k ↦ elim (In-append y rows _ j) [
      | inl l ↦ absurd (not_here r rows free y l (sym e ∙ ap (λ z. z.resource_id) (only x k)))
      | inr l ↦ only x k ∙ sym (only y l)
    ]
  ]
    where
      only : (z : AclInheritance) → In z (child_row r a.path ∷ []) → z ≡ child_row r a.path
      only z (inl q) = q
      only z (inr m) = elim m [ ]

  from_grown : (x : ℕ) → Reaches grown r x → (x ≡ r) ⊎ Reaches rows a.resource_id x
  from_grown x (par, i, here, chi, j, there, k) = elim (In-append par rows _ i) [
    | inr m ↦ inl (sym here ∙ elim m [ inl q ↦ ap (λ z. z.resource_id) q | inr n ↦ elim n [ ] ])
    | inl i' ↦ elim (In-append chi rows _ j) [
      | inl n ↦ absurd (not_here r rows free chi n there)
      | inr n ↦
          let on : In x (a.path ++ (r ∷ [])) = elim n [
            | inl q ↦ subst (λ (z : AclInheritance). In x z.path) q k
            | inr o ↦ elim o [ ]
          ] in
          elim (In-append x a.path _ on) [
            | inl above ↦ inr (par, i', here, a, stored, refl, above)
            | inr last ↦ inl (elim last [ inl q ↦ q | inr o ↦ elim o [ ] ])
          ]
    ]
  ]

  to_grown : (x : ℕ) → (x ≡ r) ⊎ Reaches rows a.resource_id x → Reaches grown r x
  to_grown x (inl e) =
      let own = child_row r a.path in
      let here : In own grown = append-In own rows _ (inr (inl refl)) in
      (own, here, sym e, own, here, refl, append-In x a.path _ (inr (inl e)))
  to_grown x (inr (par, i, here, chi, j, there, k)) =
      let own = child_row r a.path in
      let same : chi ≡ a = keyed chi a j stored there in
      (
        par,
        append-In par rows _ (inl i),
        here,
        own,
        append-In own rows _ (inr (inl refl)),
        refl,
        append-In x a.path _ (inl (subst (λ (z : AclInheritance). In x z.path) same k)),
      )

-- The question about another resource.
abbrev pub about : Question → ℕ → Question
about q r = record q { resource_id = r }

-- A resource inherits its own entries and those that its parent inherits.
abbrev pub Joins : Question → ℕ → ℕ → List AclInheritance → List AclInheritance → Type 0
Joins q r parent rows rows' =
    (x : ℕ)
    → (inherits_from (about q r) rows' x ≡ true)
      ↔ ((x ≡ r) ⊎ (inherits_from (about q parent) rows x ≡ true))

either : {A B C : Type 0} → (B → C) → A ⊎ B → A ⊎ C
either f (inl a) = inl a
either f (inr b) = inr (f b)

Joins-grown :
    (q : Question) (r parent : ℕ) (a : AclInheritance) (rows : List AclInheritance)
    → ((b : AclInheritance) → In b rows → (b.resource_id == r) ≡ false)
    → IsKeyed rows
    → In a rows
    → a.resource_id ≡ parent
    → Joins q r parent rows (rows ++ (child_row r a.path ∷ []))
Joins-grown q r parent a rows free keyed stored e x = (
  λ h.
      either
        (λ w. (inherits_from_iff (about q parent) rows x).1 (subst (λ p. Reaches rows p x) e w))
        (from_grown r a rows free keyed stored x
          ((inherits_from_iff (about q r) (rows ++ (child_row r a.path ∷ [])) x).0 h)),
  λ h. (inherits_from_iff (about q r) (rows ++ (child_row r a.path ∷ [])) x).1 (
      to_grown r a rows free keyed stored x (
        either
          (λ t.
            subst (λ p. Reaches rows p x) (sym e) ((inherits_from_iff (about q parent) rows x).0 t))
          h)),
)

abbrev pub Has : ℕ → List AclInheritance → Type 0
Has r rows = (a : AclInheritance) × In a rows × (a.resource_id ≡ r)

abbrev pub Inherited : Question → ℕ → ℕ → Db → Result (Unit {0}) × Store → Type 0
Inherited q r parent db (err e, s) = s.db ≡ db
Inherited q r parent db (ok u, s) =
    IsKeyed s.db.acl_inheritance
    × (((s.db ≡ db) × (Has r db.acl_inheritance ⊎ ¬ (Has parent db.acl_inheritance)))
        ⊎ Joins q r parent db.acl_inheritance s.db.acl_inheritance)

fitting-Inherited :
    (q : Question) (r parent : ℕ) (a : AclInheritance) (db db' : Db) (b : Bool)
    → ((b : AclInheritance) → In b db.acl_inheritance → (b.resource_id == r) ≡ false)
    → IsKeyed db.acl_inheritance
    → In a db.acl_inheritance
    → a.resource_id ≡ parent
    → fitting b (child_row r a.path) db ≡ some db'
    → IsKeyed db'.acl_inheritance × Joins q r parent db.acl_inheritance db'.acl_inheritance
fitting-Inherited q r parent a db db' false free keyed stored e h = absurd (cc h)
fitting-Inherited q r parent a db db' true free keyed stored e h =
    let rows = db.acl_inheritance in
    let same : rows ++ (child_row r a.path ∷ []) ≡ db'.acl_inheritance = cc h in
    subst (λ l. IsKeyed l × Joins q r parent rows l) same
      (IsKeyed-grown r a rows free keyed stored, Joins-grown q r parent a rows free keyed stored e)

below-Inherited :
    (char_length : List ℕ → ℕ) (q : Question) (r parent : ℕ) (db : Db) (s : Store)
    → ((b : AclInheritance) → In b db.acl_inheritance → (b.resource_id == r) ≡ false)
    → IsKeyed db.acl_inheritance
    → below_parent char_length r (inheritance_of parent db) db ≡ some s.db
    → Inherited q r parent db (ok tt, s)
unfolding inheritance_of
below-Inherited char_length q r parent db s free keyed h =
    elim (first_inheritance parent db.acl_inheritance) [
      | inl (e, lacks) ↦
          let h' : some db ≡ some s.db = rw e at h in
          let same : db ≡ s.db = cc h' in
          (
            subst (λ (d : Db). IsKeyed d.acl_inheritance) same keyed,
            inl (sym same, inr (λ (b, i, p). not_here parent db.acl_inheritance lacks b i p)),
          )
      | inr (a, e, stored, at) ↦
          let h' : fitting (leb (char_length (a.path ++ (r ∷ []))) 255) (child_row r a.path) db
              ≡ some s.db =
            rw e at h in
          let (k, joins) = fitting-Inherited q r parent a db s.db _ free keyed stored at h' in
          (k, inr joins)
    ]

-- Whatever statements the DBMS refuses, on a table whose key holds: an error changes nothing, and a
-- success keeps the key of the table. Behind a success either nothing has changed, and the
-- resource had a path before or the parent has none, or the check of a privilege finds for the
-- resource its own entries and exactly those that it finds for the parent.
pub inherit_parent_aces-Inherited :
    (char_length : List ℕ → ℕ) (q : Question) (r parent : ℕ) (s : Store)
    → IsKeyed s.db.acl_inheritance
    → Inherited q r parent s.db (dbms_inherit_parent_aces char_length r parent s)
unfolding dbms_inherit_parent_aces inheritance_of
inherit_parent_aces-Inherited char_length q r parent s keyed =
    let P = Inherited q r parent s.db in
    let keeps = λ (d : Db). IsKeyed d.acl_inheritance in
    select-holds (λ x. P (behind (inherit_unless char_length r parent) x)) internal_server_error
      (inheritance_of r) s
      (λ t same. elim (first_inheritance r s.db.acl_inheritance) [
        | inr (a, e, stored, at) ↦
            subst (λ row. P (inherit_unless char_length r parent row t)) (sym e)
              (subst keeps (sym same) keyed, inl (same, inl (a, stored, at)))
        | inl (e, free) ↦
            subst (λ row. P (inherit_unless char_length r parent row t)) (sym e)
              (update-holds P internal_server_error
                (λ db. below_parent char_length r (inheritance_of parent db) db) t
                (λ u h. below-Inherited char_length q r parent s.db u free keyed (
                  subst (λ d. below_parent char_length r (inheritance_of parent d) d ≡ some u.db)
                    same h))
                (λ u h. h ∙ same))
      ])
      (λ t same. same)
