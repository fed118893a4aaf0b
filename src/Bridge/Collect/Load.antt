-- ===== src/Bridge/Collect/Load.antt =====
-- What `sabridge_get_property` (limestone/bridge.c, lines 36-109) leaves when the collector calls it.
use mathlib.Core.Path.{subst}
use limestone.Prelude.{ℕ, ◌≡◌, refl, ◌∙◌, Bool, true, false, Option, none, some, ◌==◌}
use limestone.Store.{
  Resource, ResourceType, Media, Db, Store, Result, ok, err, internal_server_error, select, settled,
}
use limestone.Store.Laws.{select-holds, behind_select-holds, Settles, ignored-holds}
use limestone.Bind.Rows.{first_row}
use limestone.Bridge.Delete.{
  DavResource, has_body, media_props, dbms_get_resource, dbms_get_media_props,
}
use limestone.Bridge.Collect.{get_other_props, sabridge_get_property}

-- The value has the id, and the database is unchanged.
abbrev pub Same : ℕ → Db → DavResource → Store → Type 0
Same i db r s = (r.serialno ≡ i) × (s.db ≡ db)

abbrev pub SameDb : {A : Type 0} → Db → A → Store → Type 0
SameDb db a s = s.db ≡ db

filled :
    (r : DavResource) (row : Option Resource) (s : Store)
    → Same r.serialno s.db (elim row [ none ↦ r | some x ↦ record r { kind = some x.kind } ]) s
filled r none s = (refl, refl)
filled r (some x) s = (refl, refl)

get_resource-Same :
    (r : DavResource) (s : Store) → Settles (Same r.serialno s.db) r (dbms_get_resource r s)
unfolding dbms_get_resource
get_resource-Same r s =
    behind_select-holds (Settles (Same r.serialno s.db) r) internal_server_error _ _ s
      (λ s' same.
        let (p, q) =
          filled r (first_row (λ (x : Resource). x.id == r.serialno) s.db.resources) s' in
        (p, q ∙ same))
      (λ s' same. (refl, same))

pictured :
    (r : DavResource) (row : Option Media) (s : Store)
    → Same r.serialno s.db (elim row [ none ↦ r | some m ↦ record r { sha1str = some m.sha1 } ]) s
pictured r none s = (refl, refl)
pictured r (some m) s = (refl, refl)

media_props-Same :
    (has : Bool) (r : DavResource) (s : Store)
    → Settles (Same r.serialno s.db) r (media_props has r s)
unfolding media_props
media_props-Same false r s = (refl, refl)
media_props-Same true r s =
    behind_select-holds (Settles (Same r.serialno s.db) r) internal_server_error _ _ s
      (λ s' same.
        let (p, q) =
          pictured r (first_row (λ (m : Media). m.resource_id == r.serialno) s.db.media) s' in
        (p, q ∙ same))
      (λ s' same. (refl, same))

one_select-SameDb :
    (s : Store) → Settles (SameDb s.db) tt (select internal_server_error (λ db. tt {0}) s)
one_select-SameDb s =
    select-holds (Settles (SameDb s.db) tt) internal_server_error (λ db. tt) s (λ s' same. same)
      (λ s' same. same)

get_other_props-SameDb :
    (k : Option ResourceType) (s : Store) → Settles (SameDb s.db) tt (get_other_props k s)
get_other_props-SameDb none s = refl
get_other_props-SameDb (some ResourceType.redirect) s = one_select-SameDb s
get_other_props-SameDb (some ResourceType.collection) s = one_select-SameDb s
get_other_props-SameDb (some ResourceType.versioned_collection) s = one_select-SameDb s
get_other_props-SameDb (some _) s = refl

-- Reading the properties keeps the id and the database, and always goes on.
abbrev pub Loaded : ℕ → Db → Result DavResource × Store → Type 0
Loaded i db (ok r, s) = Same i db r s
Loaded i db (err e, s) = ⊥

Loaded-end :
    (i : ℕ) (db : Db) (d : DavResource) (r : Result DavResource × Store)
    → Settles (Same i db) d r
    → Loaded i db (settled d r)
Loaded-end i db d (ok a, s) same = same
Loaded-end i db d (err e, s) same = same

media_props-Same_as :
    (i : ℕ) (db : Db) (r : DavResource) (s : Store)
    → Same i db r s
    → Settles (Same i db) r (dbms_get_media_props r s)
unfolding dbms_get_media_props
media_props-Same_as i db r s (p, q) =
    subst (λ j. Settles (Same j db) r (dbms_get_media_props r s)) p
      (subst (λ d. Settles (Same r.serialno d) r (dbms_get_media_props r s)) q
        (media_props-Same (has_body r.kind) r s))

pub get_property-Loaded :
    (r : DavResource) (s : Store) → Loaded r.serialno s.db (sabridge_get_property r s)
unfolding sabridge_get_property
get_property-Loaded r s =
    ignored-holds (Same r.serialno s.db) (Loaded r.serialno s.db) r (dbms_get_resource r) _ s
      (get_resource-Same r s)
      (λ r' s' (i, same).
        ignored-holds (SameDb s.db) (Loaded r.serialno s.db) tt (get_other_props r'.kind) _ s'
          (subst (λ db. Settles (SameDb db) tt (get_other_props r'.kind s')) same
            (get_other_props-SameDb r'.kind s'))
          (λ _ t kept.
            Loaded-end r.serialno s.db r' (dbms_get_media_props r' t)
              (media_props-Same_as r.serialno s.db r' t (i, kept))))
