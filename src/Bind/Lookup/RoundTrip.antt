-- ===== src/Bind/Lookup/RoundTrip.antt =====
-- The path that the search finds and the lookup of that path, limestone/dbms_bind.c: what
-- `sabridge_reverse_lookup` (limestone/bridge.c) gives out as a resource's URI leads back to it.
use mathlib.Core.Path.{subst}
use mathlib.Core.List.{append_assoc, append-nil}
use limestone.Prelude.{
  ℕ, ◌≡◌, ◌≢◌, refl, sym, ap, ◌∙◌, false, some, List, [], ◌∷◌, ◌++◌, Bytes, ◌==◌, In,
}
use limestone.Store.{Bind, Db, ok, quiet}
use limestone.Text.Uri.{slash, compact_uri}
use limestone.Text.Uri.Compact.{flush, segments_from, segments, segments-compact_uri}
use limestone.Bind.Rows.Unique.{IsUnique}
use limestone.Bind.Path.{shortest_path, dbms_find_shortest_path}
use limestone.Bind.Path.Route.{Route, render, Spells}
use limestone.Bind.Path.Search.{Answers, find_shortest_path_excl_binds-Answers}
use limestone.Bind.Lookup.{
  root_collection_id, Found, found, has_question_mark, any_question_mark, dbms_lookup_uri,
}
use limestone.Bind.Lookup.Resolve.{lookup_uri_complete}

-- No slash in the string.
abbrev pub NoSlash : Bytes → Type 0
NoSlash [] = Unit
NoSlash (c ∷ s) = ((c == slash) ≡ false) × NoSlash s

-- A name that a path segment can be: not empty, with no slash and no question mark.
pub record IsName (n : Bytes) : Type 0 where
  pub filled : n ≢ []
  pub whole : NoSlash n
  pub plain : has_question_mark n ≡ false

abbrev AllNames : List Bytes → Type 0
AllNames [] = Unit
AllNames (n ∷ ns) = IsName n × AllNames ns

segments_from-name :
    (run n rest : Bytes) → NoSlash n → segments_from run (n ++ rest) ≡ segments_from (run ++ n) rest
unfolding segments_from
segments_from-name run [] rest h = ap (λ r. segments_from r rest) (sym (append-nil run))
segments_from-name run (c ∷ n) rest h = rw h.0 (
    segments_from-name (run ++ c ∷ []) n rest h.1
    ∙ ap (λ r. segments_from r rest) (append_assoc run (c ∷ []) n))

segments_from-render :
    (run : Bytes) (ns : List Bytes) → AllNames ns → segments_from run (render ns) ≡ flush run ns
unfolding segments_from
segments_from-render run [] h = refl
segments_from-render run (n ∷ ns) h = ap (flush run) (
    segments_from-name [] n (render ns) h.0.whole
    ∙ (segments_from-render n ns h.1 ∙ flush_name n ns h.0.filled))
  where
    flush_name : (n : Bytes) (ns : List Bytes) → n ≢ [] → flush n ns ≡ n ∷ ns
    flush_name [] ns e = absurd (e refl)
    flush_name (c ∷ n) ns e = refl

-- A path that is spelled from names is cut into these names.
pub segments-render : (ns : List Bytes) → AllNames ns → segments (render ns) ≡ ns
unfolding segments
segments-render ns h = segments_from-render [] ns h

Route-AllNames :
    (bs : List Bind) (x y : ℕ) (ns : List Bytes)
    → ((b : Bind) → In b bs → IsName b.name)
    → Route bs x y ns
    → AllNames ns
Route-AllNames bs x y [] names e = tt
Route-AllNames bs x y (n ∷ ns) names (b, m, p, q, rest) =
    (subst IsName q (names b m), Route-AllNames bs b.resource_id y ns names rest)

AllNames-plain : (ns : List Bytes) → AllNames ns → any_question_mark ns ≡ false
unfolding any_question_mark
AllNames-plain [] h = refl
AllNames-plain (n ∷ ns) h = rw h.0.plain (AllNames-plain ns h.1)

-- On a DBMS that refuses nothing, with apr_strtok cutting a string into its segments, in a table whose names are path segments without
-- a question mark and stand once in a collection: the path that the search from the root collection finds for
-- a resource is a URI whose lookup returns that resource.
pub lookup-find_shortest_path :
    (strtok : Bytes → List Bytes) (db : Db) (r : ℕ) (p : Bytes)
    → ((s : Bytes) → strtok s ≡ segments s)
    → IsUnique db.binds
    → ((b : Bind) → In b db.binds → IsName b.name)
    → dbms_find_shortest_path root_collection_id r (quiet db)
      ≡ (ok (shortest_path (some p)), quiet db)
    → (l : Found) × (dbms_lookup_uri strtok p (quiet db) ≡ (ok (found l), quiet db))
      × (l.resource_id ≡ some r)
unfolding dbms_find_shortest_path
lookup-find_shortest_path strtok db r p cuts unique names finds =
    let answers = (find_shortest_path_excl_binds-Answers root_collection_id r [] (quiet db)).0 in
    let spells : Spells db.binds root_collection_id r p =
      subst (Answers db.binds root_collection_id r []) (ap (λ x. x.0) finds) answers in
    let (ns, spelled, route) = spells in
    let named = Route-AllNames db.binds root_collection_id r ns names route in
    let cut : strtok (compact_uri p) ≡ ns =
      cuts (compact_uri p)
      ∙ (segments-compact_uri p ∙ (ap segments spelled ∙ segments-render ns named)) in
    lookup_uri_complete strtok p db r unique (rw cut (AllNames-plain ns named)) (rw cut route)
