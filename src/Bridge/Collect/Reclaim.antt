-- ===== src/Bridge/Collect/Reclaim.antt =====
-- What the garbage collector of limestone/gc.c, lines 75-122, does to an orphan.
use limestone.Prelude.{
  ℕ, suc, ◌+◌, ◌≤◌, ◌<◌, ◌≡◌, refl, sym, ap, ◌∙◌, ◌⊎◌, ◌↔◌, Bool, true, some, List, [], ◌∷◌, ◌++◌,
  ◌==◌, ltb, length, In, arith,
}
use limestone.Store.{
  Bind, Cleanup, Resource, collection, Db, M, Result, Store, ok, quiet, select, delete_resources,
}
use limestone.Store.Rows.{In-map, map-In}
use limestone.Bind.Rows.Children.{get_child_binds-Children}
use limestone.Bind.Rows.{first_row, child_rows, dbms_get_child_binds}
use limestone.Bridge.Delete.{DavResource}
use limestone.Bridge.Delete.Orphan.{IsOrphan}
use limestone.Bridge.Collect.{gc_round}
use limestone.Bridge.Collect.Queued.{
  AreOnce, rows_for, rows_for-AreOnce, rows_for_iff, queued-In, count-length, first_request-oldest,
}
use mathlib.Core.List.{append-nil}
use limestone.Bind.Cleanup.{queue_up, count, union}
use limestone.Bridge.Collect.Quiet.{children_of, queue_all, reclaimed, gc_round-orphan}

abbrev numbered_to : Db → List Cleanup → ℕ → Db
numbered_to db l seq = record db { cleanup = l; cleanup_id_seq = seq }

abbrev queueing : Db → ℕ → List Cleanup → Db
queueing db seq rows = numbered_to db (db.cleanup ++ rows) (seq + length rows)

queue_all-rows :
    (ids : List ℕ) (db : Db)
    → queue_all ids db ≡ queueing db db.cleanup_id_seq (rows_for ids db.cleanup_id_seq)
unfolding union queue_up count
queue_all-rows [] db =
    ap (λ l. numbered_to db l db.cleanup_id_seq) (sym (append-nil db.cleanup))
    ∙ ap (numbered_to db (db.cleanup ++ [])) (omega arith)
queue_all-rows (i ∷ is) db =
    ap
      (λ m.
        numbered_to db (db.cleanup ++ rows_for (i ∷ is) db.cleanup_id_seq) (db.cleanup_id_seq + m))
      (count-length (union [] (i ∷ is)) db.cleanup_id_seq)

-- The binds in a collection to other resources.
children_iff :
    (n : ℕ) (db : Db) (i : ℕ)
    → In i (children_of n db)
      ↔ ((b : Bind) × In b db.binds × (b.collection_id ≡ n) × (b.resource_id ≡ i) × ¬ (i ≡ n))
unfolding dbms_get_child_binds select
children_iff n db i =
    let rows = child_rows n true db.binds [] in
    let read = get_child_binds-Children n true (quiet db) in
    (
      λ m.
          let (b, k, e) = In-map (λ (b : Bind). b.resource_id) i rows m in
          let (inside, (here, other)) = (read.0 b).0 k in
          (b, inside, here, sym e, λ q. other refl (sym e ∙ q ∙ sym here)),
      λ (b, inside, here, e, other).
          let k = (read.0 b).1 (inside, (here, λ _ q. other (sym e ∙ q ∙ here))) in
          rw (← e) (map-In (λ (b : Bind). b.resource_id) b rows k),
    )

-- And the resources that it had binds to are asked for, once each, with numbers of the sequence.
pub record IsReclaimed (n : ℕ) (c : Cleanup) (db : Db) (res : Result Bool × Store) : Type 0 where
  pub queued : List Cleanup
  pub whole : res ≡ (
    ok true,
    quiet (record (reclaimed n c db) {
      cleanup = (reclaimed n c db).cleanup ++ queued;
      cleanup_id_seq = db.cleanup_id_seq + length queued;
    }),
  )
  pub once : AreOnce queued
  pub numbered :
      (x : Cleanup)
      → In x queued
      → (db.cleanup_id_seq ≤ x.id) × (x.id < db.cleanup_id_seq + length queued)
  pub children :
      (i : ℕ)
      → ((x : Cleanup) × In x queued × (x.resource_id ≡ i))
        ↔ ((b : Bind) × In b db.binds × (b.collection_id ≡ n) × (b.resource_id ≡ i) × ¬ (i ≡ n))

-- On a DBMS that refuses nothing, a round of the collector whose oldest request asks for a collection
-- that no route leads to from the root collection reports that it deleted it: the request is gone,
-- the collection is deleted with the rows that refer to it, exactly the resources that it had binds
-- to, but for itself, are asked for in new requests at the end of the queue, each once and with
-- a new number, and nothing else changes.
pub gc_round_reclaims :
    (remove_vhr : DavResource → M (Unit {0})) (keep_files : Bool) (db : Db) (c : Cleanup) (n : ℕ)
    (x : Resource)
    → In c db.cleanup
    → ((d : Cleanup) → In d db.cleanup → (d ≡ c) ⊎ (c.id < d.id))
    → 0 < c.id
    → c.resource_id ≡ suc n
    → first_row (λ (r : Resource). r.id == suc n) db.resources ≡ some x
    → x.kind ≡ collection
    → IsOrphan (suc n) db
    → IsReclaimed (suc n) c db (gc_round remove_vhr keep_files (quiet db))
unfolding delete_resources
gc_round_reclaims remove_vhr keep_files db c n x inside oldest above names there kind orphan =
    let ids = children_of (suc n) db in
    let positive : ltb 0 c.id ≡ true = ground (arith, above) in
    let ran =
      gc_round-orphan remove_vhr keep_files db c n x
        (first_request-oldest db.cleanup c inside oldest) positive names there kind orphan in
    record {
      queued = rows_for ids db.cleanup_id_seq;
      whole = ran ∙ ap (λ d. (ok true, quiet d)) (queue_all-rows ids (reclaimed (suc n) c db));
      once = rows_for-AreOnce ids db.cleanup_id_seq;
      numbered =
          λ y m. let (_, low, high) = queued-In (union [] ids) db.cleanup_id_seq y m in (low, high);
      children = λ i. (
        λ m. (children_iff (suc n) db i).0 ((rows_for_iff ids db.cleanup_id_seq i).0 m),
        λ m. (rows_for_iff ids db.cleanup_id_seq i).1 ((children_iff (suc n) db i).1 m),
      );
    }
