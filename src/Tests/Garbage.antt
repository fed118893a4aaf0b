-- ===== src/Tests/Garbage.antt =====
-- The collector at work on a collection that lost its last bind, with a bind to a resource in it.
use limestone.Prelude.{ℕ, ◌≡◌, refl, inl, inr, false, [], ◌∷◌, codes, arith}
use limestone.Store.{collection, Db, M, quiet, pure}
use limestone.Bind.Rows.{first_row}
use limestone.Bridge.Delete.{DavResource}
use limestone.Bridge.Delete.Orphan.{IsOrphan}
use limestone.Bridge.Collect.{gc_round}
use limestone.Bridge.Collect.Reclaim.{IsReclaimed, gc_round_reclaims}
use limestone.Tests.Data.{bind_of, resource_of, sample_db}

abbrev lost_db : Db
lost_db = record sample_db {
  binds = bind_of 30 (codes "d") 6 4 ∷ [];
  cleanup = record { id = 1; resource_id = 6 } ∷ [];
}

abbrev no_versions : DavResource → M (Unit {0})
no_versions r = pure tt

six_two : ¬ ◌≡◌ {A = ℕ} 6 2
six_two e = ground arith

lost-IsOrphan : IsOrphan 6 lost_db
lost-IsOrphan [] e = ground arith
lost-IsOrphan (n ∷ ns) (b, inl e, at, _, _) = elim (six_two (rw e at at)) [ ]
lost-IsOrphan (n ∷ ns) (b, inr m, at, _, _) = elim m [ ]

gc_round_reclaims_example :
    IsReclaimed 6
      (record { id = 1; resource_id = 6 })
      lost_db
      (gc_round no_versions false (quiet lost_db))
unfolding first_row
gc_round_reclaims_example =
    gc_round_reclaims no_versions false lost_db (record { id = 1; resource_id = 6 }) 5
      (resource_of 6 collection) (inl refl)
      (λ d m. elim m [ inl q ↦ inl q | inr past ↦ elim past [ ] ]) (omega arith) refl refl refl
      lost-IsOrphan
