-- ===== src/Bind/Cleanup.antt =====
-- The queue of the garbage collector: limestone/dbms_bind.c, lines 620-690.
use limestone.Prelude.{
  ℕ, ◌+◌, Bool, true, false, not, Option, none, some, List, [], ◌∷◌, ◌++◌, ◌==◌, ltb, keep,
  if◌then◌else◌,
}
use limestone.Store.{
  Cleanup, Db, M, internal_server_error, pure, ◌>>=◌, ◌>>◌, select, update, ignore_error,
}
use limestone.Bind.Path.{is_in}

-- SELECT … UNION SELECT …: no resource twice.
unfoldable pub union : List ℕ → List ℕ → List ℕ
unfolding is_in
union seen [] = []
union seen (i ∷ is) = if is_in seen i then union seen is else i ∷ union (i ∷ seen) is

unfoldable pub queue_up : List ℕ → ℕ → List Cleanup
queue_up [] seq = []
queue_up (i ∷ is) seq = record { id = seq; resource_id = i } ∷ queue_up is (seq + 1)

unfoldable pub count : List ℕ → ℕ
count [] = 0
count (i ∷ is) = count is + 1

-- The new requests come behind the old ones.
abbrev pub with_requests : List ℕ → Db → Db
with_requests ids db = record db {
  cleanup = db.cleanup ++ queue_up ids db.cleanup_id_seq;
  cleanup_id_seq = db.cleanup_id_seq + count ids;
}

-- The ids are those of the binds' resources.
unfoldable pub dbms_insert_cleanup_reqs : List ℕ → M (Unit {0})
unfolding union queue_up count
dbms_insert_cleanup_reqs [] = pure tt
dbms_insert_cleanup_reqs (i ∷ is) =
    update internal_server_error (λ db. some (with_requests (union [] (i ∷ is)) db))

-- ORDER BY id LIMIT 1
unfoldable pub first_request : List Cleanup → Option Cleanup
first_request [] = none
first_request (c ∷ cs) = elim (first_request cs) [
  | none ↦ some c
  | some d ↦ if ltb d.id c.id then some d else some c
]

unfoldable pub without_request : Option Cleanup → Db → Db
without_request none db = db
without_request (some c) db = record db { cleanup = keep (λ d. not (d.id == c.id)) db.cleanup }

unfoldable pub requested : Option Cleanup → ℕ
requested none = 0
requested (some c) = c.resource_id

abbrev pub drop_if : Bool → Cleanup → M (Unit {0})
drop_if false c = pure tt
drop_if true c =
    ignore_error tt (update internal_server_error (λ db. some (without_request (some c) db)))

-- The request is deleted only if its id is above zero, and an error there is not looked at.
unfoldable pub drop_request : Option Cleanup → M (Unit {0})
unfolding without_request ignore_error
drop_request none = pure tt
drop_request (some c) = drop_if (ltb 0 c.id) c

-- Zero where there is no request.
unfoldable pub dbms_next_cleanup_req : M ℕ
unfolding first_request drop_request requested
dbms_next_cleanup_req = do
  c ← select internal_server_error (λ db. first_request db.cleanup)
  drop_request c
  pure (requested c)
