-- ===== src/Store/Cascade.antt =====
-- Deletions with the rows that the schema deletes beside them (ON DELETE CASCADE), as far as the
-- modelled tables go.
use limestone.Prelude.{
  ℕ, Bool, false, not, ◌&&◌, ◌||◌, Option, none, some, List, [], ◌∷◌, map, ◌==◌, keep,
  if◌then◌else◌,
}
use limestone.Store.Tables.{Bind, LockRow, Vcr, Version, Db}

-- Whether some row passes the test.
unfoldable pub some_row : {A : Type 0} → (A → Bool) → List A → Bool
some_row p [] = false
some_row p (x ∷ xs) = p x || some_row p xs

-- DELETE FROM binds, with the rows of binds_locks.
unfoldable pub delete_binds : (Bind → Bool) → Db → Db
unfolding some_row
delete_binds gone db = record db {
  binds = keep (λ b. not (gone b)) db.binds;
  binds_locks =
      keep (λ r. not (some_row (λ b. gone b && (b.id == r.bind_id)) db.binds)) db.binds_locks;
}

-- DELETE FROM locks, with the rows of locks_resources and binds_locks.
unfoldable pub delete_locks : (LockRow → Bool) → Db → Db
unfolding some_row
delete_locks gone db =
    let dropped = λ (i : ℕ). some_row (λ l. gone l && (l.id == i)) db.locks in
    record db {
      locks = keep (λ l. not (gone l)) db.locks;
      locks_resources = keep (λ r. not (dropped r.lock_id)) db.locks_resources;
      binds_locks = keep (λ r. not (dropped r.lock_id)) db.binds_locks;
    }

-- What is left of the tables that name a resource directly.
abbrev drop_rows : (ℕ → Bool) → Db → Db
drop_rows gone db = record db {
  resources = keep (λ r. not (gone r.id)) db.resources;
  cleanup = keep (λ c. not (gone c.resource_id)) db.cleanup;
  media = keep (λ m. not (gone m.resource_id)) db.media;
  quota = keep (λ q. not (gone q.principal_id)) db.quota;
  principals = keep (λ p. not (gone p.resource_id)) db.principals;
  group_members = keep (λ r. not (gone r.group_id || gone r.member_id)) db.group_members;
  transitive_group_members =
      keep (λ r. not (gone r.transitive_group_id || gone r.transitive_member_id))
        db.transitive_group_members;
  aces = keep (λ a. not (gone a.resource_id)) db.aces;
  dav_aces_privileges =
      keep (λ x. not (some_row (λ a. gone a.resource_id && (a.id == x.ace_id)) db.aces))
        db.dav_aces_privileges;
  acl_inheritance = keep (λ r. not (gone r.resource_id)) db.acl_inheritance;
  collections = keep (λ c. not (gone c.resource_id)) db.collections;
  users = keep (λ u. not (gone u.principal_id)) db.users;
  user_domains = keep (λ d. not (gone d.principal_id)) db.user_domains;
  locks_resources = keep (λ r. not (gone r.resource_id)) db.locks_resources;
}

abbrev without_vcr : (ℕ → Bool) → Option ℕ → Option ℕ
without_vcr lost none = none
without_vcr lost (some i) = if lost i then none else some i

-- What is left of the histories: a history goes with its root version, its versions and its
-- versioned resources with it, and a versioned resource with the version it is at. A version is the
-- root of no history but its own.
unfoldable pub drop_versions : (ℕ → Bool) → Db → Db
unfolding some_row
drop_versions gone db =
    let no_vhr =
      λ (i : ℕ). gone i || some_row (λ h. gone h.root_version_id && (h.resource_id == i)) db.vhrs in
    let no_version =
      λ (i : ℕ). gone i || some_row (λ v. no_vhr v.vhr_id && (v.resource_id == i)) db.versions in
    let lost_vcr = λ (c : Vcr). gone c.resource_id || no_vhr c.vhr_id || no_version c.checked_id in
    let no_vcr = λ (i : ℕ). some_row (λ c. lost_vcr c && (c.resource_id == i)) db.vcrs in
    record db {
      vhrs = keep (λ h. not (no_vhr h.resource_id)) db.vhrs;
      versions =
          map (λ (v : Version). record v { vcr_id = without_vcr no_vcr v.vcr_id })
            (keep (λ v. not (no_version v.resource_id)) db.versions);
      vcrs = keep (λ c. not (lost_vcr c)) db.vcrs;
    }

-- DELETE FROM resources by id.
unfoldable pub delete_resources : (ℕ → Bool) → Db → Db
unfolding delete_binds delete_locks drop_versions
delete_resources gone db = drop_rows gone (
    drop_versions gone (
      delete_locks (λ l. gone l.resource_id || gone l.owner_id)
        (delete_binds (λ b. gone b.collection_id || gone b.resource_id) db)))
