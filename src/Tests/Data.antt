-- ===== src/Tests/Data.antt =====
-- A small server: a collection /a with a resource b in it, which is locked, and a resource without a bind.
use limestone.Prelude.{ℕ, List, [], ◌∷◌, Bytes, codes, true}
use limestone.Store.{
  Resource, ResourceType, plain, collection, locknull, Bind, Quota, Principal, LockRow, Db,
}

abbrev pub bind_of : ℕ → Bytes → ℕ → ℕ → Bind
bind_of id name coll res = record {
  id = id;
  name = name;
  collection_id = coll;
  resource_id = res;
  updated_at = 100;
}

abbrev pub two_rows : List Bind
two_rows = bind_of 10 (codes "a") 2 3 ∷ bind_of 11 (codes "b") 3 4 ∷ []

abbrev pub resource_of : ℕ → ResourceType → Resource
resource_of id kind = record { id = id; kind = kind; owner_id = 5; lastmodified = 50 }

abbrev pub lock_on : ℕ → Bytes → ℕ → Bytes → ℕ → LockRow
lock_on id uuid res root expires = record {
  id = id;
  uuid = uuid;
  resource_id = res;
  owner_id = 5;
  exclusive = true;
  depth = 0;
  expires_at = expires;
  lockroot = root;
}

abbrev pub owner : Principal
owner = record { resource_id = 5; name = codes "joe" }

abbrev pub half_full : Quota
half_full = record { principal_id = 5; used_quota = 7; total_quota = 14 }

abbrev pub over_full : Quota
over_full = record { principal_id = 5; used_quota = 15; total_quota = 14 }

abbrev pub sample_db : Db
sample_db = record {
  resources =
      resource_of 2 collection
      ∷ resource_of 3 collection
      ∷ resource_of 4 plain
      ∷ resource_of 6 collection
      ∷ [];
  binds = two_rows;
  cleanup = record { id = 1; resource_id = 4 } ∷ [];
  media = record { resource_id = 4; size = 7; sha1 = codes "da39" } ∷ [];
  quota = half_full ∷ [];
  principals = owner ∷ [];
  group_members = [];
  transitive_group_members = [];
  users = [];
  user_domains = [];
  collections = [];
  aces = [];
  dav_aces_privileges = [];
  acl_privileges = [];
  acl_inheritance = [];
  vcrs = [];
  versions = [];
  vhrs = [];
  locks =
      lock_on 20 (codes "u") 4 (codes "/a/b") 0 ∷ lock_on 21 (codes "v") 6 (codes "/ab") 30 ∷ [];
  locks_resources =
      record { lock_id = 20; resource_id = 4 } ∷ record { lock_id = 21; resource_id = 4 } ∷ [];
  binds_locks = [];
  binds_id_seq = 12;
  cleanup_id_seq = 2;
  locks_id_seq = 22;
  user_domains_id_seq = 1;
  files = codes "da39" ∷ [];
}

abbrev pub null_db : Db
null_db = record sample_db {
  resources = resource_of 7 locknull ∷ resource_of 8 locknull ∷ [];
  locks = lock_on 20 (codes "u") 7 (codes "/x") 1 ∷ lock_on 21 (codes "v") 8 (codes "/y") 1 ∷ [];
}
