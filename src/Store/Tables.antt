-- ===== src/Store/Tables.antt =====
-- Rows, by their columns' names, and the tables as lists of rows. Times are seconds, and bind names,
-- UUIDs and lock roots are bytes.
use limestone.Prelude.{ℕ, ℤ, Bytes, List, Bool, Option}

-- The type ids of dav_repos.h.
pub data ResourceType : Type 0 where
  plain collection principal user group redirect version versioned : ResourceType
  version_history versioned_collection collection_version locknull : ResourceType

pub record Resource : Type 0 where
  pub id : ℕ
  pub kind : ResourceType
  pub owner_id : ℕ
  pub lastmodified : ℕ

pub record Bind : Type 0 where
  pub id : ℕ
  pub name : Bytes
  pub collection_id : ℕ
  pub resource_id : ℕ
  pub updated_at : ℕ

pub record Cleanup : Type 0 where
  pub id : ℕ
  pub resource_id : ℕ

pub record Media : Type 0 where
  pub resource_id : ℕ
  pub size : ℕ
  pub sha1 : Bytes

pub record Quota : Type 0 where
  pub principal_id : ℕ
  pub used_quota : ℕ
  pub total_quota : ℕ

-- `exclusive` is form = 'X'; a lock that never expires has expires_at 0.
pub record LockRow : Type 0 where
  pub id : ℕ
  pub uuid : Bytes
  pub resource_id : ℕ
  pub owner_id : ℕ
  pub exclusive : Bool
  pub depth : ℕ
  pub expires_at : ℕ
  pub lockroot : Bytes

pub record LockResource : Type 0 where
  pub lock_id : ℕ
  pub resource_id : ℕ

pub record BindLock : Type 0 where
  pub lock_id : ℕ
  pub bind_id : ℕ

pub record Principal : Type 0 where
  pub resource_id : ℕ
  pub name : Bytes

pub record GroupMember : Type 0 where
  pub group_id : ℕ
  pub member_id : ℕ

pub record TransitiveMember : Type 0 where
  pub transitive_group_id : ℕ
  pub transitive_member_id : ℕ
  pub transitive_count : ℤ

pub record User : Type 0 where
  pub principal_id : ℕ
  pub pwhash : Bytes
  pub email : Bytes
  pub login_to_all_domains : Bool

pub record UserDomain : Type 0 where
  pub id : ℕ
  pub principal_id : ℕ
  pub domain : Bytes
  pub path : Bytes

-- `checked_in` is checked_state = 'I'.
pub record Vcr : Type 0 where
  pub resource_id : ℕ
  pub checked_id : ℕ
  pub vhr_id : ℕ
  pub checked_in : Bool
  pub version_type : ℕ
  pub checkin_on_unlock : ℕ

-- `vcr_id` is NULL where the versioned resource is gone.
pub record Version : Type 0 where
  pub resource_id : ℕ
  pub number : ℕ
  pub vcr_id : Option ℕ
  pub vhr_id : ℕ

pub record Vhr : Type 0 where
  pub resource_id : ℕ
  pub root_version_id : ℕ

pub record Collection : Type 0 where
  pub resource_id : ℕ
  pub auto_version_new_children : ℕ

-- `grants` is grantdeny = 'G'.
pub record AceRow : Type 0 where
  pub id : ℕ
  pub grants : Bool
  pub protected : Bool
  pub resource_id : ℕ
  pub principal_id : ℕ

pub record AcePrivilege : Type 0 where
  pub ace_id : ℕ
  pub privilege_id : ℕ

pub record AclPrivilege : Type 0 where
  pub id : ℕ
  pub name : Bytes
  pub priv_namespace_id : ℕ
  pub lft : ℕ
  pub rgt : ℕ

-- The path, whose text has the ids in decimal and commas between them.
pub record AclInheritance : Type 0 where
  pub resource_id : ℕ
  pub path : List ℕ

-- The sequences give the next ids. `files` are the SHA1 sums whose bodies are kept under file_dir.
pub record Db : Type 0 where
  pub resources : List Resource
  pub binds : List Bind
  pub cleanup : List Cleanup
  pub media : List Media
  pub quota : List Quota
  pub principals : List Principal
  pub group_members : List GroupMember
  pub transitive_group_members : List TransitiveMember
  pub users : List User
  pub user_domains : List UserDomain
  pub collections : List Collection
  pub aces : List AceRow
  pub dav_aces_privileges : List AcePrivilege
  pub acl_privileges : List AclPrivilege
  pub acl_inheritance : List AclInheritance
  pub vcrs : List Vcr
  pub versions : List Version
  pub vhrs : List Vhr
  pub locks : List LockRow
  pub locks_resources : List LockResource
  pub binds_locks : List BindLock
  pub binds_id_seq : ℕ
  pub cleanup_id_seq : ℕ
  pub locks_id_seq : ℕ
  pub user_domains_id_seq : ℕ
  pub files : List Bytes
