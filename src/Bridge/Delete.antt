-- ===== src/Bridge/Delete.antt =====
-- Deleting resources: limestone/bridge.c, lines 896-915 and 979-1012, limestone/dbms.c, lines 132-290,
-- 546-592 and 1277-1303, and limestone/util.c, lines 195-207.
pub mod Orphan
use limestone.Prelude.{
  ℕ, ◌-◌, Bool, true, false, not, ◌&&◌, ◌||◌, Option, none, some, List, [], ◌∷◌, Bytes, ◌==◌, ltb,
  str_eq, keep, length, if◌then◌else◌,
}
use mathlib.Core.Option
use limestone.Store.{
  Resource, ResourceType, plain, versioned, version, version_history, Media, Quota, Db, M, ok,
  internal_server_error, pure, gets, ◌>>=◌, ◌>>◌, select, update, ignore_error, delete_resources,
}
use limestone.Bind.Rows.{first_row}
use limestone.Bind.Path.{Outcome, shortest_path, out_of_fuel, dbms_find_shortest_path}
use limestone.Bind.Lookup.{root_collection_id}

-- The dav_repos_resource, as far as it is read here. `kind` is `none` for the type 0 of a resource
-- that has no row, and `sha1str` for a NULL.
pub record DavResource : Type 0 where
  pub serialno : ℕ
  pub kind : Option ResourceType
  pub sha1str : Option Bytes

abbrev pub has_body : Option ResourceType → Bool
has_body (some ResourceType.plain) = true
has_body (some ResourceType.versioned) = true
has_body (some ResourceType.version) = true
has_body _ = false

abbrev kind_of : Option Resource → Option ResourceType
kind_of none = none
kind_of (some r) = some r.kind

abbrev sha1_of : Option Media → Option Bytes
sha1_of none = none
sha1_of (some m) = some m.sha1

-- The fields stay as they are where there is no row.
unfoldable pub dbms_get_resource : DavResource → M DavResource
unfolding first_row
dbms_get_resource r = do
  row ←
      select internal_server_error
        λ db. first_row (λ (x : Resource). x.id == r.serialno) db.resources
  pure (elim row [ none ↦ r | some x ↦ record r { kind = some x.kind } ])

unfoldable pub media_props : Bool → DavResource → M DavResource
unfolding first_row
media_props false r = pure r
media_props true r = do
  row ←
      select internal_server_error
        λ db. first_row (λ (m : Media). m.resource_id == r.serialno) db.media
  pure (elim row [ none ↦ r | some m ↦ record r { sha1str = some m.sha1 } ])

unfoldable pub dbms_get_media_props : DavResource → M DavResource
unfolding media_props
dbms_get_media_props r = media_props (has_body r.kind) r

-- SELECT resource_id FROM media WHERE sha1=?; `none` is the -1 of a refused statement.
unfoldable pub dbms_num_sha1_resources : Option Bytes → M (Option ℕ)
dbms_num_sha1_resources none = ignore_error none (select internal_server_error (λ db. some 0))
dbms_num_sha1_resources (some sha1) = ignore_error none (
    select internal_server_error
      (λ db. some (length (keep (λ (m : Media). str_eq m.sha1 sha1) db.media))))

pub remove_sha1_file : Option Bytes → M (Unit {0})
remove_sha1_file none s = (ok tt, s)
remove_sha1_file (some sha1) s =
    (ok tt, record s { db = record s.db { files = keep (λ f. not (str_eq f sha1)) s.db.files } })

abbrev only_one : Option ℕ → Bool
only_one none = false
only_one (some n) = n == 1

-- The file goes if one row of media has its sum.
unfoldable pub sabridge_remove_body_from_disk : Bool → DavResource → M (Unit {0})
unfolding dbms_num_sha1_resources remove_sha1_file
sabridge_remove_body_from_disk keep_files r = elim keep_files [
  | true ↦ pure tt
  | false ↦ do
    n ← dbms_num_sha1_resources r.sha1str
    (if only_one n then remove_sha1_file r.sha1str else pure tt)
]

-- used_quota = used_quota - size, which the schema wants to be a number and not below 0.
pub charge : ℕ → Option ℕ → List Quota → Option (List Quota)
charge owner size [] = some []
charge owner size (q ∷ qs) =
    let rest = charge owner size qs in
    if q.principal_id == owner
    then elim size [
      | none ↦ none
      | some n ↦
          if ltb q.used_quota n
          then none
          else Option.map (λ l. record q { used_quota = q.used_quota - n } ∷ l) rest
    ]
    else Option.map (λ l. q ∷ l) rest

abbrev size_of : Option Media → Option ℕ
size_of none = none
size_of (some m) = some m.size

-- UPDATE quota SET … WHERE principal_id = (SELECT owner_id FROM resources WHERE id = ?)
pub less_quota : ℕ → Db → Option Db
unfolding first_row charge
less_quota i db =
    let size = size_of (first_row (λ (m : Media). m.resource_id == i) db.media) in
    elim (first_row (λ (r : Resource). r.id == i) db.resources) [
      | none ↦ some db
      | some r ↦ Option.map (λ l. record db { quota = l }) (charge r.owner_id size db.quota)
    ]

unfoldable pub dbms_delete_resource : DavResource → M (Unit {0})
unfolding less_quota delete_resources
dbms_delete_resource r = do
  (if has_body r.kind then update internal_server_error (less_quota r.serialno) else pure tt)
  update internal_server_error (λ db. some (delete_resources (λ i. i == r.serialno) db))

-- `remove_vhr` is sabridge_remove_vhr, which takes the versions of a version history away.
unfoldable pub sabridge_delete_resource :
    (DavResource → M (Unit {0})) → Bool → DavResource → M (Unit {0})
unfolding sabridge_remove_body_from_disk dbms_delete_resource
sabridge_delete_resource remove_vhr keep_files r = do
  (elim r.kind [
    | some k ↦ elim k [
      | version_history ↦ remove_vhr r
      | plain ↦ sabridge_remove_body_from_disk keep_files r
      | versioned ↦ sabridge_remove_body_from_disk keep_files r
      | version ↦ sabridge_remove_body_from_disk keep_files r
      | _ ↦ pure tt
    ]
    | none ↦ pure tt
  ])
  dbms_delete_resource r

abbrev pub delete_unreached : (DavResource → M (Unit {0})) → Bool → DavResource → Outcome → M Bool
delete_unreached remove_vhr keep_files r (shortest_path (some p)) = pure false
delete_unreached remove_vhr keep_files r (shortest_path none) = do
  sabridge_delete_resource remove_vhr keep_files r
  pure true
delete_unreached remove_vhr keep_files r out_of_fuel = do
  sabridge_delete_resource remove_vhr keep_files r
  pure true

-- Returns `deleted`.
unfoldable pub sabridge_delete_if_orphaned :
    (DavResource → M (Unit {0})) → Bool → DavResource → M Bool
unfolding dbms_find_shortest_path sabridge_delete_resource
sabridge_delete_if_orphaned remove_vhr keep_files r = do
  path ← dbms_find_shortest_path root_collection_id r.serialno
  delete_unreached remove_vhr keep_files r path
