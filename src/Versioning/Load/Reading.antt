-- ===== src/Versioning/Load/Reading.antt =====
-- Loading writes nothing: limestone/bridge.c, lines 59-109, limestone/dbms_deltav.c, lines 25-372.
use limestone.Prelude.{
  ℕ, zero, suc, ◌≡◌, refl, ◌∙◌, Bool, true, false, Option, none, some, ◌||◌, ◌==◌,
}
use limestone.Store.{
  Vcr, Version, ResourceType, Db, M, Store, Result, ok, err, internal_server_error, pure, ◌>>=◌,
  ◌>>◌, behind, select, ignore_error, settled,
}
use limestone.Store.Laws.{select-holds}
use limestone.Bridge.Delete.{
  DavResource, dbms_get_resource, dbms_get_media_props, media_props, has_body,
}
use limestone.Versioning.{
  VersionedResource, empty_resource, dbms_get_vcr_props, dbms_get_version_number,
  dbms_get_version_resource_props, dbms_get_vhr_root_version_id, dbms_get_vhr_props, numbered,
  state_of, controlled, version_row, vhr_row,
}
use limestone.Versioning.Load.{
  dbms_get_creator_displayname, nothing, dbms_get_deltav_props, other_props, media_and_deltav,
  named, get_property,
}

-- A call that writes nothing.
abbrev pub IsReading : {A : Type 0} → M A → Type 0
IsReading m = (s : Store) → (m s).1.db ≡ s.db

select-IsReading : {A : Type 0} (f : Db → A) → IsReading (select internal_server_error f)
select-IsReading f s =
    select-holds (λ r. r.1.db ≡ s.db) internal_server_error f s (λ s' e. e) (λ s' e. e)

behind-reading :
    {A B : Type 0} (f : A → M B) (r : Result A × Store) (db : Db)
    → r.1.db ≡ db
    → ((a : A) → IsReading (f a))
    → (behind f r).1.db ≡ db
behind-reading f (ok a, s) db e h = h a s ∙ e
behind-reading f (err c, s) db e h = e

bind-IsReading :
    {A B : Type 0} (m : M A) (f : A → M B)
    → IsReading m
    → ((a : A) → IsReading (f a))
    → IsReading (m >>= f)
bind-IsReading m f h k s = behind-reading f (m s) s.db (h s) k

settled-reading :
    {A : Type 0} (a : A) (r : Result A × Store) (db : Db) → r.1.db ≡ db → (settled a r).1.db ≡ db
settled-reading a (ok b, s) db e = e
settled-reading a (err c, s) db e = e

ignore_error-IsReading : {A : Type 0} (a : A) (m : M A) → IsReading m → IsReading (ignore_error a m)
unfolding ignore_error
ignore_error-IsReading a m h s = settled-reading a (m s) s.db (h s)

pure-IsReading : {A : Type 0} (a : A) → IsReading (pure a)
pure-IsReading a s = refl

version_number-IsReading : (r : VersionedResource) → IsReading (dbms_get_version_number r)
unfolding dbms_get_version_number
version_number-IsReading r = bind-IsReading _ (numbered r) (select-IsReading _) end
  where
    end : (o : Option Version) → IsReading (numbered r o)
    end none s = refl
    end (some v) s = refl

vcr_props-IsReading : (r : VersionedResource) → IsReading (dbms_get_vcr_props r)
unfolding dbms_get_vcr_props
vcr_props-IsReading r = bind-IsReading _ (controlled r) (select-IsReading _) end
  where
    end : (o : Option Vcr) → IsReading (controlled r o)
    end none s = refl
    end (some c) s =
        version_number-IsReading
          (record r {
            checked_state = state_of c.checked_in;
            checked_id = c.checked_id;
            vhr_id = c.vhr_id;
            autoversion_type = c.version_type;
          })
          s

version_resource_props-IsReading :
    (r : VersionedResource) → IsReading (dbms_get_version_resource_props r)
unfolding dbms_get_version_resource_props
version_resource_props-IsReading r = bind-IsReading _ (version_row r) (select-IsReading _) end
  where
    end : (o : Option Version) → IsReading (version_row r o)
    end none s = refl
    end (some v) s =
        bind-IsReading (dbms_get_vcr_props (empty_resource v.vcr_id))
          (λ vcr. pure (record r {
            version = v.number;
            vcr_id = v.vcr_id;
            lastversion = r.lastversion || (vcr.checked_id == r.serialno);
          }))
          (vcr_props-IsReading (empty_resource v.vcr_id)) (λ a s. refl) s

root_version_id-IsReading : (r : VersionedResource) → IsReading (dbms_get_vhr_root_version_id r)
unfolding dbms_get_vhr_root_version_id
root_version_id-IsReading r = bind-IsReading _ _ (select-IsReading _) (λ a s. refl)

vhr_props-IsReading : (r : VersionedResource) → IsReading (dbms_get_vhr_props r)
unfolding dbms_get_vhr_props
vhr_props-IsReading r = bind-IsReading _ (vhr_row r) (select-IsReading _) end
  where
    end : (o : Option Vcr) → IsReading (vhr_row r o)
    end none s = refl
    end (some c) s =
        root_version_id-IsReading
          (record r {
            vcr_id = some c.resource_id;
            checked_state = state_of c.checked_in;
            checked_id = c.checked_id;
          })
          s

nothing-IsReading : {A : Type 0} (m : M A) → IsReading m → IsReading (nothing m)
nothing-IsReading m h = bind-IsReading m _ h (λ a s. refl)

abbrev of_version : ℕ → M (Unit {0})
of_version id =
    ignore_error tt (nothing (dbms_get_version_resource_props (empty_resource (some id))))

of_version-IsReading : (id : ℕ) → IsReading (of_version id >> dbms_get_creator_displayname)
of_version-IsReading id =
    bind-IsReading (of_version id) _
      (ignore_error-IsReading tt _
        (nothing-IsReading _ (version_resource_props-IsReading (empty_resource (some id)))))
      (λ a. select-IsReading _)

deltav_props-IsReading :
    (id : ℕ) (kind : Option ResourceType) → IsReading (dbms_get_deltav_props id kind)
unfolding dbms_get_deltav_props
deltav_props-IsReading id none = pure-IsReading tt
deltav_props-IsReading id (some ResourceType.versioned) =
    nothing-IsReading _ (vcr_props-IsReading (empty_resource (some id)))
deltav_props-IsReading id (some ResourceType.versioned_collection) =
    nothing-IsReading _ (vcr_props-IsReading (empty_resource (some id)))
deltav_props-IsReading id (some ResourceType.version) = of_version-IsReading id
deltav_props-IsReading id (some ResourceType.collection_version) = of_version-IsReading id
deltav_props-IsReading id (some ResourceType.version_history) =
    nothing-IsReading _ (vhr_props-IsReading (empty_resource (some id)))
deltav_props-IsReading id (some ResourceType.plain) = pure-IsReading tt
deltav_props-IsReading id (some ResourceType.collection) = pure-IsReading tt
deltav_props-IsReading id (some ResourceType.principal) = pure-IsReading tt
deltav_props-IsReading id (some ResourceType.user) = pure-IsReading tt
deltav_props-IsReading id (some ResourceType.group) = pure-IsReading tt
deltav_props-IsReading id (some ResourceType.redirect) = pure-IsReading tt
deltav_props-IsReading id (some ResourceType.locknull) = pure-IsReading tt

other_props-IsReading : (kind : Option ResourceType) → IsReading (other_props kind)
other_props-IsReading none = pure-IsReading tt
other_props-IsReading (some ResourceType.redirect) =
    ignore_error-IsReading tt _ (select-IsReading _)
other_props-IsReading (some ResourceType.collection) = select-IsReading _
other_props-IsReading (some ResourceType.versioned_collection) = select-IsReading _
other_props-IsReading (some ResourceType.versioned) = pure-IsReading tt
other_props-IsReading (some ResourceType.version) = pure-IsReading tt
other_props-IsReading (some ResourceType.collection_version) = pure-IsReading tt
other_props-IsReading (some ResourceType.version_history) = pure-IsReading tt
other_props-IsReading (some ResourceType.plain) = pure-IsReading tt
other_props-IsReading (some ResourceType.principal) = pure-IsReading tt
other_props-IsReading (some ResourceType.user) = pure-IsReading tt
other_props-IsReading (some ResourceType.group) = pure-IsReading tt
other_props-IsReading (some ResourceType.locknull) = pure-IsReading tt

media-IsReading : (b : Bool) (r : DavResource) → IsReading (media_props b r)
unfolding media_props
media-IsReading false r = pure-IsReading r
media-IsReading true r = bind-IsReading _ _ (select-IsReading _) (λ a s. refl)

resource-IsReading : (r : DavResource) → IsReading (dbms_get_resource r)
unfolding dbms_get_resource
resource-IsReading r = bind-IsReading _ _ (select-IsReading _) (λ a s. refl)

media_and_deltav-IsReading : (r : DavResource) → IsReading (media_and_deltav r)
unfolding media_and_deltav dbms_get_media_props
media_and_deltav-IsReading r =
    bind-IsReading (media_props (has_body r.kind) r) (λ m. dbms_get_deltav_props r.serialno r.kind)
      (media-IsReading (has_body r.kind) r) (λ m. deltav_props-IsReading r.serialno r.kind)

-- Loading a resource by its id writes nothing.
pub get_property-IsReading : (id : ℕ) → IsReading (get_property id)
unfolding get_property
get_property-IsReading zero = pure-IsReading tt
get_property-IsReading (suc n) =
    bind-IsReading (ignore_error (named (suc n)) (dbms_get_resource (named (suc n))))
      (λ r. other_props r.kind >> media_and_deltav r)
      (ignore_error-IsReading (named (suc n)) _ (resource-IsReading (named (suc n))))
      (λ r.
        bind-IsReading (other_props r.kind) (λ a. media_and_deltav r) (other_props-IsReading r.kind)
          (λ a. media_and_deltav-IsReading r))
