-- ===== src/Queries/Entities.antt =====
-- internal/db/queries_topology.go and internal/db/queries_browse.go: inserts, updates, deletes and
-- lookups of facilities, sites, resource groups and resources.
use topology_v.Base.{
  ℕ, ◌+◌, String, Bool, Option, none, some, [], ◌∷◌, ◌++◌, ◌==◌, any, is_none, update_where, select,
  ◌&&◌, not, if◌then◌else◌,
}
use topology_v.Base.Results.{ok, err, ◌>>=◌, ◌>>◌, guard}
use topology_v.Errors.{Result, lift, not_found, violation}
use topology_v.Table.{
  Row, duplicate_name, is_named, has_id, insert, update_named, soft_delete, by_name, mark_deleted,
}
use topology_v.Db.{Database, FacilityBody, SiteBody, GroupBody, ResourceBody, ServiceRow}
use topology_v.Queries.Contacts.{upsert_provisioned_contact_user}

-- A row as an INSERT makes it: a fresh uuid, the time of the request, not deleted.
abbrev pub new_row : {K B : Type 0} → ℕ → K → String → B → ℕ → Row K B
new_row id parent name body now = record {
  id = id;
  parent = parent;
  name = name;
  body = body;
  updated_at = now;
  deleted_at = none;
  deleted_by = none;
}

-- InsertFacility.
unfoldable pub insert_facility : String → FacilityBody → Database → Result Database
insert_facility name body db = do
  rows ← lift (insert (new_row db.next_uuid tt name body db.now) db.facilities)
  ok (record db { facilities = rows; next_uuid = db.next_uuid + 1 })

-- InsertSite.
unfoldable pub insert_site : ℕ → String → SiteBody → Database → Result Database
insert_site facility_id name body db = do
  rows ← lift (insert (new_row db.next_uuid facility_id name body db.now) db.sites)
  ok (record db { sites = rows; next_uuid = db.next_uuid + 1 })

-- InsertResourceGroup.
unfoldable pub insert_resource_group : ℕ → String → GroupBody → Database → Result Database
insert_resource_group site_id name body db = do
  rows ← lift (insert (new_row db.next_uuid site_id name body db.now) db.resource_groups)
  ok (record db { resource_groups = rows; next_uuid = db.next_uuid + 1 })

-- InsertResource: the topology_id is the primary key, and the caller gives it.
unfoldable pub insert_resource : ℕ → ℕ → String → ResourceBody → Database → Result Database
insert_resource topology_id group_id name body db = do
  rows ← lift (insert (new_row topology_id group_id name body db.now) db.resources)
  ok (record db { resources = rows })

-- NextAppCreatedResourceID.
unfoldable pub next_app_created_resource_id : Database → ℕ × Database
next_app_created_resource_id db =
    (db.resource_seq, record db { resource_seq = db.resource_seq + 1 })

-- UpdateFacilityFields.
unfoldable pub update_facility_fields : String → String → String → Database → Result Database
update_facility_fields target new institution db = do
  rows ← lift (
      update_named target new
        (λ r. record r {
          body = record (r.body) { institution_id = institution };
          updated_at = db.now;
        })
        db.facilities)
  ok (record db { facilities = rows })

-- UpdateSiteFields: all but the id, the extra keys and the mark of an explicit id.
unfoldable pub update_site_fields : String → String → ℕ → SiteBody → Database → Result Database
update_site_fields target new facility_id body db = do
  rows ← lift (
      update_named target new
        (λ r. record r {
          parent = facility_id;
          body = record body {
            topology_id = r.body.topology_id;
            extra = r.body.extra;
            id_explicit = r.body.id_explicit;
          };
          updated_at = db.now;
        })
        db.sites)
  ok (record db { sites = rows })

-- UpdateResourceGroupFields.
unfoldable pub update_resource_group_fields :
    String → String → ℕ → Option Bool → Option Bool → String → String → Database → Result Database
update_resource_group_fields target new site_id production disable support description db = do
  rows ← lift (
      update_named target new
        (λ r. record r {
          parent = site_id;
          body = record (r.body) {
            production = production;
            disable = disable;
            support_center = support;
            group_description = description;
          };
          updated_at = db.now;
        })
        db.resource_groups)
  ok (record db { resource_groups = rows })

-- UpdateResourceFields: by the topology_id, so that a rename keeps the identity.
unfoldable pub update_resource_fields : ℕ → ℕ → String → ResourceBody → Database → Result Database
update_resource_fields topology_id group_id name body db =
    if any (has_id topology_id) db.resources
      && any (λ r. is_named name r && not (r.id == topology_id)) db.resources
    then err (violation (duplicate_name name))
    else ok (record db {
      resources =
          update_where (has_id topology_id)
            (λ r. record r {
              parent = group_id;
              name = name;
              body = record body { id_explicit = r.body.id_explicit };
              updated_at = db.now;
            })
            db.resources;
    })

-- SoftDeleteFacilityByName, SoftDeleteSiteByName, SoftDeleteResourceGroupByName.
unfoldable pub soft_delete_facility_by_name : String → Option ℕ → Database → Database
soft_delete_facility_by_name name by db = record db {
  facilities = soft_delete db.now by name db.facilities;
}

unfoldable pub soft_delete_site_by_name : String → Option ℕ → Database → Database
soft_delete_site_by_name name by db = record db { sites = soft_delete db.now by name db.sites }

unfoldable pub soft_delete_resource_group_by_name : String → Option ℕ → Database → Database
soft_delete_resource_group_by_name name by db = record db {
  resource_groups = soft_delete db.now by name db.resource_groups;
}

-- SoftDeleteResource: a no-op if the resource is gone already.
unfoldable pub soft_delete_resource : ℕ → Option ℕ → Database → Database
soft_delete_resource topology_id by db = record db {
  resources = update_where (has_id topology_id) (mark_deleted db.now by) db.resources;
}

-- FacilityIDByName, SiteIDByName, ResourceGroupIDByName.
unfoldable pub facility_id_by_name : String → Database → Option ℕ
facility_id_by_name name db = elim (by_name name db.facilities) [ none ↦ none | some f ↦ some f.id ]

unfoldable pub site_id_by_name : String → Database → Option ℕ
site_id_by_name name db = elim (by_name name db.sites) [ none ↦ none | some s ↦ some s.id ]

unfoldable pub resource_group_id_by_name : String → Database → Option ℕ
resource_group_id_by_name name db = elim (by_name name db.resource_groups) [
  | none ↦ none
  | some g ↦ some g.id
]

-- ResourceRGID: the group of a live resource, by a join that also finds a deleted group.
unfoldable pub resource_rg_id : String → Database → Option ℕ
resource_rg_id name db = elim (by_name name db.resources) [
  | none ↦ none
  | some r ↦ if any (λ g. g.id == r.parent) db.resource_groups then some r.parent else none
]

-- ReplaceResourceServices: the rows go for good.
unfoldable pub replace_resource_services : ℕ → Database → Database
replace_resource_services topology_id db = record db {
  resource_services = select (λ s. not (s.resource_id == topology_id)) db.resource_services;
}

-- ReplaceResourceContactsBegin.
unfoldable pub replace_resource_contacts_begin : ℕ → Option ℕ → Database → Database
replace_resource_contacts_begin topology_id by db = record db {
  resource_contacts =
      update_where (λ c. is_none c.deleted_at && c.resource_id == topology_id)
        (λ c. record c { deleted_at = some db.now; deleted_by = by }) db.resource_contacts;
}

-- The foreign key resource_id → resources(topology_id), which a deleted row meets too.
abbrev pub resource_exists : ℕ → Database → Bool
resource_exists topology_id db = any (λ r. r.id == topology_id) db.resources

-- InsertResourceService.
unfoldable pub insert_resource_service : ServiceRow → Database → Result Database
insert_resource_service row db = do
  guard (resource_exists row.resource_id db) (not_found row.service_name)
  ok (record db { resource_services = db.resource_services ++ row ∷ [] })

-- InsertResourceContact. The user is provisioned before the contact's row is inserted.
unfoldable pub insert_resource_contact :
    ℕ → String → String → String → String → Database → Result Database
insert_resource_contact topology_id ctype rank name id db =
    let (user, db') = upsert_provisioned_contact_user name id db in
    do
      guard (resource_exists topology_id db) (not_found name)
      ok (record db' {
        resource_contacts =
            db'.resource_contacts
            ++ record {
              resource_id = topology_id;
              contact_type = ctype;
              rank = rank;
              contact_name = name;
              contact_id = id;
              user_id = user;
              deleted_at = none;
              deleted_by = none;
            }
              ∷ [];
      })
