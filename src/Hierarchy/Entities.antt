-- ===== src/Hierarchy/Entities.antt =====
-- The statements of internal/db on facilities, sites, resource groups and resources that an
-- approval runs.
use topology_v.Base.{
  ℕ, ◌+◌, String, Bool, true, Option, some, ◌≡◌, refl, any, update_where, is_empty, arith, inl, inr,
  Option-cases,
}
use topology_v.Base.Results.{Outcome, ok, err, ◌>>=◌}
use topology_v.Errors.{lift}
use topology_v.Table.{
  Violation, Row, insert, has_id, by_name, children_of, update_named, mark_deleted,
}
use topology_v.Table.Links.{
  Linked-insert_child, Linked-insert_parent, Linked-update_child, Linked-update_parent,
  Linked-delete_child, Linked-delete_parent, Linked-update_where, by_name-has_id,
}
use topology_v.Db.{Database, FacilityBody, SiteBody, GroupBody, ResourceBody}
use topology_v.Queries.Entities.{
  new_row, insert_facility, insert_site, insert_resource_group, insert_resource,
  update_facility_fields, update_site_fields, update_resource_group_fields, update_resource_fields,
  facility_id_by_name, site_id_by_name, resource_group_id_by_name, soft_delete_facility_by_name,
  soft_delete_site_by_name, soft_delete_resource_group_by_name, soft_delete_resource,
}
use topology_v.Hierarchy.{IsLinked}

-- The id that a lookup by name gives is the id of a live row.
pub facility_id-has_id :
    (name : String) (db : Database) {i : ℕ}
    → facility_id_by_name name db ≡ some i
    → any (has_id i) db.facilities ≡ true
unfolding facility_id_by_name
facility_id-has_id name db h = elim (Option-cases (by_name name db.facilities)) [
  | inl e ↦ absurd (ground arith)
  | inr (f, e) ↦ ground (arith, by_name-has_id name db.facilities e)
]

-- Inversion of an INSERT or UPDATE on one table.
pub lifted-eq-ok {ℓ} :
    {A : Type 0} {B : Type ℓ} (m : Outcome Violation A) (f : A → B) {b : B}
    → (lift m >>= λ a. ok (f a)) ≡ ok b
    → (a : A) × (m ≡ ok a) × (b ≡ f a)
lifted-eq-ok (ok a) f h = (a, refl, cc)
lifted-eq-ok (err e) f h = cc

pub insert_facility-IsLinked :
    (name : String) (body : FacilityBody) (db db' : Database)
    → insert_facility name body db ≡ ok db'
    → IsLinked db
    → IsLinked db'
unfolding insert_facility
insert_facility-IsLinked name body db db' e h =
    let row = new_row db.next_uuid tt name body db.now in
    let (rows, i, q) =
      lifted-eq-ok (insert row db.facilities)
        (λ rows. record db { facilities = rows; next_uuid = db.next_uuid + 1 }) e in
    rw q (record {
      sites = Linked-insert_parent db.facilities rows db.sites row i h.sites;
      groups = h.groups;
      resources = h.resources;
    })

pub insert_site-IsLinked :
    (facility_id : ℕ) (name : String) (body : SiteBody) (db db' : Database)
    → insert_site facility_id name body db ≡ ok db'
    → any (has_id facility_id) db.facilities ≡ true
    → IsLinked db
    → IsLinked db'
unfolding insert_site
insert_site-IsLinked facility_id name body db db' e k h =
    let row = new_row db.next_uuid facility_id name body db.now in
    let (rows, i, q) =
      lifted-eq-ok (insert row db.sites)
        (λ rows. record db { sites = rows; next_uuid = db.next_uuid + 1 }) e in
    rw q (record {
      sites = Linked-insert_child db.facilities db.sites rows row i k h.sites;
      groups = Linked-insert_parent db.sites rows db.resource_groups row i h.groups;
      resources = h.resources;
    })

pub update_site-IsLinked :
    (target new : String) (facility_id : ℕ) (body : SiteBody) (db db' : Database)
    → update_site_fields target new facility_id body db ≡ ok db'
    → any (has_id facility_id) db.facilities ≡ true
    → IsLinked db
    → IsLinked db'
unfolding update_site_fields
update_site-IsLinked target new facility_id body db db' e k h =
    let (rows, i, q) =
      lifted-eq-ok (update_named target new _ db.sites) (λ rows. record db { sites = rows }) e in
    rw q (record {
      sites = Linked-update_child db.facilities target new _ db.sites rows i (λ c _. inr k) h.sites;
      groups =
          Linked-update_parent db.sites rows target new _ db.resource_groups i (λ j r. refl)
            h.groups;
      resources = h.resources;
    })

pub site_id-has_id :
    (name : String) (db : Database) {i : ℕ}
    → site_id_by_name name db ≡ some i
    → any (has_id i) db.sites ≡ true
unfolding site_id_by_name
site_id-has_id name db h = elim (Option-cases (by_name name db.sites)) [
  | inl e ↦ absurd (ground arith)
  | inr (x, e) ↦ ground (arith, by_name-has_id name db.sites e)
]

pub resource_group_id-has_id :
    (name : String) (db : Database) {i : ℕ}
    → resource_group_id_by_name name db ≡ some i
    → any (has_id i) db.resource_groups ≡ true
unfolding resource_group_id_by_name
resource_group_id-has_id name db h = elim (Option-cases (by_name name db.resource_groups)) [
  | inl e ↦ absurd (ground arith)
  | inr (x, e) ↦ ground (arith, by_name-has_id name db.resource_groups e)
]

pub update_facility-IsLinked :
    (target new institution : String) (db db' : Database)
    → update_facility_fields target new institution db ≡ ok db'
    → IsLinked db
    → IsLinked db'
unfolding update_facility_fields
update_facility-IsLinked target new institution db db' e h =
    let (rows, i, q) =
      lifted-eq-ok (update_named target new _ db.facilities)
        (λ rows. record db { facilities = rows }) e in
    rw q (record {
      sites = Linked-update_parent db.facilities rows target new _ db.sites i (λ j r. refl) h.sites;
      groups = h.groups;
      resources = h.resources;
    })

pub insert_group-IsLinked :
    (site_id : ℕ) (name : String) (body : GroupBody) (db db' : Database)
    → insert_resource_group site_id name body db ≡ ok db'
    → any (has_id site_id) db.sites ≡ true
    → IsLinked db
    → IsLinked db'
unfolding insert_resource_group
insert_group-IsLinked site_id name body db db' e k h =
    let row = new_row db.next_uuid site_id name body db.now in
    let (rows, i, q) =
      lifted-eq-ok (insert row db.resource_groups)
        (λ rows. record db { resource_groups = rows; next_uuid = db.next_uuid + 1 }) e in
    rw q (record {
      sites = h.sites;
      groups = Linked-insert_child db.sites db.resource_groups rows row i k h.groups;
      resources = Linked-insert_parent db.resource_groups rows db.resources row i h.resources;
    })

pub update_group-IsLinked :
    (target new : String) (site_id : ℕ) (production disable : Option Bool) (support about : String)
    (db db' : Database)
    → update_resource_group_fields target new site_id production disable support about db ≡ ok db'
    → any (has_id site_id) db.sites ≡ true
    → IsLinked db
    → IsLinked db'
unfolding update_resource_group_fields
update_group-IsLinked target new site_id production disable support about db db' e k h =
    let (rows, i, q) =
      lifted-eq-ok (update_named target new _ db.resource_groups)
        (λ rows. record db { resource_groups = rows }) e in
    rw q (record {
      sites = h.sites;
      groups =
          Linked-update_child db.sites target new _ db.resource_groups rows i (λ c _. inr k)
            h.groups;
      resources =
          Linked-update_parent db.resource_groups rows target new _ db.resources i (λ j r. refl)
            h.resources;
    })

pub insert_resource-IsLinked :
    (id group_id : ℕ) (name : String) (body : ResourceBody) (db db' : Database)
    → insert_resource id group_id name body db ≡ ok db'
    → any (has_id group_id) db.resource_groups ≡ true
    → IsLinked db
    → IsLinked db'
unfolding insert_resource
insert_resource-IsLinked id group_id name body db db' e k h =
    let row = new_row id group_id name body db.now in
    let (rows, i, q) =
      lifted-eq-ok (insert row db.resources) (λ rows. record db { resources = rows }) e in
    rw q (record {
      sites = h.sites;
      groups = h.groups;
      resources = Linked-insert_child db.resource_groups db.resources rows row i k h.resources;
    })

-- The row that UpdateResourceFields writes.
abbrev moved_to : ℕ → String → ResourceBody → ℕ → Row ℕ ResourceBody → Row ℕ ResourceBody
moved_to group_id name body now r = record r {
  parent = group_id;
  name = name;
  body = record body { id_explicit = r.body.id_explicit };
  updated_at = now;
}

pub update_resource-IsLinked :
    (id group_id : ℕ) (name : String) (body : ResourceBody) (db db' : Database)
    → update_resource_fields id group_id name body db ≡ ok db'
    → any (has_id group_id) db.resource_groups ≡ true
    → IsLinked db
    → IsLinked db'
unfolding update_resource_fields
update_resource-IsLinked id group_id name body db db' e k h =
    let rows = update_where (has_id id) (moved_to group_id name body db.now) db.resources in
    let q : db' ≡ record db { resources = rows } = ground arith in
    rw q (record {
      sites = h.sites;
      groups = h.groups;
      resources =
          Linked-update_where db.resource_groups (has_id id) (moved_to group_id name body db.now)
            db.resources (λ c _. inr k) h.resources;
    })

pub soft_delete_facility-IsLinked :
    (name : String) (by : Option ℕ) (db : Database)
    → is_empty (children_of name db.facilities db.sites) ≡ true
    → IsLinked db
    → IsLinked (soft_delete_facility_by_name name by db)
unfolding soft_delete_facility_by_name
soft_delete_facility-IsLinked name by db g h = record {
  sites = Linked-delete_parent db.now by name db.facilities db.sites g h.sites;
  groups = h.groups;
  resources = h.resources;
}

pub soft_delete_site-IsLinked :
    (name : String) (by : Option ℕ) (db : Database)
    → is_empty (children_of name db.sites db.resource_groups) ≡ true
    → IsLinked db
    → IsLinked (soft_delete_site_by_name name by db)
unfolding soft_delete_site_by_name
soft_delete_site-IsLinked name by db g h = record {
  sites = Linked-delete_child db.facilities db.now by name db.sites h.sites;
  groups = Linked-delete_parent db.now by name db.sites db.resource_groups g h.groups;
  resources = h.resources;
}

pub soft_delete_group-IsLinked :
    (name : String) (by : Option ℕ) (db : Database)
    → is_empty (children_of name db.resource_groups db.resources) ≡ true
    → IsLinked db
    → IsLinked (soft_delete_resource_group_by_name name by db)
unfolding soft_delete_resource_group_by_name
soft_delete_group-IsLinked name by db g h = record {
  sites = h.sites;
  groups = Linked-delete_child db.sites db.now by name db.resource_groups h.groups;
  resources = Linked-delete_parent db.now by name db.resource_groups db.resources g h.resources;
}

pub soft_delete_resource-IsLinked :
    (id : ℕ) (by : Option ℕ) (db : Database)
    → IsLinked db
    → IsLinked (soft_delete_resource id by db)
unfolding soft_delete_resource
soft_delete_resource-IsLinked id by db h = record {
  sites = h.sites;
  groups = h.groups;
  resources =
      Linked-update_where db.resource_groups (has_id id) (mark_deleted db.now by) db.resources
        (λ c l. inl refl) h.resources;
}
