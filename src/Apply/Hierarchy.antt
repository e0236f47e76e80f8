-- ===== src/Apply/Hierarchy.antt =====
-- applyFacilityProposal, applySiteProposal and applyResourceGroupProposal
-- (internal/handlers/proposals.go), with GenID of internal/topology/model.go.
use topology_v.Base.{
  ℕ, ◌+◌, ◌-◌, ◌%◌, ◌^◌, String, Bool, true, false, Option, none, some, str_eq, length, is_empty,
  any, List, if◌then◌else◌,
}
use topology_v.Base.Results.{ok, err, guard, need, ◌>>=◌, ◌>>◌}
use topology_v.Models.{Kind, is_delete, is_update, facility, site, resource_group}
use topology_v.External.{External}
use topology_v.Errors.{
  Result, has_children, not_found, facility_needs_institution, unknown_institution,
}
use topology_v.Table.{children_of, by_name}
use topology_v.Db.{Database, SiteBody}
use topology_v.Payloads.{EntityContact, FacilityProposal, SiteProposal, GroupProposal}
use topology_v.Queries.Contacts.{replace_entity_contacts, repoint_entity_name_references}
use topology_v.Queries.Entities.{
  insert_facility, insert_site, insert_resource_group, update_facility_fields, update_site_fields,
  update_resource_group_fields, soft_delete_facility_by_name, soft_delete_site_by_name,
  soft_delete_resource_group_by_name, facility_id_by_name, site_id_by_name,
}
use topology_v.Apply.Change.{Change, unmarshal}
use topology_v.Apply.Contacts.{require_resolved_contacts}

-- GenID: 1 + md5(name) mod (2^31 - 1).
unfoldable pub gen_id : External → String → ℕ
gen_id ext name = 1 + ext.md5 name % (2 ^ 31 - 1)

-- conv.BoolOr.
abbrev pub bool_or : Option Bool → Bool → Bool
bool_or none def = def
bool_or (some b) def = b

-- The end of all three: the contacts are replaced, and after an update the open hand-offs follow a
-- rename.
unfoldable pub finish : Kind → Change → String → List EntityContact → ℕ → Database → Database
finish kind p name contacts actor db =
    let db' = replace_entity_contacts kind p.target_name name contacts (some actor) db in
    if is_update p.operation
    then repoint_entity_name_references kind p.target_name name db'
    else db'

-- The three deletes: refused while a live child joins with the name.
unfoldable pub delete_facility : Change → ℕ → Database → Result Database
delete_facility p actor db = do
  guard (is_empty (children_of p.target_name db.facilities db.sites))
      (has_children (length (children_of p.target_name db.facilities db.sites)))
  ok (soft_delete_facility_by_name p.target_name (some actor) db)

unfoldable pub delete_site : Change → ℕ → Database → Result Database
delete_site p actor db = do
  guard (is_empty (children_of p.target_name db.sites db.resource_groups))
      (has_children (length (children_of p.target_name db.sites db.resource_groups)))
  ok (soft_delete_site_by_name p.target_name (some actor) db)

unfoldable pub delete_resource_group : Change → ℕ → Database → Result Database
delete_resource_group p actor db = do
  guard (is_empty (children_of p.target_name db.resource_groups db.resources))
      (has_children (length (children_of p.target_name db.resource_groups db.resources)))
  ok (soft_delete_resource_group_by_name p.target_name (some actor) db)

-- The institution of a facility: one of the registry, or none where an existing facility has none.
unfoldable pub check_institution : Change → String → Database → Result (Unit {0})
check_institution p institution db =
    if str_eq institution ""
    then if is_update p.operation
      then (do
        cur ← need (by_name p.target_name db.facilities) (not_found p.target_name)
        guard (str_eq cur.body.institution_id "") facility_needs_institution)
      else err facility_needs_institution
    else guard (any (λ i. str_eq i institution) db.institutions) (unknown_institution institution)

unfoldable pub save_facility : External → Change → FacilityProposal → ℕ → Database → Result Database
save_facility ext p fp actor db = do
  check_institution p fp.institution_id db
  require_resolved_contacts db fp.contacts
  saved ←
      (if is_update p.operation
        then update_facility_fields p.target_name fp.name fp.institution_id db
        else insert_facility fp.name
            (record {
              topology_id = gen_id ext fp.name;
              institution_id = fp.institution_id;
              extra = none;
              id_explicit = false;
            })
            db)
  ok (finish facility p fp.name fp.contacts actor saved)

-- The columns of a site, with the id that an insert gives it.
abbrev pub site_body : ℕ → SiteProposal → SiteBody
site_body id sp = record {
  topology_id = id;
  long_name = sp.long_name;
  description = sp.description;
  address_line1 = sp.address_line1;
  address_line2 = sp.address_line2;
  city = sp.city;
  state = sp.state;
  country = sp.country;
  zipcode = sp.zipcode;
  latitude = sp.latitude;
  longitude = sp.longitude;
  extra = none;
  id_explicit = false;
}

unfoldable pub save_site : External → Change → SiteProposal → ℕ → Database → Result Database
save_site ext p sp actor db = do
  require_resolved_contacts db sp.contacts
  facility_id ← need (facility_id_by_name sp.facility db) (not_found sp.facility)
  saved ←
      (if is_update p.operation
        then update_site_fields p.target_name sp.name facility_id (site_body 0 sp) db
        else insert_site facility_id sp.name (site_body (gen_id ext sp.name) sp) db)
  ok (finish site p sp.name sp.contacts actor saved)

unfoldable pub save_resource_group :
    External → Change → GroupProposal → ℕ → Database → Result Database
save_resource_group ext p rp actor db = do
  require_resolved_contacts db rp.contacts
  site_id ← need (site_id_by_name rp.site db) (not_found rp.site)
  saved ←
      (if is_update p.operation
        then update_resource_group_fields p.target_name rp.name site_id rp.production rp.disable
            rp.support_center rp.group_description db
        else insert_resource_group site_id rp.name
            (record {
              group_id = gen_id ext rp.name;
              production = some (bool_or rp.production true);
              disable = some (bool_or rp.disable false);
              support_center = rp.support_center;
              group_description = rp.group_description;
              extra = none;
              id_explicit = false;
            })
            db)
  ok (finish resource_group p rp.name rp.contacts actor saved)

-- applyFacilityProposal.
unfoldable pub apply_facility : External → Change → ℕ → Database → Result Database
apply_facility ext p actor db =
    if is_delete p.operation
    then delete_facility p actor db
    else unmarshal ext.decode_facility p.proposed_state >>= λ fp. save_facility ext p fp actor db

-- applySiteProposal.
unfoldable pub apply_site : External → Change → ℕ → Database → Result Database
apply_site ext p actor db =
    if is_delete p.operation
    then delete_site p actor db
    else unmarshal ext.decode_site p.proposed_state >>= λ sp. save_site ext p sp actor db

-- applyResourceGroupProposal.
unfoldable pub apply_resource_group : External → Change → ℕ → Database → Result Database
apply_resource_group ext p actor db =
    if is_delete p.operation
    then delete_resource_group p actor db
    else unmarshal ext.decode_group p.proposed_state >>= λ rp. save_resource_group ext p rp actor db
