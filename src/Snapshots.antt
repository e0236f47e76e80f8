-- ===== src/Snapshots.antt =====
-- internal/handlers/proposal_snapshots.go: the live state of an entity in the JSON shape of its own
-- proposed_state, with the snapshots of internal/handlers/support_centers.go and
-- internal/handlers/vos.go. A JSON object lists the fields of the Go struct in its order.
pub mod Resources
pub mod Entity
use topology_v.Base.{
  ℕ, String, Bool, true, false, Option, none, some, List, [], ◌∷◌, str_eq, ◌&&◌, ◌==◌, is_none,
  select, find?, map, if◌then◌else◌,
}
use topology_v.Models.{Kind, resource, resource_group, site, facility, project, support_center, vo}
use topology_v.Json.{
  Json, null, bool, num, str, arr, obj, Items, nil, cons, Fields, end, field, get, put, as_object,
  map_from_json,
}
use topology_v.External.{External}
use topology_v.Table.{Row, by_name, by_id}
use topology_v.Db.{
  Database, FacilityBody, SiteBody, GroupBody, ResourceBody, EntityContactRow, ServiceRow,
  ResourceContact, ProjectRow, SupportCenterRow, VoRow,
}
use topology_v.Payloads.{EntityContact}
use topology_v.Queries.Contacts.{is_contact_of}
use topology_v.Queries.Catalogue.{get_vo, is_support_center, is_project}
use topology_v.Apply.Stale.{joined}

-- json.Marshal of the Go types that the shapes hold.
abbrev pub opt_bool : Option Bool → Json
opt_bool none = null
opt_bool (some b) = bool b

abbrev pub or_null : Option Json → Json
or_null none = null
or_null (some v) = v

abbrev pub opt_map : Option Fields → Json
opt_map none = null
opt_map (some fs) = obj fs

abbrev pub strings : List String → Items
strings [] = nil
strings (s ∷ ss) = cons (str s) (strings ss)

-- `json:"extra,omitempty"`.
abbrev pub extra_field : Option Fields → Fields
extra_field none = end
extra_field (some end) = end
extra_field (some (field k v fs)) = field "extra" (obj (field k v fs)) end

abbrev pub contact_json : EntityContact → Json
contact_json c = obj (
    field "contact_type" (str c.contact_type)
      (field "rank" (str c.rank) (field "name" (str c.name) (field "id" (str c.id) end))))

abbrev pub contacts_json : List EntityContact → Items
contacts_json [] = nil
contacts_json (c ∷ cs) = cons (contact_json c) (contacts_json cs)

-- What the name of the parent row is, for the join.
abbrev pub parent_name : {K B C : Type 0} → List (Row K B) → Row ℕ C → String
parent_name parents r = elim (find? (λ p. p.id == r.parent) parents) [ none ↦ "" | some p ↦ p.name ]

module _ (ext : External) (db : Database) where
  -- ListEntityContacts.
  unfoldable pub list_entity_contacts : Kind → String → List EntityContact
  list_entity_contacts kind name = ext.sort_contacts (
      map
        (λ c. record {
          contact_type = c.contact_type;
          rank = c.rank;
          name = c.contact_name;
          id = c.contact_id;
        })
        (select (is_contact_of kind name) db.entity_contacts))

  -- snapshotFacilityState.
  unfoldable pub snapshot_facility : String → Option Json
  snapshot_facility name = elim (by_name name db.facilities) [
    | none ↦ none
    | some r ↦ some (
        obj (
          field "name" (str r.name) (
            field "institution_id" (str r.body.institution_id)
              (field "contacts" (arr (contacts_json (list_entity_contacts facility name))) end))))
  ]

  abbrev pub coordinate : Option ℕ → Json
  coordinate none = null
  coordinate (some x) = num (ext.float_text x)

  abbrev pub site_fields : Row ℕ SiteBody → Fields → Fields
  site_fields r rest = field "name" (str r.name) (
      field "facility" (str (parent_name db.facilities r)) (
        field "long_name" (str r.body.long_name) (
          field "description" (str r.body.description) (
            field "address_line1" (str r.body.address_line1) (
              field "address_line2" (str r.body.address_line2) (
                field "city" (str r.body.city) (
                  field "state" (str r.body.state) (
                    field "country" (str r.body.country) (
                      field "zipcode" (str r.body.zipcode) (
                        field "latitude" (coordinate r.body.latitude)
                          (field "longitude" (coordinate r.body.longitude) rest)))))))))))

  -- snapshotSiteState.
  unfoldable pub snapshot_site : String → Option Json
  snapshot_site name = elim (joined db.facilities (by_name name db.sites)) [
    | none ↦ none
    | some r ↦ some (
        obj (
          site_fields r
            (field "contacts" (arr (contacts_json (list_entity_contacts site name))) end)))
  ]

  -- snapshotResourceGroupState.
  unfoldable pub snapshot_resource_group : String → Option Json
  snapshot_resource_group name = elim (joined db.sites (by_name name db.resource_groups)) [
    | none ↦ none
    | some r ↦ some (
        obj (
          field "name" (str r.name) (
            field "site" (str (parent_name db.sites r)) (
              field "production" (opt_bool r.body.production) (
                field "disable" (opt_bool r.body.disable) (
                  field "support_center" (str r.body.support_center) (
                    field "group_description" (str r.body.group_description) (
                      field "contacts"
                        (arr (contacts_json (list_entity_contacts resource_group name))) end))))))))
  ]

  -- snapshotSupportCenterState.
  unfoldable pub snapshot_support_center : String → Option Json
  snapshot_support_center name = elim (find? (is_support_center name) db.support_centers) [
    | none ↦ none
    | some s ↦ some (
        obj (
          field "name" (str s.name) (
            field "long_name" (str s.long_name) (
              field "community" (str s.community) (
                field "description" (str s.description)
                  (extra_field (map_from_json ext.number s.extra)))))))
  ]

  -- snapshotProjectState; its sponsor goes through a plain json.Unmarshal.
  unfoldable pub snapshot_project : String → Option Json
  snapshot_project name = elim (find? (is_project name) db.projects) [
    | none ↦ none
    | some p ↦ some (
        obj (
          field "name" (str p.fields.name) (
            field "id" (str p.fields.project_id) (
              field "description" (str p.fields.description) (
                field "department" (str p.fields.department) (
                  field "field_of_science" (str p.fields.field_of_science) (
                    field "field_of_science_id" (str p.fields.field_of_science_id) (
                      field "organization" (str p.fields.organization) (
                        field "pi_name" (str p.fields.pi_name) (
                          field "institution_id" (str p.fields.institution_id) (
                            field "sponsor" (opt_map (as_object p.fields.sponsor))
                              (extra_field (map_from_json ext.number p.fields.extra)))))))))))))
  ]

  -- snapshotVOState.
  unfoldable pub snapshot_vo : String → Option Json
  snapshot_vo name = elim (get_vo name db) [
    | none ↦ none
    | some v ↦ elim (ext.vo_document v.raw) [
      | none ↦ none
      | some doc ↦ some (obj (field "name" (str v.name) (field "vo" (obj doc) end)))
    ]
  ]
