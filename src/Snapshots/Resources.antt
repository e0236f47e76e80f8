-- ===== src/Snapshots/Resources.antt =====
-- snapshotResourceState (internal/handlers/proposal_snapshots.go), with ServiceFromBlob of
-- internal/topology/persist.go.
use topology_v.Base.{ℕ, String, Option, none, some, List, [], ◌∷◌, ◌&&◌, ◌==◌, is_none, select}
use topology_v.Json.{Json, str, arr, obj, Fields, end, field, get, put, as_object, map_from_json}
use topology_v.External.{External}
use topology_v.Table.{Row, by_id}
use topology_v.Db.{Database, ResourceBody, ServiceRow, ResourceContact}
use topology_v.Apply.Stale.{joined}
use topology_v.Snapshots.{opt_bool, or_null, opt_map, strings, parent_name}

abbrev pub blob_fields : Option Fields → Fields
blob_fields none = end
blob_fields (some fs) = fs

module _ (ext : External) (db : Database) where
  -- ServiceFromBlob, as the JSON of the service.
  unfoldable pub service_from_blob : ServiceRow → Json
  service_from_blob s =
      let m = blob_fields (map_from_json ext.number s.details) in
      obj (
        field "Description" (str s.description) (
          field "Details" (or_null (get "details" m))
            (field "Extra" (opt_map (as_object (get "extra" m))) end)))

  -- `res.Services[s.ServiceName] = …` over the rows.
  unfoldable pub services_object : List ServiceRow → Fields → Fields
  services_object [] fs = fs
  services_object (s ∷ ss) fs = services_object ss (put s.service_name (service_from_blob s) fs)

  -- `res.ContactLists[c.ContactType][c.Rank] = …` over the rows.
  unfoldable pub contact_lists_object : List ResourceContact → Fields → Fields
  contact_lists_object [] fs = fs
  contact_lists_object (c ∷ cs) fs = contact_lists_object cs (
      put c.contact_type
        (obj (
          put c.rank (obj (field "Name" (str c.contact_name) (field "ID" (str c.contact_id) end)))
            (blob_fields (as_object (get c.contact_type fs)))))
        fs)

  abbrev pub resource_object : ℕ → Row ℕ ResourceBody → Fields
  resource_object id r = field "Active" (opt_bool r.body.active) (
      field "Disable" (opt_bool r.body.disable) (
        field "Description" (str r.body.description) (
          field "FQDN" (str r.body.fqdn) (
            field "FQDNAliases" (arr (strings r.body.fqdn_aliases)) (
              field "DN" (str r.body.dn) (
                field "ContactLists"
                  (obj (
                    contact_lists_object
                      (select (λ c. c.resource_id == id && is_none c.deleted_at)
                        db.resource_contacts)
                      end))
                  (field "Services"
                    (obj (
                      services_object (select (λ s. s.resource_id == id) db.resource_services) end))
                    (field "Tags" (arr (strings r.body.tags)) (
                      field "AllowedVOs" (arr (strings r.body.allowed_vos)) (
                        field "VOOwnership" (or_null r.body.vo_ownership) (
                          field "WLCGInformation" (or_null r.body.wlcg_information) (
                            field "Extra" (opt_map (map_from_json ext.number r.body.extra))
                              end))))))))))))

  -- snapshotResourceState: without the ID, so that it compares with a submission.
  unfoldable pub snapshot_resource : String → Option Json
  snapshot_resource target = elim (ext.parse_int target) [
    | none ↦ none
    | some id ↦ elim (joined db.resource_groups (by_id id db.resources)) [
      | none ↦ none
      | some r ↦ some (
          obj (
            field "resource_group" (str (parent_name db.resource_groups r))
              (field "name" (str r.name) (field "resource" (obj (resource_object id r)) end))))
    ]
  ]
