-- ===== src/Apply/Resources.antt =====
-- applyResourceProposal (internal/handlers/proposals.go), with CreateResourceFromProposal,
-- UpdateResourceFromProposal and their helpers of internal/topology/persist.go.
use topology_v.Base.{
  ℕ, ◌+◌, String, Bool, true, false, Option, none, some, List, [], ◌∷◌, str_eq, ◌||◌, if◌then◌else◌,
}
use topology_v.Base.Results.{ok, err, need, ◌>>=◌, ◌>>◌}
use topology_v.Models.{is_delete, is_update}
use topology_v.Json.{Json, Fields, end, field, obj}
use topology_v.External.{External}
use topology_v.Errors.{Result, not_found, bad_id, bad_proposal_state}
use topology_v.Db.{Database, ResourceBody}
use topology_v.Payloads.{Resource, ResourceProposal, Service, Contact}
use topology_v.Queries.Entities.{
  insert_resource, next_app_created_resource_id, update_resource_fields, soft_delete_resource,
  resource_group_id_by_name, replace_resource_services, replace_resource_contacts_begin,
  insert_resource_service, insert_resource_contact,
}
use topology_v.Queries.Proposals.{update_proposal_target_name}
use topology_v.Apply.Change.{Change, unmarshal}
use topology_v.Apply.Contacts.{require_resolved_resource_contacts}

-- conv.JSONOrNil: nothing for a nil or empty map.
abbrev pub json_or_nil : Option Fields → Option Json
json_or_nil none = none
json_or_nil (some end) = none
json_or_nil (some (field k v fs)) = some (obj (field k v fs))

-- svcBlob: `details` and `extra`, each left out where it is empty.
abbrev pub add_extra : Option Json → Fields
add_extra none = end
add_extra (some v) = field "extra" v end

abbrev pub service_blob : Service → Json
service_blob s = elim s.details [
  | none ↦ obj (add_extra (json_or_nil s.extra))
  | some d ↦ obj (field "details" d (add_extra (json_or_nil s.extra)))
]

-- The columns of a resource.
abbrev pub resource_body : Resource → Bool → ResourceBody
resource_body res explicit = record {
  active = res.active;
  disable = res.disable;
  description = res.description;
  fqdn = res.fqdn;
  dn = res.dn;
  fqdn_aliases = res.fqdn_aliases;
  tags = res.tags;
  allowed_vos = res.allowed_vos;
  vo_ownership = res.vo_ownership;
  wlcg_information = res.wlcg_information;
  extra = json_or_nil res.extra;
  id_explicit = explicit;
}

-- insertResourceChildren: the services in order, then the contacts by type and rank.
unfoldable pub insert_services : ℕ → ℕ → List (String × Service) → Database → Result Database
insert_services id ord [] db = ok db
insert_services id ord ((name, svc) ∷ svcs) db = do
  db' ←
      insert_resource_service
        (record {
          resource_id = id;
          service_name = name;
          description = svc.description;
          details = some (service_blob svc);
          ordinal = ord;
        })
        db
  insert_services id (ord + 1) svcs db'

unfoldable pub insert_ranks : ℕ → String → List (String × Contact) → Database → Result Database
insert_ranks id ctype [] db = ok db
insert_ranks id ctype ((rank, c) ∷ ranks) db = do
  db' ← insert_resource_contact id ctype rank c.name c.id db
  insert_ranks id ctype ranks db'

unfoldable pub insert_contacts :
    ℕ → List (String × List (String × Contact)) → Database → Result Database
insert_contacts id [] db = ok db
insert_contacts id ((ctype, ranks) ∷ lists) db = do
  db' ← insert_ranks id ctype ranks db
  insert_contacts id lists db'

unfoldable pub insert_resource_children : ℕ → Resource → Database → Result Database
insert_resource_children id res db = do
  db' ← insert_services id 0 res.services db
  insert_contacts id res.contact_lists db'

-- CreateResourceFromProposal: a missing id is minted, and is explicit from then on.
abbrev pub mint_id : Option ℕ → Database → ℕ × Database
mint_id none db = next_app_created_resource_id db
mint_id (some id) db = (id, db)

unfoldable pub create_resource_from_proposal :
    ℕ → String → Resource → Database → Result (ℕ × Database)
create_resource_from_proposal group_id name res db =
    let (id, db1) = mint_id res.id db in
    do
      db2 ← insert_resource id group_id name (resource_body res true) db1
      db3 ← insert_resource_children id res db2
      ok (id, db3)

-- UpdateResourceFromProposal: the row in place, and its services and contacts anew.
unfoldable pub update_resource_from_proposal :
    ℕ → ℕ → String → Resource → ℕ → Database → Result Database
update_resource_from_proposal id group_id name res actor db = do
  db1 ← update_resource_fields id group_id name (resource_body res false) db
  insert_resource_children id res
      (replace_resource_contacts_begin id (some actor) (replace_resource_services id db1))

-- The backfill of target_name, for a proposal that has a row of its own.
abbrev pub backfill_target : External → Option ℕ → ℕ × Database → Database
backfill_target ext none (id, db) = db
backfill_target ext (some proposal) (id, db) =
    update_proposal_target_name proposal (ext.format_int id) db

unfoldable pub save_resource : External → Change → ResourceProposal → ℕ → Database → Result Database
save_resource ext p rp actor db =
    if str_eq rp.name "" || str_eq rp.resource_group "" then err bad_proposal_state else (do
      require_resolved_resource_contacts db rp.resource.contact_lists
      group_id ← need (resource_group_id_by_name rp.resource_group db) (not_found rp.resource_group)
      if is_update p.operation
          then (do
            id ← need (ext.parse_int p.target_name) (bad_id p.target_name)
            update_resource_from_proposal id group_id rp.name rp.resource actor db)
          else (do
            created ← create_resource_from_proposal group_id rp.name rp.resource db
            ok (backfill_target ext p.id created)))

-- applyResourceProposal.
unfoldable pub apply_resource : External → Change → ℕ → Database → Result Database
apply_resource ext p actor db =
    if is_delete p.operation
    then (do
      id ← need (ext.parse_int p.target_name) (bad_id p.target_name)
      ok (soft_delete_resource id (some actor) db))
    else unmarshal ext.decode_resource p.proposed_state >>= λ rp. save_resource ext p rp actor db
