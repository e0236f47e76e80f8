-- ===== src/Tests/Workflow.antt =====
-- The theorems on the workflow, at concrete requests.
use topology_v.Base.{
  str_eq, String, true, false, none, some, List, [], ◌∷◌, ◌++◌, ◌≡◌, ◌≢◌, inr, refl, map, ap, ◌≤◌,
}
use topology_v.Base.Results.{guard, ◌>>◌, ok, err}
use topology_v.Errors.{Result, unsupported_kind, invalid_payload, at_operation, has_children}
use topology_v.Models.{support_center, facility, delete, pending}
use topology_v.Models.Roles.{is_manager_or_admin}
use topology_v.Json.{Fields, get, put, str, obj, end, field, map_from_json}
use topology_v.Merge.{merge_proposed_state}
use topology_v.Schema.{known, current_version, upgraders, upgrade_from, upgrade, validate}
use topology_v.Payloads.{EntityContact, SupportCenterProposal}
use topology_v.Table.{by_name, insert, update_named, children_of}
use topology_v.Db.{Database, VoRow, EntityContactRow}
use topology_v.Queries.Contacts.{
  clear_entity_contacts, legacy_contact_id_exists, upsert_provisioned_contact_user,
  insert_entity_contacts, replace_entity_contacts, repoint_entity_name_references,
}
use topology_v.Queries.Entities.{insert_site, update_facility_fields, facility_id_by_name}
use topology_v.Queries.Proposals.{
  get_proposal, count_unaccepted_proposal_invites, update_proposal_status, append_audit,
  add_revision,
}
use topology_v.Apply.Change.{Change, change_of}
use topology_v.Apply.Contacts.{resolve_from, require_resolved_contacts}
use topology_v.Apply.Hierarchy.{
  gen_id, finish, delete_facility, check_institution, save_facility, save_site, apply_facility,
  apply_site,
}
use topology_v.Apply.Stale.{entity_updated_at}
use topology_v.Apply.Dispatch.{
  check_base, bring_forward, dispatch, apply_with, apply_operation, apply_operations, apply_bundle,
  apply_proposal,
}
use topology_v.Apply.Vos.{
  check_new_parent, parent_block, parent_name, walk_up, walk_fuel, out_of_fuel,
}
use topology_v.Apply.Guards.{apply_proposal-fresh}
use topology_v.Apply.Bundles.{Report, apply_bundle-Report}
use topology_v.Apply.Sequence.{drawn}
use topology_v.Apply.ResolvedContacts.{count_of, resolved-at_most_three}
use topology_v.Apply.VoAncestors.{Above, check_new_parent-acyclic}
use topology_v.Apply.VoContacts.{
  resolve_vo_contacts, require_resolved_vo_contacts, vo_contact_pairs, vo_contact_types,
  vo_contact_list,
}
use topology_v.Apply.ContactSlots.{DistinctSlots, replace_entity_contacts-DistinctSlots}
use topology_v.Apply.SupportCenters.{taken_along, update_support_center-renamed}
use topology_v.Apply.Payload.{with_payload, apply_proposal-valid}
use topology_v.Workflow.Transitions.{transitioned, handle_submit-effect}
use topology_v.Apply.Catalogue.{update_support_center, sponsor_type_name}
use topology_v.Queries.Catalogue.{
  update_support_center_fields, repoint_resource_group_support_center, groups_using_support_center,
  get_vo,
}
use topology_v.Apply.VoWalk.{walk_fuel-enough}
use topology_v.Handlers.{
  handle_submit, Refusal, refused, applying, status_ok, ReviseRequest, can_decide_proposal,
  check_schema, revised_state, store_revision, handle_revise, handle_approve, finish_approval,
}
use topology_v.Handlers.Atomic.{SameButDrawn, serve-unchanged}
use topology_v.Handlers.Requests.{approve_request, serve, Event, run}
use topology_v.Hierarchy.{IsLinked}
use topology_v.Hierarchy.Approval.{apply_proposal-IsLinked}
use topology_v.Hierarchy.Requests.{run-IsLinked}
use topology_v.Workflow.Audit.{Logs, serve-Logs}
use topology_v.Workflow.Revisions.{Revised, handle_revise-Revised}
use topology_v.Workflow.Status.{is_applied_at, serve-applied}
use topology_v.Tests.{group_row, ext, db, admin, plain, rename, failing, new_site, drop_facility}

-- What the runs below compute.
unfoldable everything : Unit {0}
unfolding serve handle_approve finish_approval drawn get_proposal can_decide_proposal
    is_manager_or_admin count_unaccepted_proposal_invites apply_proposal apply_with known check_base
    entity_updated_at by_name bring_forward upgrade upgrade_from current_version upgraders validate
    dispatch apply_bundle apply_operations apply_operation apply_facility apply_site save_facility
    save_site check_institution require_resolved_contacts resolve_from legacy_contact_id_exists
    update_facility_fields update_named insert_site insert gen_id facility_id_by_name finish
    replace_entity_contacts insert_entity_contacts upsert_provisioned_contact_user
    repoint_entity_name_references delete_facility children_of update_proposal_status append_audit
    handle_revise revised_state merge_proposed_state map_from_json check_schema store_revision
    add_revision get put
everything = tt

linked : IsLinked db
linked = record { sites = (inr refl, tt); groups = (inr refl, tt); resources = (inr refl, tt) }

abbrev approval : Event
approval = record { at_time = 11; session = admin; request = approve_request 7 }

run-IsLinked_example : IsLinked (run ext (approval ∷ []) db)
run-IsLinked_example = run-IsLinked ext (approval ∷ []) db linked

applied_now : is_applied_at 7 (serve ext admin (approve_request 7) db).0 ≡ true
unfolding everything
applied_now = refl

not_yet : is_applied_at 7 db ≡ false
unfolding get_proposal
not_yet = refl

serve-applied_example : approve_request 7 ≡ approve_request 7
serve-applied_example = serve-applied ext admin (approve_request 7) 7 db applied_now not_yet

-- The second operation of the bundle finds two sites, one of them from the first operation.
abbrev two_children : Refusal
two_children = applying (at_operation 2 delete facility (has_children 2))

refuses : (serve ext admin (approve_request 8) db).1 ≡ refused two_children
unfolding everything
refuses = refl

serve-unchanged_example : SameButDrawn db (serve ext admin (approve_request 8) db).0
serve-unchanged_example =
    serve-unchanged ext admin (approve_request 8) db (serve ext admin (approve_request 8) db).0
      two_children (ap (λ r. ((serve ext admin (approve_request 8) db).0, r)) refuses) refl

serve-Logs_example : Logs admin db (serve ext admin (approve_request 7) db)
serve-Logs_example = serve-Logs ext admin (approve_request 7) db

abbrev or_same : Result Database → Database
or_same (ok d) = d
or_same (err e) = db

abbrev renamed : Database
renamed = or_same (apply_proposal ext 100 (change_of rename) db)

applies : apply_proposal ext 100 (change_of rename) db ≡ ok renamed
unfolding everything
applies = refl

apply_proposal-IsLinked_example : IsLinked renamed
apply_proposal-IsLinked_example =
    apply_proposal-IsLinked ext 100 (change_of rename) db renamed applies linked

apply_proposal-fresh_example : entity_updated_at ext facility "F" db ≡ some 5
apply_proposal-fresh_example =
    apply_proposal-fresh ext 100 5 (change_of rename) db renamed applies refl refl

-- The first operation goes through, and the second is refused.
apply_bundle-Report_example :
    Report ext 100 1
      (new_site ∷ drop_facility ∷ [])
      db
      (apply_bundle ext 100 (change_of failing) db)
apply_bundle-Report_example =
    apply_bundle-Report ext 100 (change_of failing)
      (record { operations = new_site ∷ drop_facility ∷ [] }) db refl refl

abbrev new_text : ReviseRequest
new_text = record { proposed_state = some (obj (field "name" (str "F3") end)); note = "again" }

revises : (handle_revise ext plain 7 (some new_text) db).1 ≡ status_ok
unfolding everything
revises = refl

handle_revise-Revised_example : Revised 7 plain db (handle_revise ext plain 7 (some new_text) db).0
handle_revise-Revised_example =
    handle_revise-Revised ext plain 7 (some new_text) db
      (handle_revise ext plain 7 (some new_text) db).0
      (ap (λ r. ((handle_revise ext plain 7 (some new_text) db).0, r)) revises)

abbrev ann : EntityContact
ann = record { contact_type = "Admin"; rank = ""; name = "Ann"; id = "c1" }

resolves : require_resolved_contacts db (ann ∷ ann ∷ []) ≡ ok tt
unfolding everything
resolves = refl

replace_entity_contacts-DistinctSlots_example :
    (added : List EntityContactRow) × ((replace_entity_contacts facility "F" "F"
        (ann ∷ ann ∷ [])
        none
        db).entity_contacts
      ≡ (clear_entity_contacts facility "F" none db).entity_contacts ++ added)
    × DistinctSlots added
replace_entity_contacts-DistinctSlots_example =
    replace_entity_contacts-DistinctSlots facility "F" "F" (ann ∷ ann ∷ []) none db resolves

resolved-at_most_three_example : count_of "Admin" (ann ∷ ann ∷ []) ≤ 3
resolved-at_most_three_example = resolved-at_most_three db "Admin" (ann ∷ ann ∷ []) resolves

-- Two VOs that name each other as parents.
abbrev vo_row : String → String → VoRow
vo_row name raw = record {
  name = name;
  vo_id = 1;
  disable = false;
  raw = raw;
  updated_at = 1;
  deleted_at = none;
  deleted_by = none;
}

abbrev circle : Database
circle = record db { vos = vo_row "A" "B" ∷ vo_row "B" "A" ∷ [] }

walk_fuel-enough_example :
    walk_up ext circle (walk_fuel circle) ("A" ∷ "C" ∷ []) (vo_row "A" "B") ≢ out_of_fuel
walk_fuel-enough_example = walk_fuel-enough ext circle ("A" ∷ "C" ∷ []) (vo_row "A" "B")

-- "C" may be put below "A", which is above no VO of the circle that names "C".
abbrev line : Database
line = record db { vos = vo_row "A" "" ∷ [] }

abbrev child : Fields
child = field "ParentVO" (obj (field "Name" (str "A") end)) end

abbrev with_parent : Fields
with_parent = field "ParentVO" (parent_block ext (vo_row "A" "")) end

accepts : check_new_parent ext line "C" child end ≡ ok with_parent
unfolding get put get_vo walk_up sponsor_type_name vo_contact_pairs vo_contact_types vo_contact_list
    resolve_vo_contacts require_resolved_vo_contacts
accepts = refl

check_new_parent-acyclic_example :
    (v : VoRow) × (get_vo (parent_name child) line ≡ some v)
    × (str_eq (parent_name child) "C" ≡ false)
    × (¬ Above ext line v "C")
    × (¬ Above ext line v (parent_name child))
check_new_parent-acyclic_example =
    check_new_parent-acyclic ext line "C" child end with_parent accepts

apply_proposal-valid_example : apply_proposal ext 100 (change_of rename) db ≡ (do
  guard (known facility) unsupported_kind
  check_base ext (change_of rename) db
  guard (ext.schema_ok facility (current_version facility) rename.proposed_state) invalid_payload
  dispatch ext (apply_bundle ext 100) 100 facility (with_payload (change_of rename)) db)
apply_proposal-valid_example = apply_proposal-valid ext 100 (change_of rename) db refl

finds : get_proposal 7 db ≡ some rename
unfolding get_proposal
finds = refl

handle_submit-effect_example :
    get_proposal 7 (handle_submit ext plain 7 db).0
    ≡ some (transitioned plain pending false "" 10 rename)
handle_submit-effect_example = handle_submit-effect ext plain 7 rename db finds refl

-- The support center "East", which the group uses, and its rename to "West".
abbrev supported : Database
supported = record db {
  support_centers =
      record {
        id = 9;
        name = "East";
        long_name = "";
        community = "";
        description = "";
        extra = none;
        updated_at = 5;
        deleted_at = none;
        deleted_by = none;
      }
      ∷ [];
  resource_groups =
      record group_row { body = record (group_row.body) { support_center = "East" } } ∷ [];
}

abbrev center_change : Change
center_change = record (change_of rename) { entity_kind = support_center; target_name = "East" }

abbrev second_name : SupportCenterProposal
second_name = record {
  name = "West";
  long_name = "";
  community = "";
  description = "";
  extra = none;
}

abbrev recentered : Database
recentered = or_same (update_support_center center_change second_name supported)

recenters : update_support_center center_change second_name supported ≡ ok recentered
unfolding update_support_center update_support_center_fields repoint_resource_group_support_center
recenters = refl

update_support_center-renamed_example :
    (recentered.resource_groups ≡ map (taken_along "East" "West" 10) supported.resource_groups)
    × (groups_using_support_center "East" recentered ≡ [])
update_support_center-renamed_example =
    update_support_center-renamed center_change second_name supported recentered recenters refl
