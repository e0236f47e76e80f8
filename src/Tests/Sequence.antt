-- ===== src/Tests/Sequence.antt =====
-- A refused approval and the sequence of resource ids: a new resource whose name is taken.
use topology_v.Base.{none, some, [], ◌∷◌, ◌≡◌, refl}
use topology_v.Models.{resource, create}
use topology_v.Models.Roles.{is_manager_or_admin}
use topology_v.External.{External}
use topology_v.Errors.{violation}
use topology_v.Schema.{known, current_version, upgrade_from, upgrade, validate}
use topology_v.Payloads.{ResourceProposal}
use topology_v.Table.{by_name, insert, duplicate_name}
use topology_v.Db.{Database, Proposal}
use topology_v.Queries.Entities.{
  resource_group_id_by_name, insert_resource, next_app_created_resource_id,
}
use topology_v.Queries.Proposals.{get_proposal, count_unaccepted_proposal_invites}
use topology_v.Apply.Contacts.{require_resolved_resource_contacts}
use topology_v.Apply.Resources.{create_resource_from_proposal, save_resource, apply_resource}
use topology_v.Apply.Dispatch.{check_base, bring_forward, dispatch, apply_with, apply_proposal}
use topology_v.Apply.Sequence.{drawn_by, drawn}
use topology_v.Handlers.{can_decide_proposal, handle_approve, refused, applying}
use topology_v.Tests.{ext, db, admin, rename, group_row, resource_row}

abbrev taken : ResourceProposal
taken = record {
  resource_group = "G";
  name = "R";
  resource = record {
    id = none;
    active = none;
    disable = none;
    description = "";
    fqdn = "";
    fqdn_aliases = [];
    dn = "";
    contact_lists = [];
    services = [];
    tags = [];
    allowed_vos = [];
    vo_ownership = none;
    wlcg_information = none;
    extra = none;
  };
}

abbrev with_resource : External
with_resource = record ext { decode_resource = λ j. some taken }

abbrev new_resource : Proposal
new_resource = record rename {
  id = 9;
  entity_kind = resource;
  operation = create;
  target_name = "";
  base_updated_at = none;
}

abbrev before : Database
before = record db {
  resource_groups = group_row ∷ [];
  resources = resource_row ∷ [];
  proposals = new_resource ∷ [];
}

-- The INSERT comes after the nextval, which stays.
draws_one : handle_approve with_resource admin 9 before ≡ (
  record before { resource_seq = 3000001 },
  refused (applying (violation (duplicate_name "R"))),
)
unfolding handle_approve get_proposal can_decide_proposal is_manager_or_admin
    count_unaccepted_proposal_invites apply_proposal apply_with known check_base bring_forward
    upgrade upgrade_from current_version validate dispatch apply_resource save_resource
    require_resolved_resource_contacts resource_group_id_by_name by_name
    create_resource_from_proposal next_app_created_resource_id insert_resource insert drawn drawn_by
draws_one = refl
