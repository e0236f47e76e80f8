-- ===== src/Handlers.antt =====
-- The proposal handlers of internal/handlers/proposals.go. A handler takes the session that
-- RequireAuth put into the context, the path's id and the decoded body (`none` where it does not
-- decode), and returns the new database with the reply. The statements fail only as the SQL says
-- (a missing row, a unique index, a foreign key); a lost connection is modelled at one place, between
-- the commit of an approval and the UPDATE of its status.
pub mod Requests
pub mod Cases
pub mod Atomic
use topology_v.Base.{
  ℕ, ◌+◌, String, Bool, true, false, Option, none, some, List, [], ◌∷◌, ◌==◌, str_eq, not, ◌&&◌,
  ◌||◌, ltb, is_none, is_empty, any, if◌then◌else◌,
}
use topology_v.Base.Results.{Outcome, ok, err, ◌>>=◌, ◌>>◌}
use topology_v.Models.{
  Role, Kind, Operation, Status, pending, draft, withdrawn, rejected, applied, create, update,
  delete, other_operation, other_kind, is_create, is_update, is_delete, is_downtime, is_pending,
  is_closed,
}
use topology_v.Models.Roles.{is_manager_or_admin}
use topology_v.Json.{Json}
use topology_v.External.{External}
use topology_v.Errors.{Error}
use topology_v.Schema.{known, current_version, validate, or_empty_json}
use topology_v.Merge.{merge_proposed_state}
use topology_v.Db.{
  Database, Proposal, Action, proposal_create, proposal_revise, proposal_submit, proposal_withdraw,
  proposal_reject, proposal_approve,
}
use topology_v.Queries.Contacts.{is_resource_contact}
use topology_v.Queries.Catalogue.{get_downtime_resource_name}
use topology_v.Queries.Proposals.{
  CreateProposalParams, create_proposal, add_proposal_pending_invites,
  count_unaccepted_proposal_invites, add_revision, update_proposal_status, get_proposal,
  append_audit,
}
use topology_v.Apply.Change.{change_of}
use topology_v.Apply.Stale.{entity_updated_at}
use topology_v.Apply.Dispatch.{apply_proposal}
use topology_v.Apply.Sequence.{drawn}
use topology_v.Snapshots.Entity.{snapshot_entity}

pub record Session : Type 0 where
  pub user_id : ℕ
  pub roles : List Role

-- Why a request is refused, each with its HTTP status.
pub data Refusal : Type 0 where
  invalid_body invalid_operation entity_kind_required : Refusal
  proposal_not_found : Refusal
  not_allowed_to_edit requires_reviewer only_the_creator : Refusal
  proposal_is_closed only_pending pending_invite : Refusal
  schema_refused applying : Error → Refusal
  linking_invites saving_revision updating_status : Refusal

pub data Reply : Type 0 where
  refused : Refusal → Reply
  created : ℕ → Status → Reply
  status_ok : Reply
  status_is : Status → Reply

-- The HTTP status of a refusal.
unfoldable pub code : Refusal → ℕ
code invalid_body = 400
code invalid_operation = 400
code entity_kind_required = 400
code proposal_not_found = 404
code not_allowed_to_edit = 403
code requires_reviewer = 403
code only_the_creator = 403
code proposal_is_closed = 409
code only_pending = 409
code pending_invite = 409
code (schema_refused e) = 400
code (applying e) = 400
code linking_invites = 500
code saving_revision = 500
code updating_status = 500

module _ (ext : External) where
  -- downtimeProposalResource: "" where it cannot be resolved.
  unfoldable pub downtime_proposal_resource : Proposal → Database → String
  downtime_proposal_resource p db =
      if is_create p.operation
      then elim (ext.decode_downtime p.proposed_state) [ none ↦ "" | some d ↦ d.resource ]
      else elim (ext.parse_int p.target_name) [
        | none ↦ ""
        | some id ↦ elim (get_downtime_resource_name id db) [ none ↦ "" | some name ↦ name ]
      ]

  -- canDecideProposal.
  unfoldable pub can_decide_proposal : Session → Proposal → Database → Bool
  can_decide_proposal s p db =
      if is_manager_or_admin s.roles
      then true
      else if not (is_downtime p.entity_kind)
      then false
      else if str_eq (downtime_proposal_resource p db) ""
      then false
      else is_resource_contact s.user_id (downtime_proposal_resource p db) db

-- createProposalRequest.
pub record CreateRequest : Type 0 where
  pub entity_kind : Kind
  pub operation : Operation
  pub target_name : String
  pub proposed_state : Option Json
  pub note : String
  pub submit : Bool
  pub pending_invite_ids : List (Option ℕ)

-- reviseRequest.
pub record ReviseRequest : Type 0 where
  pub proposed_state : Option Json
  pub note : String

abbrev pub is_operation : Operation → Bool
is_operation (other_operation s) = false
is_operation _ = true

-- A new proposal is a draft, unless it is submitted at once.
abbrev pub creation_status : CreateRequest → Status
creation_status req = if req.submit then pending else draft

abbrev pub is_no_kind : Kind → Bool
is_no_kind (other_kind s) = str_eq s ""
is_no_kind _ = false

module _ (ext : External) where
  -- The base of a proposal: the live entity, for an update or a delete that names one.
  abbrev pub has_base : CreateRequest → Bool
  has_base req = not (is_create req.operation) && not (str_eq req.target_name "")

  unfoldable pub base_version : CreateRequest → Database → Option Json
  base_version req db =
      if has_base req then snapshot_entity ext db req.entity_kind req.target_name else none

  unfoldable pub base_updated_at : CreateRequest → Database → Option ℕ
  base_updated_at req db =
      if has_base req then entity_updated_at ext req.entity_kind req.target_name db else none

  -- The state that is stored: an update is merged onto its base, where there is one.
  unfoldable pub submitted_state : CreateRequest → Database → Option Json
  submitted_state req db =
      if is_update req.operation && not (is_none (base_version req db))
      then merge_proposed_state ext.number req.entity_kind (base_version req db) req.proposed_state
      else req.proposed_state

  -- The schema check of CreateProposal and ReviseProposal; a delete carries no payload.
  abbrev pub needs_schema : Operation → Kind → Bool
  needs_schema op kind = not (is_delete op) && known kind

  unfoldable pub check_schema : Operation → Kind → Option Json → Outcome Error (Unit {0})
  check_schema op kind state =
      if needs_schema op kind
      then validate ext kind (current_version kind) (or_empty_json state)
      else ok tt

  -- The row that CreateProposal asks for.
  unfoldable pub creation_params : Session → CreateRequest → Database → CreateProposalParams
  creation_params s req db = record {
    entity_kind = req.entity_kind;
    target_name = req.target_name;
    operation = req.operation;
    proposed_state = submitted_state req db;
    base_version = base_version req db;
    base_updated_at = base_updated_at req db;
    status = creation_status req;
    schema_version =
        if needs_schema req.operation req.entity_kind then current_version req.entity_kind else 0;
    created_by = s.user_id;
    note = req.note;
  }

  -- The audit entry, once the invites are linked. A link that fails leaves the proposal stored.
  abbrev pub end_creation : Session → CreateRequest → ℕ → Bool × Database → Database × Reply
  end_creation s req id (true, db) = (
    append_audit s.user_id proposal_create req.entity_kind req.target_name id none db,
    created id (creation_status req),
  )
  end_creation s req id (false, db) = (db, refused linking_invites)

  -- The inserts of CreateProposal, its links to invites and its audit entry.
  unfoldable pub store_proposal : Session → CreateRequest → Database → Database × Reply
  store_proposal s req db =
      let (id, stored) = create_proposal (creation_params s req db) db in
      end_creation s req id (add_proposal_pending_invites id req.pending_invite_ids stored)

  -- CreateProposal.
  unfoldable pub handle_create : Session → Option CreateRequest → Database → Database × Reply
  handle_create s none db = (db, refused invalid_body)
  handle_create s (some req) db =
      if not (is_operation req.operation)
      then (db, refused invalid_operation)
      else if is_no_kind req.entity_kind
      then (db, refused entity_kind_required)
      else elim (check_schema req.operation req.entity_kind (submitted_state req db)) [
        | err e ↦ (db, refused (schema_refused e))
        | ok _ ↦ store_proposal s req db
      ]

  -- The state of a revision: an update is merged onto the proposal's own state.
  unfoldable pub revised_state : Proposal → ReviseRequest → Option Json
  revised_state p req =
      if is_update p.operation
      then merge_proposed_state ext.number p.entity_kind (some p.proposed_state) req.proposed_state
      else req.proposed_state

  -- AddRevision and the audit entry; a missing state breaks the column's NOT NULL.
  unfoldable pub store_revision :
      Session → ℕ → Proposal → Option Json → String → Database → Database × Reply
  store_revision s id p none note db = (db, refused saving_revision)
  store_revision s id p (some state) note db = (
    append_audit s.user_id proposal_revise p.entity_kind p.target_name id none
        (add_revision id state s.user_id note db),
    status_ok,
  )

  -- ReviseProposal.
  unfoldable pub handle_revise : Session → ℕ → Option ReviseRequest → Database → Database × Reply
  handle_revise s id body db = elim (get_proposal id db) [
    | none ↦ (db, refused proposal_not_found)
    | some p ↦
        if not (p.created_by == s.user_id) && not (is_manager_or_admin s.roles)
        then (db, refused not_allowed_to_edit)
        else if is_closed p.status
        then (db, refused proposal_is_closed)
        else elim body [
          | none ↦ (db, refused invalid_body)
          | some req ↦ elim (check_schema p.operation p.entity_kind (revised_state p req)) [
            | err e ↦ (db, refused (schema_refused e))
            | ok _ ↦ store_revision s id p (revised_state p req) req.note db
          ]
        ]
  ]

  -- Who may make a transition: whoever decides the proposal, or its creator.
  abbrev pub may_transition : Bool → Session → Proposal → Database → Bool
  may_transition true s p db = can_decide_proposal ext s p db
  may_transition false s p db = p.created_by == s.user_id

  abbrev pub denied : Bool → Refusal
  denied true = requires_reviewer
  denied false = only_the_creator

  -- transition: the target status, whether a reviewer is required, and the note of the body, which
  -- is read for a reviewer only ("" where the body does not decode).
  unfoldable pub transition :
      Session → ℕ → Status → Bool → String → Action → Database → Database × Reply
  transition s id target reviewer note action db = elim (get_proposal id db) [
    | none ↦ (db, refused proposal_not_found)
    | some p ↦
        if may_transition reviewer s p db
        then (
          append_audit s.user_id action p.entity_kind p.target_name id none (
              update_proposal_status id target (if reviewer then some s.user_id else none)
                (if reviewer then note else "") db),
          status_is target,
        )
        else (db, refused (denied reviewer))
  ]

  -- SubmitProposal, WithdrawProposal and RejectProposal.
  unfoldable pub handle_submit : Session → ℕ → Database → Database × Reply
  handle_submit s id = transition s id pending false "" proposal_submit

  unfoldable pub handle_withdraw : Session → ℕ → Database → Database × Reply
  handle_withdraw s id = transition s id withdrawn false "" proposal_withdraw

  unfoldable pub handle_reject : Session → ℕ → String → Database → Database × Reply
  handle_reject s id note = transition s id rejected true note proposal_reject

  -- A transaction that is rolled back: all is as it was, but for the ids that it has drawn.
  abbrev pub rolled_back : ℕ → Database → Database
  rolled_back n db = record db { resource_seq = n + db.resource_seq }

  -- The end of ApproveProposal, after the commit.
  unfoldable pub finish_approval : Session → ℕ → Proposal → Database → Database × Reply
  finish_approval s id p db = if ext.loses_update db then (db, refused updating_status) else (
    append_audit s.user_id proposal_approve p.entity_kind p.target_name id (some p.proposed_state)
        (update_proposal_status id applied (some s.user_id) "" db),
    status_is applied,
  )

  -- ApproveProposal. The apply step runs in a transaction, which an error rolls back.
  unfoldable pub handle_approve : Session → ℕ → Database → Database × Reply
  handle_approve s id db = elim (get_proposal id db) [
    | none ↦ (db, refused proposal_not_found)
    | some p ↦
        if not (can_decide_proposal ext s p db)
        then (db, refused requires_reviewer)
        else if not (is_pending p.status)
        then (db, refused only_pending)
        else if ltb 0 (count_unaccepted_proposal_invites id db)
        then (db, refused pending_invite)
        else elim (apply_proposal ext s.user_id (change_of p) db) [
          | err e ↦ (rolled_back (drawn ext s.user_id (change_of p) db) db, refused (applying e))
          | ok db' ↦ finish_approval s id p db'
        ]
  ]
