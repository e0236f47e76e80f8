-- ===== src/Db/Workflow.antt =====
-- The rows of the workflow tables: proposals, their revisions, invites and the audit log
-- (internal/models/proposals.go, internal/db/queries_proposals.go).
use topology_v.Base.{ℕ, String, Option}
use topology_v.Models.{Kind, Operation, Status, InviteKind}
use topology_v.Json.{Json}

-- models.RoleClaim: the payload of an invite. An absent kind is the empty text.
pub record RoleClaim : Type 0 where
  pub entity_kind : Kind
  pub entity_id : String
  pub contact_type : String
  pub rank : String

pub record InviteRow : Type 0 where
  pub id : ℕ
  pub kind : InviteKind
  pub token_hash : String
  pub created_by : ℕ
  pub target_user : Option ℕ
  pub claim : Option RoleClaim
  pub used_at : Option ℕ
  pub used_by : Option ℕ
  pub expires_at : ℕ
  pub contact_email : String

-- A row of `contact_replacements`.
pub record ReplacementRow : Type 0 where
  pub id : ℕ
  pub entity_kind : Kind
  pub entity_name : String
  pub contact_type : String
  pub rank : String
  pub incumbent_user : Option ℕ
  pub incumbent_name : String
  pub requester_user : ℕ
  pub requester_name : String
  pub requester_contact_id : String
  pub note : String
  pub status : Status
  pub decided_at : Option ℕ
  pub decided_by : Option ℕ

pub record Proposal : Type 0 where
  pub id : ℕ
  pub entity_kind : Kind
  pub target_name : String
  pub operation : Operation
  pub proposed_state : Json
  pub schema_version : ℕ
  pub base_version : Option Json
  pub base_updated_at : Option ℕ
  pub status : Status
  pub created_by : ℕ
  pub assigned_reviewer : Option ℕ
  pub review_note : String
  pub created_at : ℕ
  pub updated_at : ℕ

pub record Revision : Type 0 where
  pub proposal_id : ℕ
  pub revision_no : ℕ
  pub proposed_state : Json
  pub edited_by : ℕ
  pub note : String
  pub created_at : ℕ

-- A row of proposal_pending_invites.
pub record PendingInvite : Type 0 where
  pub proposal_id : ℕ
  pub invite_id : ℕ

pub data Action : Type 0 where
  proposal_create proposal_revise proposal_submit proposal_withdraw : Action
  proposal_reject proposal_approve : Action
  replacement_create replacement_approved replacement_rejected : Action
  role_claim_accept invite_create : Action
  email_verify_request email_verify_confirm : Action

pub record AuditEntry : Type 0 where
  pub actor : ℕ
  pub action : Action
  pub entity_kind : Kind
  pub entity_id : String
  pub proposal_id : Option ℕ
  pub detail : Option Json
  pub created_at : ℕ
