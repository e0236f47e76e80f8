-- ===== src/Queries/Proposals.antt =====
-- internal/db/queries_proposals.go: the proposals, their revisions, the invites that hold an
-- approval back, and the audit log.
use topology_v.Base.{
  ℕ, ◌+◌, String, Bool, true, false, Option, none, some, List, [], ◌∷◌, ◌++◌, ◌==◌, any, find?,
  is_none, update_where, select, length, ◌&&◌, if◌then◌else◌, leb,
}
use topology_v.Models.{Kind, Operation, Status}
use topology_v.Json.{Json}
use topology_v.Schema.{or_empty_json}
use topology_v.Db.{Database, Proposal, Revision, PendingInvite, Action}

abbrev pub has_id : ℕ → Proposal → Bool
has_id id p = p.id == id

-- CreateProposalParams.
pub record CreateProposalParams : Type 0 where
  pub entity_kind : Kind
  pub target_name : String
  pub operation : Operation
  pub proposed_state : Option Json
  pub base_version : Option Json
  pub base_updated_at : Option ℕ
  pub status : Status
  pub schema_version : ℕ
  pub created_by : ℕ
  pub note : String

-- The row that CreateProposal inserts.
abbrev pub proposal_row : ℕ → ℕ → CreateProposalParams → Proposal
proposal_row id now p = record {
  id = id;
  entity_kind = p.entity_kind;
  target_name = p.target_name;
  operation = p.operation;
  proposed_state = or_empty_json p.proposed_state;
  schema_version = if p.schema_version == 0 then 1 else p.schema_version;
  base_version = p.base_version;
  base_updated_at = p.base_updated_at;
  status = p.status;
  created_by = p.created_by;
  assigned_reviewer = none;
  review_note = "";
  created_at = now;
  updated_at = now;
}

-- CreateProposal: the proposal and its first revision, in one transaction.
unfoldable pub create_proposal : CreateProposalParams → Database → ℕ × Database
create_proposal p db =
    let id = db.next_uuid in
    (
      id,
      record db {
        proposals = db.proposals ++ proposal_row id db.now p ∷ [];
        revisions =
            db.revisions
            ++ record {
              proposal_id = id;
              revision_no = 1;
              proposed_state = or_empty_json p.proposed_state;
              edited_by = p.created_by;
              note = p.note;
              created_at = db.now;
            }
              ∷ [];
        next_uuid = db.next_uuid + 1;
      },
    )

abbrev is_link : ℕ → ℕ → PendingInvite → Bool
is_link proposal invite l = l.proposal_id == proposal && l.invite_id == invite

-- AddProposalPendingInvites: ON CONFLICT DO NOTHING; `none` is the empty id, which is skipped. An
-- unknown invite breaks the foreign key: the loop stops there, and what it has linked stays.
unfoldable pub add_proposal_pending_invites : ℕ → List (Option ℕ) → Database → Bool × Database
add_proposal_pending_invites id [] db = (true, db)
add_proposal_pending_invites id (none ∷ is) db = add_proposal_pending_invites id is db
add_proposal_pending_invites id (some i ∷ is) db =
    let rest = add_proposal_pending_invites id is (
      if any (is_link id i) db.pending_invites then db else record db {
        pending_invites = db.pending_invites ++ record { proposal_id = id; invite_id = i } ∷ [];
      }) in
    if any (λ v. v.id == i) db.invites then rest else (false, db)

-- CountUnacceptedProposalInvites: the links of the proposal to an invite that is not used.
unfoldable pub count_unaccepted_proposal_invites : ℕ → Database → ℕ
count_unaccepted_proposal_invites id db = length (
    select
      (λ l. l.proposal_id == id && any (λ i. i.id == l.invite_id && is_none i.used_at) db.invites)
      db.pending_invites)

-- COALESCE(MAX(revision_no), 0) over the revisions of a proposal.
unfoldable pub max_revision : ℕ → List Revision → ℕ
max_revision id [] = 0
max_revision id (r ∷ rs) =
    let rest = max_revision id rs in
    if r.proposal_id == id && leb rest r.revision_no then r.revision_no else rest

-- AddRevision: the next number, and the new head, in one transaction.
unfoldable pub add_revision : ℕ → Json → ℕ → String → Database → Database
add_revision id state editor note db = record db {
  revisions =
      db.revisions
      ++ record {
        proposal_id = id;
        revision_no = max_revision id db.revisions + 1;
        proposed_state = state;
        edited_by = editor;
        note = note;
        created_at = db.now;
      }
        ∷ [];
  proposals =
      update_where (has_id id) (λ p. record p { proposed_state = state; updated_at = db.now })
        db.proposals;
}

-- UpdateProposalStatus: the reviewer and the note are overwritten too.
unfoldable pub update_proposal_status : ℕ → Status → Option ℕ → String → Database → Database
update_proposal_status id status reviewer note db = record db {
  proposals =
      update_where (has_id id)
        (λ p. record p {
          status = status;
          assigned_reviewer = reviewer;
          review_note = note;
          updated_at = db.now;
        })
        db.proposals;
}

-- GetProposal.
unfoldable pub get_proposal : ℕ → Database → Option Proposal
get_proposal id db = find? (has_id id) db.proposals

-- UpdateProposalTargetName.
unfoldable pub update_proposal_target_name : ℕ → String → Database → Database
update_proposal_target_name id name db = record db {
  proposals = update_where (has_id id) (λ p. record p { target_name = name }) db.proposals;
}

-- AppendAudit.
unfoldable pub append_audit : ℕ → Action → Kind → String → ℕ → Option Json → Database → Database
append_audit actor action kind entity proposal detail db = record db {
  audit_log =
      db.audit_log
      ++ record {
        actor = actor;
        action = action;
        entity_kind = kind;
        entity_id = entity;
        proposal_id = some proposal;
        detail = detail;
        created_at = db.now;
      }
        ∷ [];
}
