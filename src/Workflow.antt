-- ===== src/Workflow.antt =====
-- What the proposal workflow keeps of its own: the proposals, their revisions, their links to
-- invites and the audit log (internal/db/queries_proposals.go), which the apply step of an approval
-- leaves alone, but for the target name of the proposal that it applies.
pub mod Frame
pub mod Apply
pub mod Resources
pub mod Leaves
pub mod Approval
pub mod Audit
pub mod Status
pub mod Decision
pub mod Revisions
pub mod Transitions
use topology_v.Base.{ℕ, ◌≡◌, List, [], ◌∷◌}
use topology_v.Db.{Database, Proposal, Revision, PendingInvite, AuditEntry}

-- A proposal but for its target name, which an approval may backfill.
abbrev pub unnamed : Proposal → Proposal
unnamed p = record p { target_name = "" }

abbrev pub unnamed_all : List Proposal → List Proposal
unnamed_all [] = []
unnamed_all (p ∷ ps) = unnamed p ∷ unnamed_all ps

-- The step from the first database to the second leaves the workflow alone.
pub record SameWorkflow (db db' : Database) : Type 0 where
  pub proposals : unnamed_all db'.proposals ≡ unnamed_all db.proposals
  pub revisions : db'.revisions ≡ db.revisions
  pub links : db'.pending_invites ≡ db.pending_invites
  pub log : db'.audit_log ≡ db.audit_log
  pub time : db'.now ≡ db.now
