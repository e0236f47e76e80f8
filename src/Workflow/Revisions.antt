-- ===== src/Workflow/Revisions.antt =====
-- The revisions of a proposal (AddRevision of internal/db/queries_proposals.go) over ReviseProposal.
use topology_v.Base.{ℕ, ◌+◌, false, Option, none, some, [], ◌∷◌, ◌++◌, ◌≡◌, refl, inl, inr}
use topology_v.External.{External}
use topology_v.Models.{is_closed}
use topology_v.Db.{Database, Proposal, Revision, proposal_revise}
use topology_v.Queries.Proposals.{get_proposal, append_audit, add_revision, max_revision}
use topology_v.Handlers.{Session, status_ok, ReviseRequest, handle_revise}
use topology_v.Handlers.Cases.{revise-cases}
use topology_v.Workflow.Decision.{find-update}

-- What a revision that is stored leaves.
pub record Revised (id : ℕ) (s : Session) (db db' : Database) : Type 0 where
  pub before : Proposal
  pub after : Proposal
  pub revision : Revision
  pub found : get_proposal id db ≡ some before
  pub was_open : is_closed before.status ≡ false
  pub left : get_proposal id db' ≡ some after
  pub appended : db'.revisions ≡ db.revisions ++ revision ∷ []
  pub of_proposal : revision.proposal_id ≡ id
  pub numbered : revision.revision_no ≡ max_revision id db.revisions + 1
  pub by : revision.edited_by ≡ s.user_id
  pub head : after.proposed_state ≡ revision.proposed_state
  pub same_status : after.status ≡ before.status

-- A revision that is stored is of a proposal that is neither applied nor rejected; it is the next in
-- the numbering, by this user, after all the earlier revisions, which stay; its state is the
-- proposal's from then on; and it does not move the proposal's status.
pub handle_revise-Revised :
    (ext : External) (s : Session) (id : ℕ) (body : Option ReviseRequest) (db db' : Database)
    → handle_revise ext s id body db ≡ (db', status_ok)
    → Revised id s db db'
unfolding get_proposal append_audit add_revision
handle_revise-Revised ext s id body db db' h = elim (revise-cases ext s id body db) [
  | inl (why, e) ↦ absurd cc
  | inr a ↦
      let end : Proposal = record (a.proposal) { proposed_state = a.state; updated_at = db.now } in
      let rev : Revision = record {
        proposal_id = id;
        revision_no = max_revision id db.revisions + 1;
        proposed_state = a.state;
        edited_by = s.user_id;
        note = a.note;
        created_at = db.now;
      } in
      let k : db'
          ≡ append_audit s.user_id proposal_revise a.proposal.entity_kind a.proposal.target_name id
              none (add_revision id a.state s.user_id a.note db) =
        cc in
      record {
        before = a.proposal;
        after = end;
        revision = rev;
        found = a.found;
        was_open = a.open_yet;
        left = rw k (find-update id _ db.proposals a.proposal (λ p. refl) a.found);
        appended = rw k refl;
        of_proposal = refl;
        numbered = refl;
        by = refl;
        head = refl;
        same_status = refl;
      }
]
