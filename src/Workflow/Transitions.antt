-- ===== src/Workflow/Transitions.antt =====
-- What SubmitProposal, WithdrawProposal and RejectProposal (internal/handlers/proposals.go) do to
-- the proposal.
use topology_v.Base.{
  ℕ, String, Bool, true, false, none, some, ◌≡◌, refl, ◌==◌, inl, inr, if◌then◌else◌, Bool-cases,
}
use topology_v.External.{External}
use topology_v.Models.{Status, pending}
use topology_v.Db.{Database, Action, Proposal, proposal_submit}
use topology_v.Queries.Proposals.{get_proposal, append_audit, update_proposal_status}
use topology_v.Handlers.{Session, may_transition, transition, handle_submit}
use topology_v.Handlers.Cases.{moved}
use topology_v.Workflow.Decision.{find-update}

-- The proposal as a transition by this user leaves it.
abbrev pub transitioned : Session → Status → Bool → String → ℕ → Proposal → Proposal
transitioned s target reviewer note now p = record p {
  status = target;
  assigned_reviewer = if reviewer then some s.user_id else none;
  review_note = if reviewer then note else "";
  updated_at = now;
}

moved-transitioned :
    (s : Session) (id : ℕ) (target : Status) (reviewer : Bool) (note : String) (action : Action)
    (p : Proposal) (db : Database)
    → get_proposal id db ≡ some p
    → get_proposal id (moved s id target reviewer note action p db)
      ≡ some (transitioned s target reviewer note db.now p)
unfolding get_proposal append_audit update_proposal_status
moved-transitioned s id target reviewer note action p db g =
    find-update id _ db.proposals p (λ q. refl) g

-- A transition goes through exactly for those who may make it, whatever the status of the proposal:
-- an existing proposal then has the new status, with the reviewer and the note of a review and
-- without those of an earlier one, and its state and its author stay; otherwise it stays as it was.
pub transition-effect :
    (ext : External) (s : Session) (id : ℕ) (target : Status) (reviewer : Bool) (note : String)
    (action : Action) (p : Proposal) (db : Database)
    → get_proposal id db ≡ some p
    → get_proposal id (transition ext s id target reviewer note action db).0
      ≡ some (
          if may_transition ext reviewer s p db
          then transitioned s target reviewer note db.now p
          else p)
unfolding transition
transition-effect ext s id target reviewer note action p db g =
    elim (Bool-cases (may_transition ext reviewer s p db)) [
      | inl m ↦ rw (transition, g, m) (moved-transitioned s id target reviewer note action p db g)
      | inr m ↦ rw (transition, g, m) g
    ]

-- The creator's submission makes a proposal pending, whatever its status was: one that is applied,
-- rejected or withdrawn too. The reviewer and the note of an earlier review are gone.
pub handle_submit-effect :
    (ext : External) (s : Session) (id : ℕ) (p : Proposal) (db : Database)
    → get_proposal id db ≡ some p
    → (p.created_by == s.user_id) ≡ true
    → get_proposal id (handle_submit ext s id db).0
      ≡ some (transitioned s pending false "" db.now p)
unfolding handle_submit
handle_submit-effect ext s id p db g c =
    rw c at (transition-effect ext s id pending false "" proposal_submit p db g)
