-- ===== src/Workflow/Decision.antt =====
-- What an approval (ApproveProposal of internal/handlers/proposals.go) decides.
use topology_v.Base.{
  ℕ, true, Option, none, some, List, [], ◌∷◌, ◌≡◌, arith, inl, inr, find?, update_where, Bool-cases,
}
use topology_v.External.{External}
use topology_v.Models.{applied, is_pending}
use topology_v.Db.{Database, Proposal}
use topology_v.Queries.Proposals.{has_id, get_proposal, count_unaccepted_proposal_invites}
use topology_v.Handlers.{Session, can_decide_proposal}
use topology_v.Workflow.{unnamed}

abbrev unnamed_row : Option Proposal → Option Proposal
unnamed_row none = none
unnamed_row (some p) = some (unnamed p)

pub find-update :
    (i : ℕ) (f : Proposal → Proposal) (ps : List Proposal) (p : Proposal)
    → ((p : Proposal) → (f p).id ≡ p.id)
    → find? (has_id i) ps ≡ some p
    → find? (has_id i) (update_where (has_id i) f ps) ≡ some (f p)
find-update i f [] p k h = absurd cc
find-update i f (q ∷ ps) p k h = elim (Bool-cases (has_id i q)) [
  | inl t ↦ let e : q ≡ p = ground (arith, t, h) in rw (t, e) (ground (arith, t, k p))
  | inr t ↦ rw t (ground (arith, t, find-update i f ps p k))
]

-- What holds before and after an approval that goes through.
pub record Decided (ext : External) (s : Session) (id : ℕ) (db db' : Database) : Type 0 where
  pub before : Proposal
  pub after : Proposal
  pub found : get_proposal id db ≡ some before
  pub was_pending : is_pending before.status ≡ true
  pub may_decide : can_decide_proposal ext s before db ≡ true
  pub invites_accepted : count_unaccepted_proposal_invites id db ≡ 0
  pub left : get_proposal id db' ≡ some after
  pub is_applied : after.status ≡ applied
  pub reviewed_by : after.assigned_reviewer ≡ some s.user_id
  pub same_state : after.proposed_state ≡ before.proposed_state
