-- ===== src/Handlers/Cases.antt =====
-- What each handler of internal/handlers/proposals.go comes to: a refusal that leaves the database
-- alone, or the effect of its last branch.
use topology_v.Base.{
  ℕ, String, Bool, true, false, Option, none, some, ◌≡◌, refl, Bool-cases, ◌⊎◌, not, ltb, ◌==◌,
  ◌&&◌, if◌then◌else◌, ap, arith, Option-cases, inl, inr,
}
use topology_v.Base.Results.{ok, Outcome-cases}
use topology_v.External.{External}
use topology_v.Models.{Status, applied, is_pending, is_closed}
use topology_v.Models.Roles.{is_manager_or_admin}
use topology_v.Json.{Json}
use topology_v.Db.{Database, Action, Proposal, proposal_approve, proposal_revise}
use topology_v.Queries.Proposals.{
  update_proposal_status, get_proposal, append_audit, add_revision,
  count_unaccepted_proposal_invites,
}
use topology_v.Apply.Change.{change_of}
use topology_v.Apply.Dispatch.{apply_proposal}
use topology_v.Apply.Sequence.{drawn}
use topology_v.Handlers.{
  Session, Reply, Refusal, refused, status_is, status_ok, CreateRequest, ReviseRequest,
  store_proposal, store_revision, handle_create, handle_revise, handle_approve, transition,
  rolled_back, finish_approval, may_transition, denied, not_allowed_to_edit, proposal_is_closed,
  saving_revision, can_decide_proposal, check_schema, submitted_state, revised_state, is_operation,
  proposal_not_found, requires_reviewer, only_pending, pending_invite, applying, is_no_kind,
  invalid_body, updating_status, invalid_operation, entity_kind_required, schema_refused,
}

-- The database after an approval, from the one that the apply step gives.
abbrev pub approved : Session → ℕ → Proposal → Database → Database
approved s id p db' =
    append_audit s.user_id proposal_approve p.entity_kind p.target_name id (some p.proposed_state)
      (update_proposal_status id applied (some s.user_id) "" db')

-- Everything that holds where an approval is committed.
pub record Approval (ext : External) (s : Session) (id : ℕ) (db : Database) : Type 0 where
  pub proposal : Proposal
  pub result : Database
  pub found : get_proposal id db ≡ some proposal
  pub decides : can_decide_proposal ext s proposal db ≡ true
  pub pending : is_pending proposal.status ≡ true
  pub accepted : ltb 0 (count_unaccepted_proposal_invites id db) ≡ false
  pub applies : apply_proposal ext s.user_id (change_of proposal) db ≡ ok result
  pub ends :
      (handle_approve ext s id db ≡ (result, refused updating_status))
      ⊎ (handle_approve ext s id db ≡ (approved s id proposal result, status_is applied))

abbrev pub IsRefused : Database → Database × Reply → Type 0
IsRefused db r = (why : Refusal) × (r ≡ (db, refused why))

undrawn :
    (ext : External) (db : Database) (why : Refusal)
    → ◌≡◌ {A = Database × Reply} (db, refused why) (rolled_back ext 0 db, refused why)
undrawn ext db why = ap (λ n. (record db { resource_seq = n }, refused why)) (omega arith)

finish_approval-cases :
    (ext : External) (s : Session) (id : ℕ) (p : Proposal) (db : Database)
    → (finish_approval ext s id p db ≡ (db, refused updating_status))
      ⊎ (finish_approval ext s id p db ≡ (approved s id p db, status_is applied))
unfolding finish_approval
finish_approval-cases ext s id p db = elim (Bool-cases (ext.loses_update db)) [
  | inl t ↦ inl (rw (finish_approval, t) refl)
  | inr t ↦ inr (rw (finish_approval, t) refl)
]

-- An approval is refused, with ids that may be drawn, or it is committed.
pub approve-cases :
    (ext : External) (s : Session) (id : ℕ) (db : Database)
    → ((n : ℕ) × IsRefused (rolled_back ext n db) (handle_approve ext s id db))
      ⊎ Approval ext s id db
unfolding handle_approve
approve-cases ext s id db = elim (Option-cases (get_proposal id db)) [
  | inl g ↦
      inl (0, (proposal_not_found, rw (handle_approve, g) (undrawn ext db proposal_not_found)))
  | inr (p, g) ↦ elim (Bool-cases (can_decide_proposal ext s p db)) [
    | inr d ↦
        inl (0, (requires_reviewer, rw (handle_approve, g, d) (undrawn ext db requires_reviewer)))
    | inl d ↦ elim (Bool-cases (is_pending p.status)) [
      | inr q ↦ inl (0, (only_pending, rw (handle_approve, g, d, q) (undrawn ext db only_pending)))
      | inl q ↦ elim (Bool-cases (ltb 0 (count_unaccepted_proposal_invites id db))) [
        | inl c ↦
            inl
              (0, (pending_invite, rw (handle_approve, g, d, q, c) (undrawn ext db pending_invite)))
        | inr c ↦ elim (Outcome-cases (apply_proposal ext s.user_id (change_of p) db)) [
          | inl (e, a) ↦ inl (
            drawn ext s.user_id (change_of p) db,
            (applying e, rw (handle_approve, g, d, q, c, a) refl),
          )
          | inr (db', a) ↦ inr (record {
            proposal = p;
            result = db';
            found = g;
            decides = d;
            pending = q;
            accepted = c;
            applies = a;
            ends = rw (handle_approve, g, d, q, c, a) (finish_approval-cases ext s id p db');
          })
        ]
      ]
    ]
  ]
]

-- A creation that reaches its inserts.
pub record Creation (ext : External) (s : Session) (body : Option CreateRequest) (db : Database)
    : Type 0 where
  pub request : CreateRequest
  pub given : body ≡ some request
  pub operation : is_operation request.operation ≡ true
  pub valid :
      check_schema ext request.operation request.entity_kind (submitted_state ext request db)
      ≡ ok tt
  pub ends : handle_create ext s body db ≡ store_proposal ext s request db

pub create-cases :
    (ext : External) (s : Session) (body : Option CreateRequest) (db : Database)
    → IsRefused db (handle_create ext s body db) ⊎ Creation ext s body db
unfolding handle_create
create-cases ext s none db = inl (invalid_body, refl)
create-cases ext s (some req) db = elim (Bool-cases (is_operation req.operation)) [
  | inr o ↦ inl (invalid_operation, rw (handle_create, o) refl)
  | inl o ↦ elim (Bool-cases (is_no_kind req.entity_kind)) [
    | inl k ↦ inl (entity_kind_required, rw (handle_create, o, k) refl)
    | inr k ↦
        elim (Outcome-cases
          (check_schema ext req.operation req.entity_kind (submitted_state ext req db))) [
            | inl (e, v) ↦ inl (schema_refused e, rw (handle_create, o, k, v) refl)
            | inr (u, v) ↦ inr (record {
              request = req;
              given = refl;
              operation = o;
              valid = v;
              ends = rw (handle_create, o, k, v) refl;
            })
          ]
  ]
]

-- A transition that goes through.
abbrev pub moved : Session → ℕ → Status → Bool → String → Action → Proposal → Database → Database
moved s id target reviewer note action p db =
    append_audit s.user_id action p.entity_kind p.target_name id none (
      update_proposal_status id target (if reviewer then some s.user_id else none)
        (if reviewer then note else "") db)

pub transition-cases :
    (ext : External) (s : Session) (id : ℕ) (target : Status) (reviewer : Bool) (note : String)
    (action : Action) (db : Database)
    → IsRefused db (transition ext s id target reviewer note action db)
      ⊎ (p : Proposal) × (get_proposal id db ≡ some p)
        × (may_transition ext reviewer s p db ≡ true)
        × (transition ext s id target reviewer note action db
            ≡ (moved s id target reviewer note action p db, status_is target))
unfolding transition
transition-cases ext s id target reviewer note action db =
    elim (Option-cases (get_proposal id db)) [
      | inl g ↦ inl (proposal_not_found, rw (transition, g) refl)
      | inr (p, g) ↦ elim (Bool-cases (may_transition ext reviewer s p db)) [
        | inr d ↦ inl (denied ext reviewer, rw (transition, g, d) refl)
        | inl d ↦ inr (p, g, d, rw (transition, g, d) refl)
      ]
    ]

-- A revision that reaches its inserts.
pub record Amendment (ext : External) (s : Session) (id : ℕ) (body : Option ReviseRequest)
    (db : Database) : Type 0 where
  pub proposal : Proposal
  pub state : Json
  pub note : String
  pub found : get_proposal id db ≡ some proposal
  pub open_yet : is_closed proposal.status ≡ false
  pub ends : handle_revise ext s id body db ≡ (
    append_audit s.user_id proposal_revise proposal.entity_kind proposal.target_name id none
        (add_revision id state s.user_id note db),
    status_ok,
  )

pub revise-cases :
    (ext : External) (s : Session) (id : ℕ) (body : Option ReviseRequest) (db : Database)
    → IsRefused db (handle_revise ext s id body db) ⊎ Amendment ext s id body db
unfolding handle_revise store_revision
revise-cases ext s id body db = elim (Option-cases (get_proposal id db)) [
  | inl g ↦ inl (proposal_not_found, rw (handle_revise, g) refl)
  | inr (p, g) ↦
      elim (Bool-cases (not (p.created_by == s.user_id) && not (is_manager_or_admin s.roles))) [
        | inl d ↦ inl (not_allowed_to_edit, rw (handle_revise, g, d) refl)
        | inr d ↦ elim (Bool-cases (is_closed p.status)) [
          | inl c ↦ inl (proposal_is_closed, rw (handle_revise, g, d, c) refl)
          | inr c ↦ elim (Option-cases body) [
            | inl b ↦ inl (invalid_body, rw (handle_revise, g, d, c, b) refl)
            | inr (req, b) ↦
                elim (Outcome-cases
                  (check_schema ext p.operation p.entity_kind (revised_state ext p req))) [
                    | inl (e, v) ↦ inl (schema_refused e, rw (handle_revise, g, d, c, b, v) refl)
                    | inr (u, v) ↦ elim (Option-cases (revised_state ext p req)) [
                      | inl r ↦ inl (
                        saving_revision,
                        rw (handle_revise, g, d, c, b, v, store_revision, r) refl,
                      )
                      | inr (state, r) ↦ inr (record {
                        proposal = p;
                        state = state;
                        note = req.note;
                        found = g;
                        open_yet = c;
                        ends = rw (handle_revise, g, d, c, b, v, store_revision, r) refl;
                      })
                    ]
                  ]
          ]
        ]
      ]
]
