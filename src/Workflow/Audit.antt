-- ===== src/Workflow/Audit.antt =====
-- The audit log over the requests of internal/handlers/proposals.go.
use mathlib.Core.List.{append_assoc, append-nil}
use topology_v.Base.{
  ℕ, String, Bool, true, false, Option, none, some, List, [], ◌∷◌, ◌++◌, ◌≡◌, refl, sym, ◌∙◌, ap,
  arith, ◌⊎◌, inl, inr,
}
use topology_v.External.{External}
use topology_v.Models.{Status, Kind}
use topology_v.Json.{Json}
use topology_v.Db.{Database, Action, AuditEntry}
use topology_v.Queries.Proposals.{
  create_proposal, add_proposal_pending_invites, append_audit, update_proposal_status, add_revision,
}
use topology_v.Apply.Change.{change_of}
use topology_v.Handlers.{
  Session, Reply, refused, CreateRequest, ReviseRequest, creation_params, end_creation,
  store_proposal, handle_create, handle_revise, transition, handle_submit, handle_withdraw,
  handle_reject, handle_approve,
}
use topology_v.Handlers.Cases.{create-cases, revise-cases, transition-cases, approve-cases}
use topology_v.Handlers.Requests.{
  Request, create_request, revise_request, submit_request, withdraw_request, approve_request,
  reject_request, serve, Event, run,
}
use topology_v.Workflow.Approval.{apply_proposal-SameWorkflow}

abbrev pub is_refused : Reply → Bool
is_refused (refused why) = true
is_refused _ = false

-- The second log is the first with one entry more, by this user and at this time.
pub record Logged (s : Session) (db db' : Database) : Type 0 where
  pub entry : AuditEntry
  pub appended : db'.audit_log ≡ db.audit_log ++ entry ∷ []
  pub by : entry.actor ≡ s.user_id
  pub at : entry.created_at ≡ db.now

-- A success has one entry more, and a refusal none.
abbrev pub Logs : Session → Database → Database × Reply → Type 0
Logs s db r =
    (is_refused r.1 ≡ false) × Logged s db r.0
    ⊎ (is_refused r.1 ≡ true) × (r.0.audit_log ≡ db.audit_log)

link-log :
    (id : ℕ) (is : List (Option ℕ)) (db : Database)
    → ((add_proposal_pending_invites id is db).1.audit_log ≡ db.audit_log)
      × ((add_proposal_pending_invites id is db).1.now ≡ db.now)
unfolding add_proposal_pending_invites
link-log id [] db = (refl, refl)
link-log id (none ∷ is) db = link-log id is db
link-log id (some i ∷ is) db = ground (
  arith,
  link-log id is db,
  link-log id is (record db {
    pending_invites = db.pending_invites ++ record { proposal_id = id; invite_id = i } ∷ [];
  }),
)

-- An entry on a log that is still as it was.
append_audit-Logged :
    (s : Session) (action : Action) (kind : Kind) (name : String) (id : ℕ) (detail : Option Json)
    (db mid : Database)
    → mid.audit_log ≡ db.audit_log
    → mid.now ≡ db.now
    → Logged s db (append_audit s.user_id action kind name id detail mid)
unfolding append_audit
append_audit-Logged s action kind name id detail db mid l t =
    let entry : AuditEntry = record {
      actor = s.user_id;
      action = action;
      entity_kind = kind;
      entity_id = name;
      proposal_id = some id;
      detail = detail;
      created_at = mid.now;
    } in
    record { entry = entry; appended = ap (λ x. x ++ entry ∷ []) l; by = refl; at = t }

end_creation-Logs :
    (ext : External) (s : Session) (req : CreateRequest) (id : ℕ) (db : Database)
    (r : Bool × Database)
    → r.1.audit_log ≡ db.audit_log
    → r.1.now ≡ db.now
    → Logs s db (end_creation ext s req id r)
end_creation-Logs ext s req id db (true, d) l t =
    inl (refl, append_audit-Logged s _ _ _ id none db d l t)
end_creation-Logs ext s req id db (false, d) l t = inr (refl, l)

create-Logs :
    (ext : External) (s : Session) (body : Option CreateRequest) (db : Database)
    → Logs s db (handle_create ext s body db)
unfolding store_proposal create_proposal
create-Logs ext s body db = elim (create-cases ext s body db) [
  | inl (why, e) ↦ inr (rw e refl, rw e refl)
  | inr c ↦
      let stored = (create_proposal (creation_params ext s c.request db) db).1 in
      let l = link-log db.next_uuid c.request.pending_invite_ids stored in
      rw c.ends (
        end_creation-Logs ext s c.request db.next_uuid db
          (add_proposal_pending_invites db.next_uuid c.request.pending_invite_ids stored) l.0 l.1)
]

revise-Logs :
    (ext : External) (s : Session) (id : ℕ) (body : Option ReviseRequest) (db : Database)
    → Logs s db (handle_revise ext s id body db)
unfolding add_revision
revise-Logs ext s id body db = elim (revise-cases ext s id body db) [
  | inl (why, e) ↦ inr (rw e refl, rw e refl)
  | inr a ↦ rw a.ends (
      inl (
        refl,
        append_audit-Logged s _ _ _ id none db (add_revision id a.state s.user_id a.note db) refl
            refl,
      ))
]

transition-Logs :
    (ext : External) (s : Session) (id : ℕ) (target : Status) (reviewer : Bool) (note : String)
    (action : Action) (db : Database)
    → Logs s db (transition ext s id target reviewer note action db)
unfolding update_proposal_status
transition-Logs ext s id target reviewer note action db =
    elim (transition-cases ext s id target reviewer note action db) [
      | inl (why, e) ↦ inr (rw e refl, rw e refl)
      | inr (p, g, d, e) ↦
          rw e (inl (refl, append_audit-Logged s action _ _ id none db _ refl refl))
    ]

approve-Logs :
    (ext : External) (s : Session) (id : ℕ) (db : Database) → Logs s db (handle_approve ext s id db)
unfolding update_proposal_status
approve-Logs ext s id db = elim (approve-cases ext s id db) [
  | inl (n, (why, e)) ↦ inr (rw e refl, rw e refl)
  | inr a ↦
      let w =
        apply_proposal-SameWorkflow ext s.user_id (change_of a.proposal) db a.result a.applies in
      elim a.ends [
        | inl e ↦ rw e (inr (refl, w.log))
        | inr e ↦ rw e (inl (refl, append_audit-Logged s _ _ _ id _ db _ w.log w.time))
      ]
]

-- The audit log is append-only, and complete: a request that succeeds adds exactly one entry, which
-- names its user and its time, and one that is refused adds none.
pub serve-Logs :
    (ext : External) (s : Session) (r : Request) (db : Database) → Logs s db (serve ext s r db)
unfolding serve handle_submit handle_withdraw handle_reject
serve-Logs ext s (create_request body) db = create-Logs ext s body db
serve-Logs ext s (revise_request id body) db = revise-Logs ext s id body db
serve-Logs ext s (submit_request id) db = transition-Logs ext s id _ _ _ _ db
serve-Logs ext s (withdraw_request id) db = transition-Logs ext s id _ _ _ _ db
serve-Logs ext s (reject_request id note) db = transition-Logs ext s id _ _ _ _ db
serve-Logs ext s (approve_request id) db = approve-Logs ext s id db

-- After any sequence of requests the audit log is the former one with further entries at its end.
pub run-log :
    (ext : External) (es : List Event) (db : Database)
    → (added : List AuditEntry) × ((run ext es db).audit_log ≡ db.audit_log ++ added)
unfolding run
run-log ext [] db = ([], sym (append-nil db.audit_log))
run-log ext (e ∷ es) db =
    let now : Database = record db { now = e.at_time } in
    let (added, q) = run-log ext es (serve ext e.session e.request now).0 in
    elim (serve-Logs ext e.session e.request now) [
      | inl (_, l) ↦ (
        l.entry ∷ added,
        q ∙ ap (λ x. x ++ added) l.appended ∙ append_assoc db.audit_log (l.entry ∷ []) added,
      )
      | inr (_, l) ↦ (added, q ∙ ap (λ x. x ++ added) l)
    ]
