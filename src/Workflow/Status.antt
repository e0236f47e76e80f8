-- ===== src/Workflow/Status.antt =====
-- The status of a proposal over the requests of internal/handlers/proposals.go.
use topology_v.Base.{
  ℕ, String, Bool, true, false, Option, none, some, List, [], ◌∷◌, ◌++◌, ◌≡◌, refl, sym, ◌∙◌, ap,
  arith, ◌==◌, ==_iff, inl, inr, find?, update_where, Bool-cases, true≢false,
}
use topology_v.External.{External}
use topology_v.Models.{Status, is_applied, pending, withdrawn, rejected}
use topology_v.Db.{Database, Action, Proposal}
use topology_v.Queries.Proposals.{
  has_id, create_proposal, add_proposal_pending_invites, get_proposal, append_audit,
  update_proposal_status, add_revision,
}
use topology_v.Apply.Change.{change_of}
use topology_v.Handlers.{
  Session, CreateRequest, ReviseRequest, creation_status, creation_params, end_creation,
  store_proposal, handle_create, handle_revise, transition, handle_submit, handle_withdraw,
  handle_reject, handle_approve,
}
use topology_v.Handlers.Cases.{moved, create-cases, revise-cases, transition-cases, approve-cases}
use topology_v.Handlers.Requests.{
  Request, create_request, revise_request, submit_request, withdraw_request, approve_request,
  reject_request, serve,
}
use topology_v.Workflow.{unnamed_all}
use topology_v.Workflow.Approval.{apply_proposal-SameWorkflow}

abbrev pub is_applied_row : Option Proposal → Bool
is_applied_row none = false
is_applied_row (some p) = is_applied p.status

-- The proposal of this id has been applied.
abbrev pub is_applied_at : ℕ → Database → Bool
is_applied_at i db = is_applied_row (get_proposal i db)

abbrev in_rows : ℕ → List Proposal → Bool
in_rows i ps = is_applied_row (find? (has_id i) ps)

-- The status of a proposal does not depend on target names.
in_rows-unnamed : (i : ℕ) (ps : List Proposal) → in_rows i (unnamed_all ps) ≡ in_rows i ps
in_rows-unnamed i [] = refl
in_rows-unnamed i (p ∷ ps) = ground (arith, in_rows-unnamed i ps)

in_rows-append :
    (i : ℕ) (ps : List Proposal) (q : Proposal)
    → is_applied q.status ≡ false
    → in_rows i (ps ++ q ∷ []) ≡ true
    → in_rows i ps ≡ true
in_rows-append i [] q n h = ground arith
in_rows-append i (p ∷ ps) q n h = ground (arith, in_rows-append i ps q n)

in_rows-cons :
    (i : ℕ) (p q : Proposal) (ps qs : List Proposal)
    → has_id i q ≡ has_id i p
    → (is_applied q.status ≡ true → is_applied p.status ≡ true)
    → (in_rows i qs ≡ true → in_rows i ps ≡ true)
    → in_rows i (q ∷ qs) ≡ true
    → in_rows i (p ∷ ps) ≡ true
in_rows-cons i p q ps qs k g r h = elim (Bool-cases (has_id i p)) [
  | inl t ↦ rw t (g (rw (k ∙ t) at h))
  | inr t ↦ rw t (r (rw (k ∙ t) at h))
]

-- An update of the proposal `id` that makes no proposal applied.
in_rows-update :
    (i id : ℕ) (f : Proposal → Proposal) (ps : List Proposal)
    → ((p : Proposal) → has_id i (f p) ≡ has_id i p)
    → ((p : Proposal) → is_applied (f p).status ≡ true → is_applied p.status ≡ true)
    → in_rows i (update_where (has_id id) f ps) ≡ true
    → in_rows i ps ≡ true
in_rows-update i id f [] k g h = h
in_rows-update i id f (p ∷ ps) k g h = elim (Bool-cases (has_id id p)) [
  | inl t ↦
      in_rows-cons i p (f p) ps (update_where (has_id id) f ps) (k p) (g p)
        (in_rows-update i id f ps k g) (rw t at h)
  | inr t ↦
      in_rows-cons i p p ps (update_where (has_id id) f ps) refl (λ x. x)
        (in_rows-update i id f ps k g) (rw t at h)
]

-- An update of another proposal.
in_rows-other :
    (i id : ℕ) (f : Proposal → Proposal) (ps : List Proposal)
    → ((p : Proposal) → (f p).id ≡ p.id)
    → (i == id) ≡ false
    → in_rows i (update_where (has_id id) f ps) ≡ in_rows i ps
in_rows-other i id f [] k n = refl
in_rows-other i id f (p ∷ ps) k n = ground (arith, k p, in_rows-other i id f ps k n)

-- A status that a transition sets is no `applied`.
abbrev NeverApplied : ℕ → Database → Database → Type 0
NeverApplied i db db' = is_applied_at i db' ≡ true → is_applied_at i db ≡ true

moved-applied :
    (s : Session) (i id : ℕ) (target : Status) (reviewer : Bool) (note : String) (action : Action)
    (p : Proposal) (db : Database)
    → is_applied target ≡ false
    → NeverApplied i db (moved s id target reviewer note action p db)
unfolding get_proposal append_audit update_proposal_status
moved-applied s i id target reviewer note action p db n =
    in_rows-update i id _ db.proposals (λ q. refl) (λ q h. absurd (ground arith))

transition-applied :
    (ext : External) (s : Session) (i id : ℕ) (target : Status) (reviewer : Bool) (note : String)
    (action : Action) (db : Database)
    → is_applied target ≡ false
    → NeverApplied i db (transition ext s id target reviewer note action db).0
transition-applied ext s i id target reviewer note action db n h =
    elim (transition-cases ext s id target reviewer note action db) [
      | inl (why, e) ↦ rw e at h
      | inr (p, _, _, e) ↦ moved-applied s i id target reviewer note action p db n (rw e at h)
    ]

revise-applied :
    (ext : External) (s : Session) (i id : ℕ) (body : Option ReviseRequest) (db : Database)
    → NeverApplied i db (handle_revise ext s id body db).0
unfolding get_proposal append_audit add_revision
revise-applied ext s i id body db h = elim (revise-cases ext s id body db) [
  | inl (why, e) ↦ rw e at h
  | inr a ↦ in_rows-update i id _ db.proposals (λ q. refl) (λ q k. k) (rw a.ends at h)
]

link-proposals :
    (id : ℕ) (is : List (Option ℕ)) (db : Database)
    → (add_proposal_pending_invites id is db).1.proposals ≡ db.proposals
unfolding add_proposal_pending_invites
link-proposals id [] db = refl
link-proposals id (none ∷ is) db = link-proposals id is db
link-proposals id (some i ∷ is) db = ground (
  arith,
  link-proposals id is db,
  link-proposals id is (record db {
    pending_invites = db.pending_invites ++ record { proposal_id = id; invite_id = i } ∷ [];
  }),
)

end_creation-proposals :
    (ext : External) (s : Session) (req : CreateRequest) (id : ℕ) (r : Bool × Database)
    → (end_creation ext s req id r).0.proposals ≡ r.1.proposals
unfolding append_audit
end_creation-proposals ext s req id (true, db) = refl
end_creation-proposals ext s req id (false, db) = refl

creation_status-applied : (req : CreateRequest) → is_applied (creation_status req) ≡ false
creation_status-applied req = ground arith

create-applied :
    (ext : External) (s : Session) (i : ℕ) (body : Option CreateRequest) (db : Database)
    → NeverApplied i db (handle_create ext s body db).0
unfolding get_proposal store_proposal create_proposal creation_params
create-applied ext s i body db h = elim (create-cases ext s body db) [
  | inl (why, e) ↦ rw e at h
  | inr c ↦
      let stored = (create_proposal (creation_params ext s c.request db) db).1 in
      in_rows-append i db.proposals _ (creation_status-applied c.request) (
        rw
          (
            c.ends,
            end_creation-proposals ext s c.request db.next_uuid
                (add_proposal_pending_invites db.next_uuid c.request.pending_invite_ids stored),
            link-proposals db.next_uuid c.request.pending_invite_ids stored,
          )
          at h)
]

-- An approval applies no other proposal.
approve-applied_other :
    (ext : External) (s : Session) (i id : ℕ) (db : Database)
    → (i == id) ≡ false
    → NeverApplied i db (handle_approve ext s id db).0
unfolding get_proposal append_audit update_proposal_status
approve-applied_other ext s i id db n h = elim (approve-cases ext s id db) [
  | inl (_, (why, e)) ↦ rw e at h
  | inr a ↦
      let w =
        apply_proposal-SameWorkflow ext s.user_id (change_of a.proposal) db a.result a.applies in
      let k : in_rows i a.result.proposals ≡ true = elim a.ends [
        | inl e ↦ rw e at h
        | inr e ↦ sym (in_rows-other i id _ a.result.proposals (λ q. refl) n) ∙ (rw e at h)
      ] in
      sym (in_rows-unnamed i db.proposals)
      ∙ ap (in_rows i) (sym w.proposals)
      ∙ in_rows-unnamed i a.result.proposals
      ∙ k
]

-- Only an approval applies a proposal: where a request makes a proposal that was not applied (or
-- did not exist) an applied one, the request is the approval of that proposal.
pub serve-applied :
    (ext : External) (s : Session) (r : Request) (i : ℕ) (db : Database)
    → is_applied_at i (serve ext s r db).0 ≡ true
    → is_applied_at i db ≡ false
    → r ≡ approve_request i
unfolding serve handle_submit handle_withdraw handle_reject
serve-applied ext s (create_request body) i db h n =
    absurd (true≢false (sym (create-applied ext s i body db h) ∙ n))
serve-applied ext s (revise_request id body) i db h n =
    absurd (true≢false (sym (revise-applied ext s i id body db h) ∙ n))
serve-applied ext s (submit_request id) i db h n =
    absurd (true≢false (sym (transition-applied ext s i id pending _ _ _ db refl h) ∙ n))
serve-applied ext s (withdraw_request id) i db h n =
    absurd (true≢false (sym (transition-applied ext s i id withdrawn _ _ _ db refl h) ∙ n))
serve-applied ext s (reject_request id note) i db h n =
    absurd (true≢false (sym (transition-applied ext s i id rejected _ _ _ db refl h) ∙ n))
serve-applied ext s (approve_request id) i db h n = elim (Bool-cases (i == id)) [
  | inl e ↦ ap approve_request (sym ((==_iff i id).0 e))
  | inr e ↦ absurd (true≢false (sym (approve-applied_other ext s i id db e h) ∙ n))
]
