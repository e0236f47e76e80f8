-- ===== src/Handlers/Atomic.antt =====
-- A request that is refused changes nothing (internal/handlers/proposals.go).
use mathlib.Core.Path.{subst}
use topology_v.Base.{ℕ, ◌≤◌, String, Bool, true, false, Option, ◌≡◌, refl, sym, arith, inl, inr}
use topology_v.External.{External}
use topology_v.Models.{Status}
use topology_v.Db.{Database, Action}
use topology_v.Queries.Proposals.{create_proposal, add_proposal_pending_invites}
use topology_v.Handlers.{
  Session, Reply, Refusal, refused, linking_invites, updating_status, rolled_back, CreateRequest,
  ReviseRequest, creation_params, end_creation, store_proposal, handle_create, handle_revise,
  transition, handle_submit, handle_withdraw, handle_reject, handle_approve,
}
use topology_v.Handlers.Cases.{
  IsRefused, create-cases, revise-cases, transition-cases, approve-cases,
}
use topology_v.Handlers.Requests.{
  Request, create_request, revise_request, submit_request, withdraw_request, approve_request,
  reject_request, serve,
}

-- The two refusals that come after a commit: of a creation, and of an approval.
abbrev pub is_late : Refusal → Bool
is_late linking_invites = true
is_late updating_status = true
is_late _ = false

-- The same database, but for ids that have been drawn from the sequence.
abbrev pub SameButDrawn : Database → Database → Type 0
SameButDrawn db db' =
    (db' ≡ record db { resource_seq = db'.resource_seq }) × (db.resource_seq ≤ db'.resource_seq)

abbrev Unchanged : Database → Database × Reply → Type 0
Unchanged db r =
    (db' : Database) (why : Refusal)
    → r ≡ (db', refused why)
    → is_late why ≡ false
    → SameButDrawn db db'

end_creation-Unchanged :
    (ext : External) (s : Session) (req : CreateRequest) (id : ℕ) (db : Database)
    (r : Bool × Database)
    → Unchanged db (end_creation ext s req id r)
end_creation-Unchanged ext s req id db (true, d) db' why e n = absurd cc
end_creation-Unchanged ext s req id db (false, d) db' why e n = absurd (ground arith)

refused-Unchanged : (db : Database) (r : Database × Reply) → IsRefused db r → Unchanged db r
refused-Unchanged db r (x, q) db' why e n =
    let k : db ≡ db' = cc in subst (SameButDrawn db) k (refl, omega arith)

drawn-Unchanged :
    (ext : External) (n : ℕ) (db : Database) (r : Database × Reply)
    → IsRefused (rolled_back ext n db) r
    → Unchanged db r
drawn-Unchanged ext n db r (x, q) db' why e late =
    let k : rolled_back ext n db ≡ db' = cc in subst (SameButDrawn db) k (refl, omega arith)

create-Unchanged :
    (ext : External) (s : Session) (body : Option CreateRequest) (db : Database)
    → Unchanged db (handle_create ext s body db)
unfolding store_proposal create_proposal
create-Unchanged ext s body db db' why e n = elim (create-cases ext s body db) [
  | inl r ↦ refused-Unchanged db _ r db' why e n
  | inr c ↦
      let stored = (create_proposal (creation_params ext s c.request db) db).1 in
      end_creation-Unchanged ext s c.request db.next_uuid db
        (add_proposal_pending_invites db.next_uuid c.request.pending_invite_ids stored) db' why
        (rw (sym c.ends) e) n
]

revise-Unchanged :
    (ext : External) (s : Session) (id : ℕ) (body : Option ReviseRequest) (db : Database)
    → Unchanged db (handle_revise ext s id body db)
revise-Unchanged ext s id body db db' why e n = elim (revise-cases ext s id body db) [
  | inl r ↦ refused-Unchanged db _ r db' why e n
  | inr a ↦ let q = a.ends in absurd cc
]

transition-Unchanged :
    (ext : External) (s : Session) (id : ℕ) (target : Status) (reviewer : Bool) (note : String)
    (action : Action) (db : Database)
    → Unchanged db (transition ext s id target reviewer note action db)
transition-Unchanged ext s id target reviewer note action db db' why e n =
    elim (transition-cases ext s id target reviewer note action db) [
      | inl r ↦ refused-Unchanged db _ r db' why e n
      | inr (p, _, _, q) ↦ absurd cc
    ]

approve-Unchanged :
    (ext : External) (s : Session) (id : ℕ) (db : Database)
    → Unchanged db (handle_approve ext s id db)
approve-Unchanged ext s id db db' why e n = elim (approve-cases ext s id db) [
  | inl (m, r) ↦ drawn-Unchanged ext m db _ r db' why e n
  | inr a ↦ elim a.ends [ inl q ↦ absurd (ground (arith, e, q, n)) | inr q ↦ absurd cc ]
]

-- A refused request leaves every table as it was, and the time and the counters too, but for the
-- sequence of resource ids, which can only have gone on: so an approval whose apply step fails, in
-- the middle of a bundle too, has no other effect. This holds of every refusal but the two that come
-- after a commit: an invite that cannot be linked to the proposal that is stored, and a status that
-- cannot be updated once the proposal is applied.
pub serve-unchanged :
    (ext : External) (s : Session) (r : Request) (db db' : Database) (why : Refusal)
    → serve ext s r db ≡ (db', refused why)
    → is_late why ≡ false
    → SameButDrawn db db'
unfolding serve handle_submit handle_withdraw handle_reject
serve-unchanged ext s (create_request body) db db' why e n =
    create-Unchanged ext s body db db' why e n
serve-unchanged ext s (revise_request id body) db db' why e n =
    revise-Unchanged ext s id body db db' why e n
serve-unchanged ext s (submit_request id) db db' why e n =
    transition-Unchanged ext s id _ _ _ _ db db' why e n
serve-unchanged ext s (withdraw_request id) db db' why e n =
    transition-Unchanged ext s id _ _ _ _ db db' why e n
serve-unchanged ext s (reject_request id note) db db' why e n =
    transition-Unchanged ext s id _ _ _ _ db db' why e n
serve-unchanged ext s (approve_request id) db db' why e n =
    approve-Unchanged ext s id db db' why e n
