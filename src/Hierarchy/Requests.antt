-- ===== src/Hierarchy/Requests.antt =====
-- Every request of internal/handlers/proposals.go on the hierarchy.
use topology_v.Base.{
  ℕ, String, Bool, true, false, Option, none, some, List, [], ◌∷◌, ◌++◌, refl, arith, inl, inr,
}
use topology_v.External.{External}
use topology_v.Models.{Status}
use topology_v.Db.{Database, Action}
use topology_v.Queries.Proposals.{
  create_proposal, add_proposal_pending_invites, update_proposal_status, append_audit, add_revision,
}
use topology_v.Apply.Change.{change_of}
use topology_v.Handlers.{
  Session, CreateRequest, ReviseRequest, end_creation, creation_params, store_proposal,
  store_revision, handle_create, handle_revise, transition, handle_submit, handle_withdraw,
  handle_reject, handle_approve,
}
use topology_v.Handlers.Cases.{create-cases, approve-cases}
use topology_v.Handlers.Requests.{
  Request, create_request, revise_request, submit_request, withdraw_request, approve_request,
  reject_request, serve, Event, run,
}
use topology_v.Hierarchy.{IsLinked, SameTables}
use topology_v.Hierarchy.Frame.{SameTables-refl, SameTables-trans, SameTables-IsLinked}
use topology_v.Hierarchy.Approval.{apply_proposal-IsLinked}

link-SameTables :
    (id : ℕ) (is : List (Option ℕ)) (db : Database)
    → SameTables db (add_proposal_pending_invites id is db).1
unfolding add_proposal_pending_invites
link-SameTables id [] db = SameTables-refl db
link-SameTables id (none ∷ is) db = link-SameTables id is db
link-SameTables id (some i ∷ is) db = ground (
  arith,
  link-SameTables id is db,
  link-SameTables id is (record db {
    pending_invites = db.pending_invites ++ record { proposal_id = id; invite_id = i } ∷ [];
  }),
)

end_creation-SameTables :
    (ext : External) (s : Session) (req : CreateRequest) (id : ℕ) (r : Bool × Database)
    → SameTables r.1 (end_creation ext s req id r).0
unfolding append_audit
end_creation-SameTables ext s req id (true, db) = record {
  facilities = refl;
  sites = refl;
  groups = refl;
  resources = refl;
}
end_creation-SameTables ext s req id (false, db) = SameTables-refl db

store-SameTables :
    (ext : External) (s : Session) (req : CreateRequest) (db : Database)
    → SameTables db (store_proposal ext s req db).0
unfolding store_proposal create_proposal
store-SameTables ext s req db =
    let stored = (create_proposal (creation_params ext s req db) db).1 in
    let l = link-SameTables db.next_uuid req.pending_invite_ids stored in
    SameTables-trans db _ _
      (record {
        facilities = l.facilities;
        sites = l.sites;
        groups = l.groups;
        resources = l.resources;
      })
      (end_creation-SameTables ext s req db.next_uuid
        (add_proposal_pending_invites db.next_uuid req.pending_invite_ids stored))

create-SameTables :
    (ext : External) (s : Session) (body : Option CreateRequest) (db : Database)
    → SameTables db (handle_create ext s body db).0
create-SameTables ext s body db = elim (create-cases ext s body db) [
  | inl (why, e) ↦ rw e (SameTables-refl db)
  | inr c ↦ rw c.ends (store-SameTables ext s c.request db)
]

revise-SameTables :
    (ext : External) (s : Session) (id : ℕ) (body : Option ReviseRequest) (db : Database)
    → SameTables db (handle_revise ext s id body db).0
unfolding handle_revise store_revision add_revision append_audit
revise-SameTables ext s id body db = ground arith

transition-SameTables :
    (ext : External) (s : Session) (id : ℕ) (target : Status) (reviewer : Bool) (note : String)
    (action : Action) (db : Database)
    → SameTables db (transition ext s id target reviewer note action db).0
unfolding transition update_proposal_status append_audit
transition-SameTables ext s id target reviewer note action db = ground arith

approve-IsLinked :
    (ext : External) (s : Session) (id : ℕ) (db : Database)
    → IsLinked db
    → IsLinked (handle_approve ext s id db).0
unfolding update_proposal_status append_audit
approve-IsLinked ext s id db h = elim (approve-cases ext s id db) [
  | inl (n, (why, e)) ↦
      rw e (record { sites = h.sites; groups = h.groups; resources = h.resources })
  | inr a ↦
      let l =
        apply_proposal-IsLinked ext s.user_id (change_of a.proposal) db a.result a.applies h in
      elim a.ends [
        | inl e ↦ rw e l
        | inr e ↦ rw e (record { sites = l.sites; groups = l.groups; resources = l.resources })
      ]
]

serve-IsLinked :
    (ext : External) (s : Session) (r : Request) (db : Database)
    → IsLinked db
    → IsLinked (serve ext s r db).0
unfolding serve handle_submit handle_withdraw handle_reject
serve-IsLinked ext s (create_request body) db h =
    SameTables-IsLinked db _ (create-SameTables ext s body db) h
serve-IsLinked ext s (revise_request id body) db h =
    SameTables-IsLinked db _ (revise-SameTables ext s id body db) h
serve-IsLinked ext s (submit_request id) db h =
    SameTables-IsLinked db _ (transition-SameTables ext s id _ _ _ _ db) h
serve-IsLinked ext s (withdraw_request id) db h =
    SameTables-IsLinked db _ (transition-SameTables ext s id _ _ _ _ db) h
serve-IsLinked ext s (reject_request id note) db h =
    SameTables-IsLinked db _ (transition-SameTables ext s id _ _ _ _ db) h
serve-IsLinked ext s (approve_request id) db h = approve-IsLinked ext s id db h

-- Where every live site, resource group and resource has a live parent, it has one after any
-- sequence of requests to the proposal endpoints, by any users and at any times.
pub run-IsLinked :
    (ext : External) (es : List Event) (db : Database) → IsLinked db → IsLinked (run ext es db)
unfolding run
run-IsLinked ext [] db h = h
run-IsLinked ext (e ∷ es) db h =
    run-IsLinked ext es (serve ext e.session e.request (record db { now = e.at_time })).0 (
      serve-IsLinked ext e.session e.request (record db { now = e.at_time })
        (record { sites = h.sites; groups = h.groups; resources = h.resources }))
