-- ===== src/Workflow/Resources.antt =====
-- applyResourceProposal (internal/handlers/proposals.go) and internal/topology/persist.go on the
-- workflow: the target name of the proposal is all that they touch.
use topology_v.Base.{
  ℕ, ◌+◌, String, true, Option, none, some, List, [], ◌∷◌, ◌≡◌, refl, arith, update_where, str_eq,
  ◌||◌,
}
use topology_v.Base.Results.{ok, need, guard, >>=-eq-ok, if-eq-ok, ok-eq, never}
use topology_v.External.{External}
use topology_v.Errors.{bad_proposal_state}
use topology_v.Models.{is_update, is_delete}
use topology_v.Payloads.{Resource, ResourceProposal, Service, Contact}
use topology_v.Db.{Database, ServiceRow, ResourceBody, Proposal}
use topology_v.Apply.Change.{Change, unmarshal}
use topology_v.Apply.Contacts.{require_resolved_resource_contacts}
use topology_v.Apply.Resources.{
  insert_services, insert_ranks, insert_contacts, insert_resource_children, mint_id, resource_body,
  create_resource_from_proposal, update_resource_from_proposal, backfill_target, save_resource,
  apply_resource,
}
use topology_v.Queries.Entities.{
  insert_resource, insert_resource_service, insert_resource_contact, resource_group_id_by_name,
  resource_exists, update_resource_fields, replace_resource_services,
  replace_resource_contacts_begin, soft_delete_resource, next_app_created_resource_id,
}
use topology_v.Queries.Proposals.{has_id, update_proposal_target_name}
use topology_v.Workflow.{SameWorkflow, unnamed_all}
use topology_v.Workflow.Frame.{
  SameWorkflow-refl, SameWorkflow-trans, SameWorkflow-ok, upsert_user-SameWorkflow,
}

insert_service-SameWorkflow :
    (row : ServiceRow) (db db' : Database)
    → insert_resource_service row db ≡ ok db'
    → SameWorkflow db db'
unfolding insert_resource_service
insert_service-SameWorkflow row db db' e =
    let (_, _, e1) = >>=-eq-ok (guard (resource_exists row.resource_id db) _) _ e in
    rw (ok-eq _ refl e1)
      (record { proposals = refl; revisions = refl; links = refl; log = refl; time = refl })

insert_contact-SameWorkflow :
    (id : ℕ) (ctype rank name cid : String) (db db' : Database)
    → insert_resource_contact id ctype rank name cid db ≡ ok db'
    → SameWorkflow db db'
unfolding insert_resource_contact
insert_contact-SameWorkflow id ctype rank name cid db db' e =
    ground (arith, upsert_user-SameWorkflow name cid db)

insert_services-SameWorkflow :
    (id ord : ℕ) (svcs : List (String × Service)) (db db' : Database)
    → insert_services id ord svcs db ≡ ok db'
    → SameWorkflow db db'
unfolding insert_services
insert_services-SameWorkflow id ord [] db db' e = rw (ok-eq _ refl e) (SameWorkflow-refl db)
insert_services-SameWorkflow id ord ((name, svc) ∷ svcs) db db' e =
    let (mid, s, e1) = >>=-eq-ok _ _ e in
    SameWorkflow-trans db mid db' (insert_service-SameWorkflow _ db mid s)
      (insert_services-SameWorkflow id (ord + 1) svcs mid db' e1)

insert_ranks-SameWorkflow :
    (id : ℕ) (ctype : String) (ranks : List (String × Contact)) (db db' : Database)
    → insert_ranks id ctype ranks db ≡ ok db'
    → SameWorkflow db db'
unfolding insert_ranks
insert_ranks-SameWorkflow id ctype [] db db' e = rw (ok-eq _ refl e) (SameWorkflow-refl db)
insert_ranks-SameWorkflow id ctype ((rank, c) ∷ ranks) db db' e =
    let (mid, s, e1) = >>=-eq-ok _ _ e in
    SameWorkflow-trans db mid db' (insert_contact-SameWorkflow _ _ _ _ _ db mid s)
      (insert_ranks-SameWorkflow id ctype ranks mid db' e1)

insert_contacts-SameWorkflow :
    (id : ℕ) (lists : List (String × List (String × Contact))) (db db' : Database)
    → insert_contacts id lists db ≡ ok db'
    → SameWorkflow db db'
unfolding insert_contacts
insert_contacts-SameWorkflow id [] db db' e = rw (ok-eq _ refl e) (SameWorkflow-refl db)
insert_contacts-SameWorkflow id ((ctype, ranks) ∷ lists) db db' e =
    let (mid, s, e1) = >>=-eq-ok _ _ e in
    SameWorkflow-trans db mid db' (insert_ranks-SameWorkflow _ _ _ db mid s)
      (insert_contacts-SameWorkflow id lists mid db' e1)

insert_resource_children-SameWorkflow :
    (id : ℕ) (res : Resource) (db db' : Database)
    → insert_resource_children id res db ≡ ok db'
    → SameWorkflow db db'
unfolding insert_resource_children
insert_resource_children-SameWorkflow id res db db' e =
    let (mid, s, e1) = >>=-eq-ok _ _ e in
    SameWorkflow-trans db mid db' (insert_services-SameWorkflow _ _ _ db mid s)
      (insert_contacts-SameWorkflow _ _ mid db' e1)

mint_id-SameWorkflow : (id : Option ℕ) (db : Database) → SameWorkflow db (mint_id id db).1
unfolding next_app_created_resource_id
mint_id-SameWorkflow none db = record {
  proposals = refl;
  revisions = refl;
  links = refl;
  log = refl;
  time = refl;
}
mint_id-SameWorkflow (some id) db = SameWorkflow-refl db

insert_resource-SameWorkflow :
    (id group_id : ℕ) (name : String) (body : ResourceBody) (db db' : Database)
    → insert_resource id group_id name body db ≡ ok db'
    → SameWorkflow db db'
unfolding insert_resource
insert_resource-SameWorkflow id group_id name body db db' e = ground arith

update_resource_fields-SameWorkflow :
    (id group_id : ℕ) (name : String) (body : ResourceBody) (db db' : Database)
    → update_resource_fields id group_id name body db ≡ ok db'
    → SameWorkflow db db'
unfolding update_resource_fields
update_resource_fields-SameWorkflow id group_id name body db db' e = ground arith

create_resource-SameWorkflow :
    (group_id : ℕ) (name : String) (res : Resource) (db : Database) (made : ℕ × Database)
    → create_resource_from_proposal group_id name res db ≡ ok made
    → SameWorkflow db made.1
unfolding create_resource_from_proposal
create_resource-SameWorkflow group_id name res db made e =
    let id = (mint_id res.id db).0 in
    let (row, r, e1) =
      >>=-eq-ok (insert_resource id group_id name (resource_body res true) (mint_id res.id db).1) _
        e in
    let (full, c, e2) = >>=-eq-ok (insert_resource_children id res row) _ e1 in
    rw (ok-eq (ok (id, full)) refl e2) (
      SameWorkflow-trans db _ full (mint_id-SameWorkflow res.id db) (
        SameWorkflow-trans _ row full (insert_resource-SameWorkflow _ _ _ _ _ row r)
          (insert_resource_children-SameWorkflow _ _ row full c)))

update_from_proposal-SameWorkflow :
    (id group_id : ℕ) (name : String) (res : Resource) (actor : ℕ) (db db' : Database)
    → update_resource_from_proposal id group_id name res actor db ≡ ok db'
    → SameWorkflow db db'
unfolding update_resource_from_proposal replace_resource_services replace_resource_contacts_begin
update_from_proposal-SameWorkflow id group_id name res actor db db' e =
    let (row, r, e1) = >>=-eq-ok _ _ e in
    let l = update_resource_fields-SameWorkflow _ _ _ _ db row r in
    SameWorkflow-trans db _ db'
      (record {
        proposals = l.proposals;
        revisions = l.revisions;
        links = l.links;
        log = l.log;
        time = l.time;
      })
      (insert_resource_children-SameWorkflow _ _ _ db' e1)

rename-unnamed_all :
    (id : ℕ) (name : String) (ps : List Proposal)
    → unnamed_all (update_where (has_id id) (λ p. record p { target_name = name }) ps)
      ≡ unnamed_all ps
rename-unnamed_all id name [] = refl
rename-unnamed_all id name (p ∷ ps) = ground (arith, rename-unnamed_all id name ps)

backfill-SameWorkflow :
    (ext : External) (o : Option ℕ) (made : ℕ × Database)
    → SameWorkflow made.1 (backfill_target ext o made)
unfolding update_proposal_target_name
backfill-SameWorkflow ext none (id, db) = SameWorkflow-refl db
backfill-SameWorkflow ext (some p) (id, db) = record {
  proposals = rename-unnamed_all p (ext.format_int id) db.proposals;
  revisions = refl;
  links = refl;
  log = refl;
  time = refl;
}

save_resource-SameWorkflow :
    (ext : External) (p : Change) (rp : ResourceProposal) (actor : ℕ) (db db' : Database)
    → save_resource ext p rp actor db ≡ ok db'
    → SameWorkflow db db'
unfolding save_resource
save_resource-SameWorkflow ext p rp actor db db' e =
    if-eq-ok (str_eq rp.name "" || str_eq rp.resource_group "") _ _ e
      (λ x. never _ bad_proposal_state db' refl x)
      (λ s.
        let (_, _, e1) =
          >>=-eq-ok (require_resolved_resource_contacts db rp.resource.contact_lists) _ s in
        let (g, _, e2) = >>=-eq-ok (need (resource_group_id_by_name rp.resource_group db) _) _ e1 in
        if-eq-ok (is_update p.operation) _ _ e2
          (λ u.
            let (id, _, e3) = >>=-eq-ok (need (ext.parse_int p.target_name) _) _ u in
            update_from_proposal-SameWorkflow id g _ _ actor db db' e3)
          (λ c.
            let (made, m, e3) =
              >>=-eq-ok (create_resource_from_proposal g rp.name rp.resource db) _ c in
            SameWorkflow-ok db (backfill_target ext p.id made) db' _ refl e3 (
              SameWorkflow-trans db made.1 _ (create_resource-SameWorkflow g _ _ db made m)
                (backfill-SameWorkflow ext p.id made))))

pub apply_resource-SameWorkflow :
    (ext : External) (p : Change) (actor : ℕ) (db db' : Database)
    → apply_resource ext p actor db ≡ ok db'
    → SameWorkflow db db'
unfolding apply_resource soft_delete_resource
apply_resource-SameWorkflow ext p actor db db' e =
    if-eq-ok (is_delete p.operation) _ _ e (λ d. ground arith)
      (λ s.
        let (rp, _, e1) = >>=-eq-ok (unmarshal ext.decode_resource p.proposed_state) _ s in
        save_resource-SameWorkflow ext p rp actor db db' e1)
