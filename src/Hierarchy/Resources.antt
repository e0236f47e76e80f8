-- ===== src/Hierarchy/Resources.antt =====
-- applyResourceProposal (internal/handlers/proposals.go) and internal/topology/persist.go on the
-- hierarchy.
use topology_v.Base.{
  ℕ, ◌+◌, String, true, Option, none, some, List, [], ◌∷◌, ◌≡◌, refl, arith, any, str_eq, ◌||◌,
}
use topology_v.Base.Results.{ok, need, guard, >>=-eq-ok, need-eq-ok, if-eq-ok, ok-eq, never}
use topology_v.External.{External}
use topology_v.Errors.{bad_proposal_state}
use topology_v.Models.{is_update, is_delete}
use topology_v.Payloads.{Resource, ResourceProposal, Service, Contact}
use topology_v.Table.{has_id}
use topology_v.Db.{Database, ServiceRow}
use topology_v.Apply.Change.{Change, unmarshal}
use topology_v.Apply.Contacts.{require_resolved_resource_contacts}
use topology_v.Apply.Resources.{
  insert_services, insert_ranks, insert_contacts, insert_resource_children, mint_id, resource_body,
  create_resource_from_proposal, update_resource_from_proposal, backfill_target, save_resource,
  apply_resource,
}
use topology_v.Queries.Entities.{
  insert_resource, insert_resource_service, insert_resource_contact, resource_group_id_by_name,
  resource_exists, replace_resource_services, replace_resource_contacts_begin, soft_delete_resource,
  next_app_created_resource_id,
}
use topology_v.Queries.Proposals.{update_proposal_target_name}
use topology_v.Hierarchy.{IsLinked, SameTables}
use topology_v.Hierarchy.Frame.{
  SameTables-refl, SameTables-trans, SameTables-IsLinked, IsLinked-ok, upsert_user-SameTables,
}
use topology_v.Hierarchy.Entities.{
  resource_group_id-has_id, insert_resource-IsLinked, update_resource-IsLinked,
  soft_delete_resource-IsLinked,
}

insert_service-SameTables :
    (row : ServiceRow) (db db' : Database)
    → insert_resource_service row db ≡ ok db'
    → SameTables db db'
unfolding insert_resource_service
insert_service-SameTables row db db' e =
    let (_, _, e1) = >>=-eq-ok (guard (resource_exists row.resource_id db) _) _ e in
    rw (ok-eq _ refl e1)
      (record { facilities = refl; sites = refl; groups = refl; resources = refl })

insert_contact-SameTables :
    (id : ℕ) (ctype rank name cid : String) (db db' : Database)
    → insert_resource_contact id ctype rank name cid db ≡ ok db'
    → SameTables db db'
unfolding insert_resource_contact
insert_contact-SameTables id ctype rank name cid db db' e =
    ground (arith, upsert_user-SameTables name cid db)

insert_services-SameTables :
    (id ord : ℕ) (svcs : List (String × Service)) (db db' : Database)
    → insert_services id ord svcs db ≡ ok db'
    → SameTables db db'
unfolding insert_services
insert_services-SameTables id ord [] db db' e = rw (ok-eq _ refl e) (SameTables-refl db)
insert_services-SameTables id ord ((name, svc) ∷ svcs) db db' e =
    let (mid, s, e1) = >>=-eq-ok _ _ e in
    SameTables-trans db mid db' (insert_service-SameTables _ db mid s)
      (insert_services-SameTables id (ord + 1) svcs mid db' e1)

insert_ranks-SameTables :
    (id : ℕ) (ctype : String) (ranks : List (String × Contact)) (db db' : Database)
    → insert_ranks id ctype ranks db ≡ ok db'
    → SameTables db db'
unfolding insert_ranks
insert_ranks-SameTables id ctype [] db db' e = rw (ok-eq _ refl e) (SameTables-refl db)
insert_ranks-SameTables id ctype ((rank, c) ∷ ranks) db db' e =
    let (mid, s, e1) = >>=-eq-ok _ _ e in
    SameTables-trans db mid db' (insert_contact-SameTables _ _ _ _ _ db mid s)
      (insert_ranks-SameTables id ctype ranks mid db' e1)

insert_contacts-SameTables :
    (id : ℕ) (lists : List (String × List (String × Contact))) (db db' : Database)
    → insert_contacts id lists db ≡ ok db'
    → SameTables db db'
unfolding insert_contacts
insert_contacts-SameTables id [] db db' e = rw (ok-eq _ refl e) (SameTables-refl db)
insert_contacts-SameTables id ((ctype, ranks) ∷ lists) db db' e =
    let (mid, s, e1) = >>=-eq-ok _ _ e in
    SameTables-trans db mid db' (insert_ranks-SameTables _ _ _ db mid s)
      (insert_contacts-SameTables id lists mid db' e1)

insert_resource_children-SameTables :
    (id : ℕ) (res : Resource) (db db' : Database)
    → insert_resource_children id res db ≡ ok db'
    → SameTables db db'
unfolding insert_resource_children
insert_resource_children-SameTables id res db db' e =
    let (mid, s, e1) = >>=-eq-ok _ _ e in
    SameTables-trans db mid db' (insert_services-SameTables _ _ _ db mid s)
      (insert_contacts-SameTables _ _ mid db' e1)

mint_id-SameTables : (id : Option ℕ) (db : Database) → SameTables db (mint_id id db).1
unfolding next_app_created_resource_id
mint_id-SameTables none db = record {
  facilities = refl;
  sites = refl;
  groups = refl;
  resources = refl;
}
mint_id-SameTables (some id) db = SameTables-refl db

create_resource-IsLinked :
    (group_id : ℕ) (name : String) (res : Resource) (db : Database) (made : ℕ × Database)
    → create_resource_from_proposal group_id name res db ≡ ok made
    → any (has_id group_id) db.resource_groups ≡ true
    → IsLinked db
    → IsLinked made.1
unfolding create_resource_from_proposal
create_resource-IsLinked group_id name res db made e k h =
    let m = mint_id-SameTables res.id db in
    let id = (mint_id res.id db).0 in
    let (row, r, e1) =
      >>=-eq-ok (insert_resource id group_id name (resource_body res true) (mint_id res.id db).1) _
        e in
    let (full, c, e2) = >>=-eq-ok (insert_resource_children id res row) _ e1 in
    rw (ok-eq (ok (id, full)) refl e2) (
      SameTables-IsLinked row full (insert_resource_children-SameTables _ _ row full c) (
        insert_resource-IsLinked _ group_id _ _ (mint_id res.id db).1 row r (rw m.groups k)
          (SameTables-IsLinked db _ m h)))

update_from_proposal-IsLinked :
    (id group_id : ℕ) (name : String) (res : Resource) (actor : ℕ) (db db' : Database)
    → update_resource_from_proposal id group_id name res actor db ≡ ok db'
    → any (has_id group_id) db.resource_groups ≡ true
    → IsLinked db
    → IsLinked db'
unfolding update_resource_from_proposal replace_resource_services replace_resource_contacts_begin
update_from_proposal-IsLinked id group_id name res actor db db' e k h =
    let (row, r, e1) = >>=-eq-ok _ _ e in
    let l = update_resource-IsLinked _ group_id _ _ db row r k h in
    SameTables-IsLinked _ db' (insert_resource_children-SameTables _ _ _ db' e1)
      (record { sites = l.sites; groups = l.groups; resources = l.resources })

backfill-IsLinked :
    (ext : External) (o : Option ℕ) (made : ℕ × Database)
    → IsLinked made.1
    → IsLinked (backfill_target ext o made)
unfolding update_proposal_target_name
backfill-IsLinked ext none (id, db) h = h
backfill-IsLinked ext (some p) (id, db) h = record {
  sites = h.sites;
  groups = h.groups;
  resources = h.resources;
}

save_resource-IsLinked :
    (ext : External) (p : Change) (rp : ResourceProposal) (actor : ℕ) (db db' : Database)
    → save_resource ext p rp actor db ≡ ok db'
    → IsLinked db
    → IsLinked db'
unfolding save_resource
save_resource-IsLinked ext p rp actor db db' e h =
    if-eq-ok (str_eq rp.name "" || str_eq rp.resource_group "") _ _ e
      (λ x. never _ bad_proposal_state db' refl x)
      (λ s.
        let (_, _, e1) =
          >>=-eq-ok (require_resolved_resource_contacts db rp.resource.contact_lists) _ s in
        let (g, n, e2) = >>=-eq-ok (need (resource_group_id_by_name rp.resource_group db) _) _ e1 in
        let k = resource_group_id-has_id rp.resource_group db (need-eq-ok _ _ n) in
        if-eq-ok (is_update p.operation) _ _ e2
          (λ u.
            let (id, _, e3) = >>=-eq-ok (need (ext.parse_int p.target_name) _) _ u in
            update_from_proposal-IsLinked id g _ _ actor db db' e3 k h)
          (λ c.
            let (made, m, e3) =
              >>=-eq-ok (create_resource_from_proposal g rp.name rp.resource db) _ c in
            IsLinked-ok (backfill_target ext p.id made) db' _ refl e3
              (backfill-IsLinked ext p.id made (create_resource-IsLinked g _ _ db made m k h))))

pub apply_resource-IsLinked :
    (ext : External) (p : Change) (actor : ℕ) (db db' : Database)
    → apply_resource ext p actor db ≡ ok db'
    → IsLinked db
    → IsLinked db'
unfolding apply_resource
apply_resource-IsLinked ext p actor db db' e h =
    if-eq-ok (is_delete p.operation) _ _ e
      (λ d.
        let (id, _, e1) = >>=-eq-ok (need (ext.parse_int p.target_name) _) _ d in
        rw (ok-eq (ok (soft_delete_resource id (some actor) db)) refl e1)
          (soft_delete_resource-IsLinked id (some actor) db h))
      (λ s.
        let (rp, _, e1) = >>=-eq-ok (unmarshal ext.decode_resource p.proposed_state) _ s in
        save_resource-IsLinked ext p rp actor db db' e1 h)
