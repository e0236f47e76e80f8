-- ===== src/Workflow/Apply.antt =====
-- applyFacilityProposal, applySiteProposal and applyResourceGroupProposal leave the workflow alone.
use topology_v.Base.{ℕ, String, Bool, Option, ◌≡◌, refl, arith}
use topology_v.Base.Results.{ok, need, >>=-eq-ok, if-eq-ok}
use topology_v.External.{External}
use topology_v.Models.{facility, site, resource_group, is_update, is_delete}
use topology_v.Payloads.{FacilityProposal, SiteProposal, GroupProposal}
use topology_v.Db.{Database, FacilityBody, SiteBody, GroupBody}
use topology_v.Apply.Change.{Change, unmarshal}
use topology_v.Apply.Contacts.{require_resolved_contacts}
use topology_v.Apply.Hierarchy.{
  finish, check_institution, save_facility, save_site, save_resource_group, delete_facility,
  delete_site, delete_resource_group, apply_facility, apply_site, apply_resource_group,
}
use topology_v.Queries.Entities.{
  insert_facility, insert_site, insert_resource_group, update_facility_fields, update_site_fields,
  update_resource_group_fields, soft_delete_facility_by_name, soft_delete_site_by_name,
  soft_delete_resource_group_by_name, facility_id_by_name, site_id_by_name,
}
use topology_v.Workflow.{SameWorkflow}
use topology_v.Workflow.Frame.{SameWorkflow-trans, SameWorkflow-ok, finish-SameWorkflow}

insert_facility-SameWorkflow :
    (name : String) (body : FacilityBody) (db db' : Database)
    → insert_facility name body db ≡ ok db'
    → SameWorkflow db db'
unfolding insert_facility
insert_facility-SameWorkflow name body db db' e = ground arith

insert_site-SameWorkflow :
    (parent : ℕ) (name : String) (body : SiteBody) (db db' : Database)
    → insert_site parent name body db ≡ ok db'
    → SameWorkflow db db'
unfolding insert_site
insert_site-SameWorkflow parent name body db db' e = ground arith

insert_resource_group-SameWorkflow :
    (parent : ℕ) (name : String) (body : GroupBody) (db db' : Database)
    → insert_resource_group parent name body db ≡ ok db'
    → SameWorkflow db db'
unfolding insert_resource_group
insert_resource_group-SameWorkflow parent name body db db' e = ground arith

update_facility_fields-SameWorkflow :
    (target new institution : String) (db db' : Database)
    → update_facility_fields target new institution db ≡ ok db'
    → SameWorkflow db db'
unfolding update_facility_fields
update_facility_fields-SameWorkflow target new institution db db' e = ground arith

update_site_fields-SameWorkflow :
    (target new : String) (parent : ℕ) (body : SiteBody) (db db' : Database)
    → update_site_fields target new parent body db ≡ ok db'
    → SameWorkflow db db'
unfolding update_site_fields
update_site_fields-SameWorkflow target new parent body db db' e = ground arith

update_resource_group_fields-SameWorkflow :
    (target new : String) (parent : ℕ) (production disable : Option Bool) (support about : String)
    (db db' : Database)
    → update_resource_group_fields target new parent production disable support about db ≡ ok db'
    → SameWorkflow db db'
unfolding update_resource_group_fields
update_resource_group_fields-SameWorkflow target new parent production disable support about db db'
      e =
    ground arith

save_facility-SameWorkflow :
    (ext : External) (p : Change) (fp : FacilityProposal) (actor : ℕ) (db db' : Database)
    → save_facility ext p fp actor db ≡ ok db'
    → SameWorkflow db db'
unfolding save_facility
save_facility-SameWorkflow ext p fp actor db db' e =
    let (_, _, e1) = >>=-eq-ok (check_institution p fp.institution_id db) _ e in
    let (_, _, e2) = >>=-eq-ok (require_resolved_contacts db fp.contacts) _ e1 in
    let (saved, s, e3) = >>=-eq-ok _ _ e2 in
    SameWorkflow-ok db (finish facility p fp.name fp.contacts actor saved) db' _ refl e3 (
      SameWorkflow-trans db saved _
        (if-eq-ok (is_update p.operation) _ _ s
          (λ u. update_facility_fields-SameWorkflow _ _ _ db saved u)
          (λ i. insert_facility-SameWorkflow _ _ db saved i))
        (finish-SameWorkflow facility p fp.name fp.contacts actor saved))

delete_facility-SameWorkflow :
    (p : Change) (actor : ℕ) (db db' : Database)
    → delete_facility p actor db ≡ ok db'
    → SameWorkflow db db'
unfolding delete_facility soft_delete_facility_by_name
delete_facility-SameWorkflow p actor db db' e = ground arith

pub apply_facility-SameWorkflow :
    (ext : External) (p : Change) (actor : ℕ) (db db' : Database)
    → apply_facility ext p actor db ≡ ok db'
    → SameWorkflow db db'
unfolding apply_facility
apply_facility-SameWorkflow ext p actor db db' e =
    if-eq-ok (is_delete p.operation) _ _ e (λ d. delete_facility-SameWorkflow p actor db db' d)
      (λ s.
        let (x, _, e1) = >>=-eq-ok (unmarshal ext.decode_facility p.proposed_state) _ s in
        save_facility-SameWorkflow ext p x actor db db' e1)

save_site-SameWorkflow :
    (ext : External) (p : Change) (sp : SiteProposal) (actor : ℕ) (db db' : Database)
    → save_site ext p sp actor db ≡ ok db'
    → SameWorkflow db db'
unfolding save_site
save_site-SameWorkflow ext p sp actor db db' e =
    let (_, _, e1) = >>=-eq-ok (require_resolved_contacts db sp.contacts) _ e in
    let (parent, _, e2) = >>=-eq-ok (need (facility_id_by_name sp.facility db) _) _ e1 in
    let (saved, s, e3) = >>=-eq-ok _ _ e2 in
    SameWorkflow-ok db (finish site p sp.name sp.contacts actor saved) db' _ refl e3 (
      SameWorkflow-trans db saved _
        (if-eq-ok (is_update p.operation) _ _ s
          (λ u. update_site_fields-SameWorkflow _ _ _ _ db saved u)
          (λ i. insert_site-SameWorkflow _ _ _ db saved i))
        (finish-SameWorkflow site p sp.name sp.contacts actor saved))

delete_site-SameWorkflow :
    (p : Change) (actor : ℕ) (db db' : Database)
    → delete_site p actor db ≡ ok db'
    → SameWorkflow db db'
unfolding delete_site soft_delete_site_by_name
delete_site-SameWorkflow p actor db db' e = ground arith

pub apply_site-SameWorkflow :
    (ext : External) (p : Change) (actor : ℕ) (db db' : Database)
    → apply_site ext p actor db ≡ ok db'
    → SameWorkflow db db'
unfolding apply_site
apply_site-SameWorkflow ext p actor db db' e =
    if-eq-ok (is_delete p.operation) _ _ e (λ d. delete_site-SameWorkflow p actor db db' d)
      (λ s.
        let (x, _, e1) = >>=-eq-ok (unmarshal ext.decode_site p.proposed_state) _ s in
        save_site-SameWorkflow ext p x actor db db' e1)

save_resource_group-SameWorkflow :
    (ext : External) (p : Change) (rp : GroupProposal) (actor : ℕ) (db db' : Database)
    → save_resource_group ext p rp actor db ≡ ok db'
    → SameWorkflow db db'
unfolding save_resource_group
save_resource_group-SameWorkflow ext p rp actor db db' e =
    let (_, _, e1) = >>=-eq-ok (require_resolved_contacts db rp.contacts) _ e in
    let (parent, _, e2) = >>=-eq-ok (need (site_id_by_name rp.site db) _) _ e1 in
    let (saved, s, e3) = >>=-eq-ok _ _ e2 in
    SameWorkflow-ok db (finish resource_group p rp.name rp.contacts actor saved) db' _ refl e3 (
      SameWorkflow-trans db saved _
        (if-eq-ok (is_update p.operation) _ _ s
          (λ u. update_resource_group_fields-SameWorkflow _ _ _ _ _ _ _ db saved u)
          (λ i. insert_resource_group-SameWorkflow _ _ _ db saved i))
        (finish-SameWorkflow resource_group p rp.name rp.contacts actor saved))

delete_resource_group-SameWorkflow :
    (p : Change) (actor : ℕ) (db db' : Database)
    → delete_resource_group p actor db ≡ ok db'
    → SameWorkflow db db'
unfolding delete_resource_group soft_delete_resource_group_by_name
delete_resource_group-SameWorkflow p actor db db' e = ground arith

pub apply_resource_group-SameWorkflow :
    (ext : External) (p : Change) (actor : ℕ) (db db' : Database)
    → apply_resource_group ext p actor db ≡ ok db'
    → SameWorkflow db db'
unfolding apply_resource_group
apply_resource_group-SameWorkflow ext p actor db db' e =
    if-eq-ok (is_delete p.operation) _ _ e
      (λ d. delete_resource_group-SameWorkflow p actor db db' d)
      (λ s.
        let (x, _, e1) = >>=-eq-ok (unmarshal ext.decode_group p.proposed_state) _ s in
        save_resource_group-SameWorkflow ext p x actor db db' e1)
