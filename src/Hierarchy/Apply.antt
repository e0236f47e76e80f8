-- ===== src/Hierarchy/Apply.antt =====
-- applyFacilityProposal, applySiteProposal and applyResourceGroupProposal
-- (internal/handlers/proposals.go) on the hierarchy.
use topology_v.Base.{ℕ, String, some, List, ◌≡◌, refl, is_empty}
use topology_v.Base.Results.{ok, need, >>=-eq-ok, need-eq-ok, guard, guard-eq-ok, if-eq-ok, ok-eq}
use topology_v.Errors.{Result}
use topology_v.External.{External}
use topology_v.Models.{Kind, facility, site, resource_group, is_update, is_delete}
use topology_v.Payloads.{EntityContact, FacilityProposal, SiteProposal, GroupProposal}
use topology_v.Table.{children_of}
use topology_v.Db.{Database}
use topology_v.Apply.Change.{Change, unmarshal}
use topology_v.Apply.Contacts.{require_resolved_contacts}
use topology_v.Apply.Hierarchy.{
  finish, check_institution, save_facility, save_site, save_resource_group, delete_facility,
  delete_site, delete_resource_group, apply_facility, apply_site, apply_resource_group,
}
use topology_v.Queries.Entities.{facility_id_by_name, site_id_by_name}
use topology_v.Hierarchy.{IsLinked}
use topology_v.Hierarchy.Frame.{finish-SameTables, SameTables-IsLinked}
use topology_v.Hierarchy.Entities.{
  facility_id-has_id, site_id-has_id, insert_facility-IsLinked, insert_site-IsLinked,
  insert_group-IsLinked, update_facility-IsLinked, update_site-IsLinked, update_group-IsLinked,
  soft_delete_facility-IsLinked, soft_delete_site-IsLinked, soft_delete_group-IsLinked,
}

-- The result is this database.
abbrev pub Gives : Result Database → Database → Type 0
Gives r db = r ≡ ok db

finish-IsLinked :
    (kind : Kind) (p : Change) (name : String) (cs : List EntityContact) (actor : ℕ)
    (db db' : Database)
    → Gives (ok (finish kind p name cs actor db)) db'
    → IsLinked db
    → IsLinked db'
finish-IsLinked kind p name cs actor db db' e h =
    rw (ok-eq _ refl e) (SameTables-IsLinked db _ (finish-SameTables kind p name cs actor db) h)

save_facility-IsLinked :
    (ext : External) (p : Change) (fp : FacilityProposal) (actor : ℕ) (db db' : Database)
    → save_facility ext p fp actor db ≡ ok db'
    → IsLinked db
    → IsLinked db'
unfolding save_facility
save_facility-IsLinked ext p fp actor db db' e h =
    let (_, _, e1) = >>=-eq-ok (check_institution p fp.institution_id db) _ e in
    let (_, _, e2) = >>=-eq-ok (require_resolved_contacts db fp.contacts) _ e1 in
    let (saved, s, e3) = >>=-eq-ok _ _ e2 in
    finish-IsLinked facility p fp.name fp.contacts actor saved db' e3 (
      if-eq-ok (is_update p.operation) _ _ s (λ u. update_facility-IsLinked _ _ _ db saved u h)
        (λ i. insert_facility-IsLinked _ _ db saved i h))

save_site-IsLinked :
    (ext : External) (p : Change) (sp : SiteProposal) (actor : ℕ) (db db' : Database)
    → save_site ext p sp actor db ≡ ok db'
    → IsLinked db
    → IsLinked db'
unfolding save_site
save_site-IsLinked ext p sp actor db db' e h =
    let (_, _, e1) = >>=-eq-ok (require_resolved_contacts db sp.contacts) _ e in
    let (parent, n, e2) = >>=-eq-ok (need (facility_id_by_name sp.facility db) _) _ e1 in
    let (saved, s, e3) = >>=-eq-ok _ _ e2 in
    let k = facility_id-has_id sp.facility db (need-eq-ok _ _ n) in
    finish-IsLinked site p sp.name sp.contacts actor saved db' e3 (
      if-eq-ok (is_update p.operation) _ _ s (λ u. update_site-IsLinked _ _ _ _ db saved u k h)
        (λ i. insert_site-IsLinked _ _ _ db saved i k h))

save_group-IsLinked :
    (ext : External) (p : Change) (rp : GroupProposal) (actor : ℕ) (db db' : Database)
    → save_resource_group ext p rp actor db ≡ ok db'
    → IsLinked db
    → IsLinked db'
unfolding save_resource_group
save_group-IsLinked ext p rp actor db db' e h =
    let (_, _, e1) = >>=-eq-ok (require_resolved_contacts db rp.contacts) _ e in
    let (parent, n, e2) = >>=-eq-ok (need (site_id_by_name rp.site db) _) _ e1 in
    let (saved, s, e3) = >>=-eq-ok _ _ e2 in
    let k = site_id-has_id rp.site db (need-eq-ok _ _ n) in
    finish-IsLinked resource_group p rp.name rp.contacts actor saved db' e3 (
      if-eq-ok (is_update p.operation) _ _ s
        (λ u. update_group-IsLinked _ _ _ _ _ _ _ db saved u k h)
        (λ i. insert_group-IsLinked _ _ _ db saved i k h))

delete_facility-IsLinked :
    (p : Change) (actor : ℕ) (db db' : Database)
    → delete_facility p actor db ≡ ok db'
    → IsLinked db
    → IsLinked db'
unfolding delete_facility
delete_facility-IsLinked p actor db db' e h =
    let (_, g, e1) =
      >>=-eq-ok (guard (is_empty (children_of p.target_name db.facilities db.sites)) _) _ e in
    rw (ok-eq _ refl e1)
      (soft_delete_facility-IsLinked p.target_name (some actor) db (guard-eq-ok _ _ g) h)

delete_site-IsLinked :
    (p : Change) (actor : ℕ) (db db' : Database)
    → delete_site p actor db ≡ ok db'
    → IsLinked db
    → IsLinked db'
unfolding delete_site
delete_site-IsLinked p actor db db' e h =
    let (_, g, e1) =
      >>=-eq-ok (guard (is_empty (children_of p.target_name db.sites db.resource_groups)) _) _ e in
    rw (ok-eq _ refl e1)
      (soft_delete_site-IsLinked p.target_name (some actor) db (guard-eq-ok _ _ g) h)

delete_group-IsLinked :
    (p : Change) (actor : ℕ) (db db' : Database)
    → delete_resource_group p actor db ≡ ok db'
    → IsLinked db
    → IsLinked db'
unfolding delete_resource_group
delete_group-IsLinked p actor db db' e h =
    let (_, g, e1) =
      >>=-eq-ok (guard (is_empty (children_of p.target_name db.resource_groups db.resources)) _) _
        e in
    rw (ok-eq _ refl e1)
      (soft_delete_group-IsLinked p.target_name (some actor) db (guard-eq-ok _ _ g) h)

pub apply_facility-IsLinked :
    (ext : External) (p : Change) (actor : ℕ) (db db' : Database)
    → apply_facility ext p actor db ≡ ok db'
    → IsLinked db
    → IsLinked db'
unfolding apply_facility
apply_facility-IsLinked ext p actor db db' e h =
    if-eq-ok (is_delete p.operation) _ _ e (λ d. delete_facility-IsLinked p actor db db' d h)
      (λ s.
        let (fp, _, e1) = >>=-eq-ok (unmarshal ext.decode_facility p.proposed_state) _ s in
        save_facility-IsLinked ext p fp actor db db' e1 h)

pub apply_site-IsLinked :
    (ext : External) (p : Change) (actor : ℕ) (db db' : Database)
    → apply_site ext p actor db ≡ ok db'
    → IsLinked db
    → IsLinked db'
unfolding apply_site
apply_site-IsLinked ext p actor db db' e h =
    if-eq-ok (is_delete p.operation) _ _ e (λ d. delete_site-IsLinked p actor db db' d h)
      (λ s.
        let (sp, _, e1) = >>=-eq-ok (unmarshal ext.decode_site p.proposed_state) _ s in
        save_site-IsLinked ext p sp actor db db' e1 h)

pub apply_group-IsLinked :
    (ext : External) (p : Change) (actor : ℕ) (db db' : Database)
    → apply_resource_group ext p actor db ≡ ok db'
    → IsLinked db
    → IsLinked db'
unfolding apply_resource_group
apply_group-IsLinked ext p actor db db' e h =
    if-eq-ok (is_delete p.operation) _ _ e (λ d. delete_group-IsLinked p actor db db' d h)
      (λ s.
        let (rp, _, e1) = >>=-eq-ok (unmarshal ext.decode_group p.proposed_state) _ s in
        save_group-IsLinked ext p rp actor db db' e1 h)
