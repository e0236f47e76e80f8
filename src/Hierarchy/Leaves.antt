-- ===== src/Hierarchy/Leaves.antt =====
-- The proposals on downtimes, projects, support centers and virtual organisations
-- (internal/handlers) on the hierarchy.
use topology_v.Base.{
  ℕ, String, Bool, Option, some, ◌≡◌, refl, arith, Bool-cases, inl, inr, is_empty, length, not,
  str_eq, ◌||◌,
}
use topology_v.Base.Results.{ok, need, guard, ◌>>◌, >>=-eq-ok, if-eq-ok}
use topology_v.External.{External}
use topology_v.Json.{Json, Fields, end, get, map_from_json}
use topology_v.Errors.{
  has_children, bad_vo_document, bad_vo_name, name_required, name_is_fixed, not_found,
}
use topology_v.Models.{is_update, is_delete}
use topology_v.Payloads.{DowntimeProposal, SupportCenterProposal, VoProposal}
use topology_v.Table.Links.{Linked-update_where, Linked-parents, any-update_where}
use topology_v.Db.{Database, VoRow}
use topology_v.Apply.Change.{Change, unmarshal}
use topology_v.Apply.Catalogue.{
  save_downtime, apply_downtime, apply_project, update_support_center, create_support_center,
  apply_support_center,
}
use topology_v.Apply.Hierarchy.{gen_id}
use topology_v.Apply.Resources.{json_or_nil}
use topology_v.Apply.Vos.{
  check_vo_doc, keep_id, is_vo_name, stored_document, current_vo, update_vo, create_vo, save_vo,
  delete_vo, apply_vo,
}
use topology_v.Queries.Catalogue.{
  update_downtime_by_id, soft_delete_downtime_by_id, insert_downtime, upsert_project,
  update_project_fields, soft_delete_project_by_name, insert_support_center,
  update_support_center_fields, soft_delete_support_center_by_name, uses_support_center,
  support_center_name_by_id, groups_using_support_center, repoint_resource_group_support_center,
  insert_vo, update_vo_fields, soft_delete_vo_by_name,
}
use topology_v.Hierarchy.{IsLinked, SameTables}
use topology_v.Hierarchy.Frame.{SameTables-IsLinked, IsLinked-ok}

save_downtime-SameTables :
    (ext : External) (p : Change) (dp : DowntimeProposal) (db db' : Database)
    → save_downtime ext p dp db ≡ ok db'
    → SameTables db db'
unfolding save_downtime update_downtime_by_id insert_downtime
save_downtime-SameTables ext p dp db db' e = ground arith

pub apply_downtime-SameTables :
    (ext : External) (p : Change) (actor : ℕ) (db db' : Database)
    → apply_downtime ext p actor db ≡ ok db'
    → SameTables db db'
unfolding apply_downtime soft_delete_downtime_by_id
apply_downtime-SameTables ext p actor db db' e =
    if-eq-ok (is_delete p.operation) _ _ e (λ d. ground arith)
      (λ s.
        let (dp, _, e1) = >>=-eq-ok (unmarshal ext.decode_downtime p.proposed_state) _ s in
        save_downtime-SameTables ext p dp db db' e1)

pub apply_project-SameTables :
    (ext : External) (p : Change) (actor : ℕ) (db db' : Database)
    → apply_project ext p actor db ≡ ok db'
    → SameTables db db'
unfolding apply_project soft_delete_project_by_name update_project_fields upsert_project
apply_project-SameTables ext p actor db db' e = ground arith

insert_support_center-SameTables :
    (id : ℕ) (name long community about : String) (extra : Option Json) (db db' : Database)
    → insert_support_center id name long community about extra db ≡ ok db'
    → SameTables db db'
unfolding insert_support_center
insert_support_center-SameTables id name long community about extra db db' e = ground arith

create_support_center-SameTables :
    (ext : External) (sp : SupportCenterProposal) (db db' : Database)
    → create_support_center ext sp db ≡ ok db'
    → SameTables db db'
unfolding create_support_center
create_support_center-SameTables ext sp db db' e =
    let other = support_center_name_by_id (gen_id ext sp.name) db in
    let (_, _, e1) = >>=-eq-ok (guard (str_eq other "" || str_eq other sp.name) _) _ e in
    insert_support_center-SameTables _ _ _ _ _ _ db db' e1

update_support_center_fields-SameTables :
    (target name long community about : String) (extra : Option Json) (db db' : Database)
    → update_support_center_fields target name long community about extra db ≡ ok db'
    → SameTables db db'
unfolding update_support_center_fields
update_support_center_fields-SameTables target name long community about extra db db' e =
    ground arith

-- A rename of a support center rewrites the groups' bodies, and keeps their ids and parents.
repoint_support_center-IsLinked :
    (old new : String) (db : Database)
    → IsLinked db
    → IsLinked (repoint_resource_group_support_center old new db)
unfolding repoint_resource_group_support_center
repoint_support_center-IsLinked old new db h = record {
  sites = h.sites;
  groups =
      Linked-update_where db.sites (uses_support_center old) _ db.resource_groups (λ c l. l)
        h.groups;
  resources =
      Linked-parents db.resource_groups
        (repoint_resource_group_support_center old new db).resource_groups db.resources
        (λ i a.
          rw
            (any-update_where i (uses_support_center old)
              (λ g. record g {
                body = record (g.body) { support_center = new };
                updated_at = db.now;
              })
              db.resource_groups (λ r. refl))
            a)
        h.resources;
}

update_support_center-IsLinked :
    (p : Change) (sp : SupportCenterProposal) (db db' : Database)
    → update_support_center p sp db ≡ ok db'
    → IsLinked db
    → IsLinked db'
unfolding update_support_center
update_support_center-IsLinked p sp db db' e h =
    let (mid, m, e1) =
      >>=-eq-ok
        (update_support_center_fields p.target_name sp.name sp.long_name sp.community sp.description
          (json_or_nil sp.extra) db)
        _ e in
    let l =
      SameTables-IsLinked db mid (update_support_center_fields-SameTables _ _ _ _ _ _ db mid m) h in
    let r = repoint_support_center-IsLinked p.target_name sp.name mid l in
    elim (Bool-cases (str_eq sp.name p.target_name)) [
      | inl t ↦ IsLinked-ok mid db' _ refl (ground (arith, e1, t)) l
      | inr t ↦
          IsLinked-ok (repoint_resource_group_support_center p.target_name sp.name mid) db' _ refl
            (ground (arith, e1, t)) r
    ]

delete_support_center-SameTables :
    (p : Change) (actor : ℕ) (db db' : Database)
    → (guard
          (is_empty (groups_using_support_center p.target_name db))
          (has_children (length (groups_using_support_center p.target_name db)))
        >> ok (soft_delete_support_center_by_name p.target_name (some actor) db))
      ≡ ok db'
    → SameTables db db'
unfolding soft_delete_support_center_by_name
delete_support_center-SameTables p actor db db' e = ground arith

pub apply_support_center-IsLinked :
    (ext : External) (p : Change) (actor : ℕ) (db db' : Database)
    → apply_support_center ext p actor db ≡ ok db'
    → IsLinked db
    → IsLinked db'
unfolding apply_support_center
apply_support_center-IsLinked ext p actor db db' e h =
    if-eq-ok (is_delete p.operation) _ _ e
      (λ d. SameTables-IsLinked db db' (delete_support_center-SameTables p actor db db' d) h)
      (λ s.
        let (sp, _, e1) = >>=-eq-ok (unmarshal ext.decode_support_center p.proposed_state) _ s in
        let (_, _, e2) = >>=-eq-ok (guard (not (str_eq sp.name "")) _) _ e1 in
        if-eq-ok (is_update p.operation) _ _ e2
          (λ u. update_support_center-IsLinked p sp db db' u h)
          (λ c. SameTables-IsLinked db db' (create_support_center-SameTables ext sp db db' c) h))

insert_vo-SameTables :
    (name : String) (id : ℕ) (disable : Bool) (raw : String) (db db' : Database)
    → insert_vo name id disable raw db ≡ ok db'
    → SameTables db db'
unfolding insert_vo
insert_vo-SameTables name id disable raw db db' e = ground arith

update_vo_fields-SameTables :
    (name : String) (id : ℕ) (disable : Bool) (raw : String) (db db' : Database)
    → update_vo_fields name id disable raw db ≡ ok db'
    → SameTables db db'
unfolding update_vo_fields
update_vo_fields-SameTables name id disable raw db db' e = ground arith

update_vo-SameTables :
    (ext : External) (p : Change) (name : String) (doc : Fields) (cur : VoRow) (old : Fields)
    (db db' : Database)
    → update_vo ext p name doc cur old db ≡ ok db'
    → SameTables db db'
unfolding update_vo
update_vo-SameTables ext p name doc cur old db db' e =
    let (checked, _, e1) =
      >>=-eq-ok (check_vo_doc ext db name (keep_id (get "ID" old) doc) old) _ e in
    let (raw, _, e2) = >>=-eq-ok (need (ext.patch_vo cur.raw checked) bad_vo_document) _ e1 in
    update_vo_fields-SameTables _ _ _ _ db db' e2

create_vo-SameTables :
    (ext : External) (name : String) (doc : Fields) (db db' : Database)
    → create_vo ext name doc db ≡ ok db'
    → SameTables db db'
unfolding create_vo
create_vo-SameTables ext name doc db db' e =
    let (_, _, e1) = >>=-eq-ok (guard (is_vo_name name) (bad_vo_name name)) _ e in
    let (checked, _, e2) = >>=-eq-ok (check_vo_doc ext db name doc end) _ e1 in
    let (raw, _, e3) = >>=-eq-ok (need (ext.new_vo checked) bad_vo_document) _ e2 in
    insert_vo-SameTables _ _ _ _ db db' e3

save_vo-SameTables :
    (ext : External) (p : Change) (vp : VoProposal) (db db' : Database)
    → save_vo ext p vp db ≡ ok db'
    → SameTables db db'
unfolding save_vo
save_vo-SameTables ext p vp db db' e =
    let (_, _, e1) = >>=-eq-ok (guard (not (str_eq vp.name "")) name_required) _ e in
    let (doc, _, e2) = >>=-eq-ok (need (map_from_json ext.number vp.vo) bad_vo_document) _ e1 in
    let (old, _, e3) = >>=-eq-ok (stored_document ext (current_vo p db)) _ e2 in
    if-eq-ok (is_update p.operation) _ _ e3
      (λ u.
        let (_, _, e4) = >>=-eq-ok (guard (str_eq vp.name p.target_name) name_is_fixed) _ u in
        let (cur, _, e5) = >>=-eq-ok (need (current_vo p db) (not_found p.target_name)) _ e4 in
        update_vo-SameTables ext p _ _ cur _ db db' e5)
      (λ c. create_vo-SameTables ext _ _ db db' c)

delete_vo-SameTables :
    (ext : External) (name : String) (actor : ℕ) (db db' : Database)
    → delete_vo ext name actor db ≡ ok db'
    → SameTables db db'
unfolding delete_vo soft_delete_vo_by_name
delete_vo-SameTables ext name actor db db' e = ground arith

pub apply_vo-SameTables :
    (ext : External) (p : Change) (actor : ℕ) (db db' : Database)
    → apply_vo ext p actor db ≡ ok db'
    → SameTables db db'
unfolding apply_vo
apply_vo-SameTables ext p actor db db' e =
    if-eq-ok (is_delete p.operation) _ _ e
      (λ d. delete_vo-SameTables ext p.target_name actor db db' d)
      (λ s.
        let (vp, _, e1) = >>=-eq-ok (unmarshal ext.decode_vo p.proposed_state) _ s in
        save_vo-SameTables ext p vp db db' e1)
