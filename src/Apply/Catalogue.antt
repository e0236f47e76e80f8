-- ===== src/Apply/Catalogue.antt =====
-- applyDowntimeProposal and applyProjectProposal (internal/handlers/proposals.go), and
-- applySupportCenterProposal (internal/handlers/support_centers.go).
use topology_v.Base.{
  ℕ, String, Option, none, some, List, [], ◌∷◌, str_eq, not, ◌||◌, length, is_empty, if◌then◌else◌,
}
use topology_v.Base.Results.{ok, err, guard, need, ◌>>=◌, ◌>>◌}
use topology_v.Models.{is_delete, is_update}
use topology_v.Json.{Json, Fields, field, str, get, as_object}
use topology_v.External.{External}
use topology_v.Errors.{
  Result, bad_id, not_found, time_required, bad_time, has_children, name_required, id_in_use,
}
use topology_v.Db.{Database, ProjectFields}
use topology_v.Payloads.{DowntimeProposal, ProjectProposal, SupportCenterProposal}
use topology_v.Queries.Entities.{resource_rg_id}
use topology_v.Queries.Catalogue.{
  update_downtime_by_id, soft_delete_downtime_by_id, insert_downtime, upsert_project,
  update_project_fields, soft_delete_project_by_name, insert_support_center,
  update_support_center_fields, soft_delete_support_center_by_name, groups_using_support_center,
  repoint_resource_group_support_center, support_center_name_by_id,
}
use topology_v.Apply.Change.{Change, unmarshal}
use topology_v.Apply.Hierarchy.{gen_id}
use topology_v.Apply.Resources.{json_or_nil}

-- The layouts that normalizeDowntimeTime tries, in order.
abbrev pub downtime_layouts : List String
downtime_layouts =
    "Jan 02, 2006 15:04 -0700" ∷ "Jan 2, 2006 15:04 -0700" ∷ "2006-01-02T15:04:05Z07:00"
    ∷ "2006-01-02T15:04:05" ∷ "2006-01-02T15:04" ∷ []

unfoldable pub try_layouts : External → List String → String → Result String
try_layouts ext [] s = err (bad_time s)
try_layouts ext (l ∷ ls) s =
    let rest = try_layouts ext ls s in
    elim (ext.parse_time l s) [ none ↦ rest | some t ↦ ok (ext.format_time t) ]

-- normalizeDowntimeTime.
unfoldable pub normalize_downtime_time : External → String → Result String
normalize_downtime_time ext s =
    if str_eq s "" then err time_required else try_layouts ext downtime_layouts s

unfoldable pub save_downtime : External → Change → DowntimeProposal → Database → Result Database
save_downtime ext p dp db = do
  start ← normalize_downtime_time ext dp.start_time
  end_at ← normalize_downtime_time ext dp.end_time
  if is_update p.operation
      then (do
        id ← need (ext.parse_int p.target_name) (bad_id p.target_name)
        ok (
            update_downtime_by_id id dp.class dp.severity dp.description start end_at dp.services
              db))
      else (do
        rg ← need (resource_rg_id dp.resource db) (not_found dp.resource)
        ok (
            insert_downtime
              (record {
                dt_id = ext.unix db.now;
                resource_group_id = rg;
                resource_name = dp.resource;
                resource_id = none;
                class = dp.class;
                severity = dp.severity;
                description = dp.description;
                start_time = start;
                end_time = end_at;
                created_time = ext.format_time db.now;
                services = dp.services;
                ordinal = 0;
                deleted_at = none;
                deleted_by = none;
              })
              db))

-- applyDowntimeProposal.
unfoldable pub apply_downtime : External → Change → ℕ → Database → Result Database
apply_downtime ext p actor db =
    if is_delete p.operation
    then (do
      id ← need (ext.parse_int p.target_name) (bad_id p.target_name)
      ok (soft_delete_downtime_by_id id (some actor) db))
    else unmarshal ext.decode_downtime p.proposed_state >>= λ dp. save_downtime ext p dp db

-- sponsorTypeName: the first key of the block, and its Name where it is an object with one.
abbrev pub name_of : Option Json → String
name_of (some (str s)) = s
name_of _ = ""

abbrev pub sponsor_name : Option Fields → String
sponsor_name none = ""
sponsor_name (some fs) = name_of (get "Name" fs)

unfoldable pub sponsor_type_name : Option Fields → String × String
sponsor_type_name (some (field k v fs)) = (k, sponsor_name (as_object (some v)))
sponsor_type_name _ = ("", "")

-- topology.ProjectIDOrGen.
unfoldable pub project_id_or_gen : External → String → String → String
project_id_or_gen ext id name = if str_eq id "" then ext.format_int (gen_id ext name) else id

abbrev pub project_fields : External → ProjectProposal → ProjectFields
project_fields ext pp = record {
  name = pp.name;
  project_id = project_id_or_gen ext pp.id pp.name;
  description = pp.description;
  department = pp.department;
  field_of_science = pp.field_of_science;
  field_of_science_id = pp.field_of_science_id;
  organization = pp.organization;
  pi_name = pp.pi_name;
  institution_id = pp.institution_id;
  sponsor = json_or_nil pp.sponsor;
  sponsor_type = (sponsor_type_name pp.sponsor).0;
  sponsor_name = (sponsor_type_name pp.sponsor).1;
  extra = json_or_nil pp.extra;
}

-- applyProjectProposal.
unfoldable pub apply_project : External → Change → ℕ → Database → Result Database
apply_project ext p actor db =
    if is_delete p.operation
    then ok (soft_delete_project_by_name p.target_name (some actor) db)
    else unmarshal ext.decode_project p.proposed_state >>= λ pp.
        if is_update p.operation
        then update_project_fields p.target_name (project_fields ext pp) db
        else ok (upsert_project (project_fields ext pp) db)

unfoldable pub update_support_center : Change → SupportCenterProposal → Database → Result Database
update_support_center p sp db = do
  db' ←
      update_support_center_fields p.target_name sp.name sp.long_name sp.community sp.description
        (json_or_nil sp.extra) db
  ok (
      if str_eq sp.name p.target_name
      then db'
      else repoint_resource_group_support_center p.target_name sp.name db')

unfoldable pub create_support_center : External → SupportCenterProposal → Database → Result Database
create_support_center ext sp db =
    let id = gen_id ext sp.name in
    let other = support_center_name_by_id id db in
    do
      guard (str_eq other "" || str_eq other sp.name) (id_in_use id other)
      insert_support_center id sp.name sp.long_name sp.community sp.description
          (json_or_nil sp.extra) db

-- applySupportCenterProposal.
unfoldable pub apply_support_center : External → Change → ℕ → Database → Result Database
apply_support_center ext p actor db =
    if is_delete p.operation
    then (do
      guard (is_empty (groups_using_support_center p.target_name db))
          (has_children (length (groups_using_support_center p.target_name db)))
      ok (soft_delete_support_center_by_name p.target_name (some actor) db))
    else (do
      sp ← unmarshal ext.decode_support_center p.proposed_state
      guard (not (str_eq sp.name "")) name_required
      if is_update p.operation
          then update_support_center p sp db
          else create_support_center ext sp db)
