-- ===== src/Queries/Catalogue.antt =====
-- The statements on the tables beside the hierarchy: downtimes (internal/db/queries_browse.go),
-- projects (internal/db/queries_vos.go), support centers (internal/db/queries_support_centers.go)
-- and virtual organisations (internal/db/queries_vo_edit.go).
use topology_v.Base.{
  ℕ, String, Bool, Option, none, some, List, [], ◌∷◌, ◌++◌, ◌==◌, str_eq, any, find?, is_none,
  update_where, select, ◌&&◌, not, if◌then◌else◌,
}
use topology_v.Base.Results.{ok, err}
use topology_v.Errors.{Result, not_found, violation, support_center_exists, vo_exists}
use topology_v.Table.{Row, duplicate_name, is_live}
use topology_v.Json.{Json}
use topology_v.Db.{
  Database, DowntimeRow, ProjectFields, ProjectRow, SupportCenterRow, VoRow, ResourceBody,
  GroupBody,
}

abbrev pub is_downtime_row : ℕ → DowntimeRow → Bool
is_downtime_row id d = is_none d.deleted_at && d.dt_id == id

-- GetDowntimeResourceName.
unfoldable pub get_downtime_resource_name : ℕ → Database → Option String
get_downtime_resource_name id db = elim (find? (is_downtime_row id) db.downtimes) [
  | none ↦ none
  | some d ↦ some d.resource_name
]

-- UpdateDowntimeByID.
unfoldable pub update_downtime_by_id :
    ℕ → String → String → String → String → String → List String → Database → Database
update_downtime_by_id id class severity description start end services db = record db {
  downtimes =
      update_where (is_downtime_row id)
        (λ d. record d {
          class = class;
          severity = severity;
          description = description;
          start_time = start;
          end_time = end;
          services = services;
        })
        db.downtimes;
}

-- SoftDeleteDowntimeByID.
unfoldable pub soft_delete_downtime_by_id : ℕ → Option ℕ → Database → Database
soft_delete_downtime_by_id id by db = record db {
  downtimes =
      update_where (is_downtime_row id)
        (λ d. record d { deleted_at = some db.now; deleted_by = by }) db.downtimes;
}

-- InsertDowntime.
unfoldable pub insert_downtime : DowntimeRow → Database → Database
insert_downtime row db = record db { downtimes = db.downtimes ++ row ∷ [] }

abbrev pub is_project : String → ProjectRow → Bool
is_project name p = is_none p.deleted_at && str_eq p.fields.name name

-- UpsertProject: ON CONFLICT (name) WHERE deleted_at IS NULL DO UPDATE.
unfoldable pub upsert_project : ProjectFields → Database → Database
upsert_project fields db =
    if any (is_project fields.name) db.projects
    then record db {
      projects =
          update_where (is_project fields.name)
            (λ p. record p { fields = fields; updated_at = db.now }) db.projects;
    }
    else record db {
      projects =
          db.projects
          ++ record { fields = fields; updated_at = db.now; deleted_at = none; deleted_by = none }
            ∷ [];
    }

-- UpdateProjectFields.
unfoldable pub update_project_fields : String → ProjectFields → Database → Result Database
update_project_fields target fields db =
    if any (is_project target) db.projects
      && not (str_eq target fields.name)
      && any (is_project fields.name) db.projects
    then err (violation (duplicate_name fields.name))
    else ok (record db {
      projects =
          update_where (is_project target) (λ p. record p { fields = fields; updated_at = db.now })
            db.projects;
    })

-- SoftDeleteProjectByName.
unfoldable pub soft_delete_project_by_name : String → Option ℕ → Database → Database
soft_delete_project_by_name name by db = record db {
  projects =
      update_where (is_project name) (λ p. record p { deleted_at = some db.now; deleted_by = by })
        db.projects;
}

abbrev pub is_support_center : String → SupportCenterRow → Bool
is_support_center name s = is_none s.deleted_at && str_eq s.name name

-- InsertSupportCenter: a deleted row of the same id is revived in place, and a live row of the same
-- id is overwritten too; a live name is an error.
unfoldable pub insert_support_center :
    ℕ → String → String → String → String → Option Json → Database → Result Database
insert_support_center id name long community description extra db =
    let row : SupportCenterRow = record {
      id = id;
      name = name;
      long_name = long;
      community = community;
      description = description;
      extra = extra;
      updated_at = db.now;
      deleted_at = none;
      deleted_by = none;
    } in
    if any (is_support_center name) db.support_centers
    then err support_center_exists
    else if any (λ s. s.id == id) db.support_centers
    then ok (record db {
      support_centers = update_where (λ s. s.id == id) (λ _. row) db.support_centers;
    })
    else ok (record db { support_centers = db.support_centers ++ row ∷ [] })

-- UpdateSupportCenterFields: the id stays; no row is an error here.
unfoldable pub update_support_center_fields :
    String → String → String → String → String → Option Json → Database → Result Database
update_support_center_fields target name long community description extra db =
    if any (is_support_center target) db.support_centers
      && not (str_eq target name)
      && any (is_support_center name) db.support_centers
    then err (violation (duplicate_name name))
    else if any (is_support_center target) db.support_centers
    then ok (record db {
      support_centers =
          update_where (is_support_center target)
            (λ s. record s {
              name = name;
              long_name = long;
              community = community;
              description = description;
              extra = extra;
              updated_at = db.now;
            })
            db.support_centers;
    })
    else err (not_found target)

-- SoftDeleteSupportCenterByName.
unfoldable pub soft_delete_support_center_by_name : String → Option ℕ → Database → Database
soft_delete_support_center_by_name name by db = record db {
  support_centers =
      update_where (is_support_center name)
        (λ s. record s { deleted_at = some db.now; deleted_by = by }) db.support_centers;
}

-- `support_center = $1`: a group without one holds NULL, which equals no text.
abbrev pub uses_support_center : String → Row ℕ GroupBody → Bool
uses_support_center name g = is_live g && not (str_eq name "") && str_eq g.body.support_center name

-- RGNamesUsingSupportCenter, as the groups.
unfoldable pub groups_using_support_center : String → Database → List (Row ℕ GroupBody)
groups_using_support_center name db = select (uses_support_center name) db.resource_groups

-- RepointResourceGroupSupportCenter.
unfoldable pub repoint_resource_group_support_center : String → String → Database → Database
repoint_resource_group_support_center old new db = record db {
  resource_groups =
      update_where (uses_support_center old)
        (λ g. record g { body = record (g.body) { support_center = new }; updated_at = db.now })
        db.resource_groups;
}

-- SupportCenterNameByID: "" where there is none.
unfoldable pub support_center_name_by_id : ℕ → Database → String
support_center_name_by_id id db =
    elim (find? (λ s. is_none s.deleted_at && s.id == id) db.support_centers) [
      | none ↦ ""
      | some s ↦ s.name
    ]

abbrev pub is_vo : String → VoRow → Bool
is_vo name v = is_none v.deleted_at && str_eq v.name name

-- GetVO.
unfoldable pub get_vo : String → Database → Option VoRow
get_vo name db = find? (is_vo name) db.vos

-- InsertVO.
unfoldable pub insert_vo : String → ℕ → Bool → String → Database → Result Database
insert_vo name id disable raw db =
    if any (is_vo name) db.vos
    then err vo_exists
    else ok (record db {
      vos =
          db.vos
          ++ record {
            name = name;
            vo_id = id;
            disable = disable;
            raw = raw;
            updated_at = db.now;
            deleted_at = none;
            deleted_by = none;
          }
            ∷ [];
    })

-- UpdateVOFields: no row is an error.
unfoldable pub update_vo_fields : String → ℕ → Bool → String → Database → Result Database
update_vo_fields name id disable raw db =
    if any (is_vo name) db.vos
    then ok (record db {
      vos =
          update_where (is_vo name)
            (λ v. record v { vo_id = id; disable = disable; raw = raw; updated_at = db.now })
            db.vos;
    })
    else err (not_found name)

-- SoftDeleteVOByName.
unfoldable pub soft_delete_vo_by_name : String → Option ℕ → Database → Database
soft_delete_vo_by_name name by db = record db {
  vos =
      update_where (is_vo name) (λ v. record v { deleted_at = some db.now; deleted_by = by })
        db.vos;
}

-- ResourceNamesAllowingVO, as the resources.
unfoldable pub resources_allowing_vo : String → Database → List (Row ℕ ResourceBody)
resources_allowing_vo name db =
    select (λ r. is_live r && any (λ v. str_eq v name) r.body.allowed_vos) db.resources

-- ProjectNamesSponsoredByVO, as the projects.
unfoldable pub projects_sponsored_by_vo : String → Database → List ProjectRow
projects_sponsored_by_vo name db =
    select
      (λ p.
        is_none p.deleted_at
        && str_eq p.fields.sponsor_type "VirtualOrganization"
        && not (str_eq name "")
        && str_eq p.fields.sponsor_name name)
      db.projects
