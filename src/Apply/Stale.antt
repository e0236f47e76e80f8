-- ===== src/Apply/Stale.antt =====
-- internal/handlers/proposal_stale.go: the time of the last change of a live entity.
use topology_v.Base.{ℕ, String, Option, none, some, ◌==◌, str_eq, any, find?, List, if◌then◌else◌}
use topology_v.Models.{Kind, resource, resource_group, site, facility, project, support_center, vo}
use topology_v.External.{External}
use topology_v.Table.{Row, by_name, by_id}
use topology_v.Db.{Database}
use topology_v.Queries.Catalogue.{get_vo, is_support_center, is_project}

abbrev pub row_time : {K B : Type 0} → Option (Row K B) → Option ℕ
row_time none = none
row_time (some r) = some r.updated_at

-- GetSiteRow and its siblings join with the parent, deleted or not; the row is found only with it.
abbrev pub joined : {K C B : Type 0} → List (Row K B) → Option (Row ℕ C) → Option (Row ℕ C)
joined parents none = none
joined parents (some r) = if any (λ p. p.id == r.parent) parents then some r else none

-- entityUpdatedAt: none for the kinds with no snapshot and where the row is gone.
unfoldable pub entity_updated_at : External → Kind → String → Database → Option ℕ
entity_updated_at ext kind name db = if str_eq name "" then none else elim kind [
  | facility ↦ row_time (by_name name db.facilities)
  | site ↦ row_time (joined db.facilities (by_name name db.sites))
  | resource_group ↦ row_time (joined db.sites (by_name name db.resource_groups))
  | resource ↦ elim (ext.parse_int name) [
    | none ↦ none
    | some id ↦ row_time (joined db.resource_groups (by_id id db.resources))
  ]
  | vo ↦ elim (get_vo name db) [ none ↦ none | some v ↦ some v.updated_at ]
  | support_center ↦ elim (find? (is_support_center name) db.support_centers) [
    | none ↦ none
    | some s ↦ some s.updated_at
  ]
  | project ↦ elim (find? (is_project name) db.projects) [
    | none ↦ none
    | some p ↦ some p.updated_at
  ]
  | _ ↦ none
]
