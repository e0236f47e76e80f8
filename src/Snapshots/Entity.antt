-- ===== src/Snapshots/Entity.antt =====
-- snapshotEntity (internal/handlers/proposal_snapshots.go).
use topology_v.Base.{String, Option, none}
use topology_v.Models.{Kind, resource, resource_group, site, facility, project, support_center, vo}
use topology_v.Json.{Json}
use topology_v.External.{External}
use topology_v.Db.{Database}
use topology_v.Snapshots.{
  snapshot_facility, snapshot_site, snapshot_resource_group, snapshot_support_center,
  snapshot_project, snapshot_vo,
}
use topology_v.Snapshots.Resources.{snapshot_resource}

-- No snapshot for a downtime, a bundle and an unknown kind.
unfoldable pub snapshot_entity : External → Database → Kind → String → Option Json
snapshot_entity ext db resource name = snapshot_resource ext db name
snapshot_entity ext db resource_group name = snapshot_resource_group ext db name
snapshot_entity ext db site name = snapshot_site ext db name
snapshot_entity ext db facility name = snapshot_facility ext db name
snapshot_entity ext db project name = snapshot_project ext db name
snapshot_entity ext db support_center name = snapshot_support_center ext db name
snapshot_entity ext db vo name = snapshot_vo ext db name
snapshot_entity ext db _ name = none
