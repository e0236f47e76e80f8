-- ===== src/Hierarchy.antt =====
-- The hierarchy facility ← site ← resource group ← resource: that every live row has a live parent,
-- which the deletes of internal/handlers/proposals.go guard.
pub mod Frame
pub mod Entities
pub mod Apply
pub mod Resources
pub mod Leaves
pub mod Approval
pub mod Requests
use topology_v.Base.{ℕ, Bool, ◌≡◌}
use topology_v.Db.{Database}
use topology_v.Table.Links.{Linked}

-- Every live site has a live facility, every live resource group a live site, and every live
-- resource a live resource group.
pub record IsLinked (db : Database) : Type 0 where
  pub sites : Linked db.facilities db.sites
  pub groups : Linked db.sites db.resource_groups
  pub resources : Linked db.resource_groups db.resources

-- The four tables are as they were.
pub record SameTables (db db' : Database) : Type 0 where
  pub facilities : db'.facilities ≡ db.facilities
  pub sites : db'.sites ≡ db.sites
  pub groups : db'.resource_groups ≡ db.resource_groups
  pub resources : db'.resources ≡ db.resources
