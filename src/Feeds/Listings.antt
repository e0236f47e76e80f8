-- ===== src/Feeds/Listings.antt =====
-- The listing statements that the downtime feed runs (internal/db/queries_topology.go). What ORDER
-- BY does under the database's collation is a parameter, and so is the table of services, which no
-- modelled operation writes.
use topology_v.Base.{ℕ, String, Option, none, some, List, [], ◌∷◌, ◌==◌, is_none, select, find?}
use topology_v.Table.{Row, is_live}
use topology_v.Db.{Database, GroupBody, ResourceBody, ServiceRow, DowntimeRow}

-- A row of ListDowntimes: the group's name, and the downtime.
pub record Listed : Type 0 where
  pub rg_name : String
  pub row : DowntimeRow

pub record FeedPlatform : Type 0 where
  pub order_groups : List (Row ℕ GroupBody) → List (Row ℕ GroupBody)
  pub order_resources : List (Row ℕ ResourceBody) → List (Row ℕ ResourceBody)
  pub order_services : List ServiceRow → List ServiceRow
  pub order_downtimes : List Listed → List Listed
  -- SELECT id FROM services WHERE name = $1.
  pub service_id_by_name : String → Option ℕ
  -- t.UTC().Format of the feed's layout.
  pub render_time : ℕ → String

-- The rows of a JOIN that have a partner in the other table.
abbrev joined_to :
    {K B L C : Type 0} → (Row K B → ℕ) → List (Row L C) → List (Row K B) → List (Row K B)
joined_to key others [] = []
joined_to key others (r ∷ rs) =
    let rest = joined_to key others rs in
    elim (find? (λ o. o.id == key r) others) [ none ↦ rest | some o ↦ r ∷ rest ]

-- ListResourceGroups.
unfoldable pub list_resource_groups : FeedPlatform → Database → List (Row ℕ GroupBody)
list_resource_groups fp db =
    fp.order_groups (joined_to (λ r. r.parent) db.sites (select is_live db.resource_groups))

-- ListResources.
unfoldable pub list_resources : FeedPlatform → Database → List (Row ℕ ResourceBody)
list_resources fp db =
    fp.order_resources (joined_to (λ r. r.parent) db.resource_groups (select is_live db.resources))

-- ListResourceServices.
unfoldable pub list_resource_services : FeedPlatform → ℕ → Database → List ServiceRow
list_resource_services fp id db =
    fp.order_services (select (λ s. s.resource_id == id) db.resource_services)

abbrev with_group : List (Row ℕ GroupBody) → List DowntimeRow → List Listed
with_group groups [] = []
with_group groups (d ∷ ds) =
    let rest = with_group groups ds in
    elim (find? (λ g. g.id == d.resource_group_id) groups) [
      | none ↦ rest
      | some g ↦ record { rg_name = g.name; row = d } ∷ rest
    ]

-- ListDowntimes.
unfoldable pub list_downtimes : FeedPlatform → Database → List Listed
list_downtimes fp db =
    fp.order_downtimes
      (with_group db.resource_groups (select (λ d. is_none d.deleted_at) db.downtimes))
