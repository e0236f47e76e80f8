-- ===== src/Tests/Feeds.antt =====
-- The theorems on the downtime feed, on four downtimes of one resource.
use topology_v.Base.{
  ℕ, String, Option, none, some, List, [], ◌∷◌, map, str_eq, ◌≡◌, refl, if◌then◌else◌, All,
}
use topology_v.Db.{Database, DowntimeRow, ServiceRow}
use topology_v.External.{External}
use topology_v.Feeds.Listings.{
  FeedPlatform, list_downtimes, list_resource_groups, list_resources, list_resource_services,
}
use topology_v.Feeds.Downtimes.{
  Filters, DowntimeXml, build_downtimes, build_from, expand, place, matching_services, last_named,
  parse_downtime_time,
}
use topology_v.Feeds.Downtimes.Laws.{parts, build_downtimes-parts}
use topology_v.Feeds.Downtimes.Services.{IsShown, build_downtimes-IsShown}
use topology_v.Tests.{ext, db, group_row, resource_row, site_row}

-- Two times parse.
abbrev parse_two : String → Option ℕ
parse_two s =
    if str_eq s "early" then some 100000 else if str_eq s "late" then some 300000 else none

abbrev clock : External
clock = record ext { parse_time = λ l s. parse_two s }

abbrev feed : FeedPlatform
feed = record {
  order_groups = λ rs. rs;
  order_resources = λ rs. rs;
  order_services = λ rs. rs;
  order_downtimes = λ rs. rs;
  service_id_by_name = λ n. none;
  render_time = λ t. "";
}

abbrev outage : ℕ → String → String → List String → DowntimeRow
outage id start end services = record {
  dt_id = id;
  resource_group_id = 3;
  resource_name = "R";
  resource_id = none;
  class = "";
  severity = "";
  description = "";
  start_time = start;
  end_time = end;
  created_time = "";
  services = services;
  ordinal = 0;
  deleted_at = none;
  deleted_by = none;
}

abbrev ce : ServiceRow
ce = record {
  resource_id = 4;
  service_name = "CE";
  description = "A gate";
  details = none;
  ordinal = 0;
}

-- An ended one, one in progress, one ahead, and one of a service that the resource does not have.
abbrev outages : Database
outages = record db {
  sites = site_row ∷ [];
  resource_groups = group_row ∷ [];
  resources = resource_row ∷ [];
  resource_services = ce ∷ [];
  downtimes =
      outage 1 "early" "early" ("CE" ∷ [])
      ∷ outage 2 "early" "late" ("CE" ∷ [])
      ∷ outage 3 "late" "?" ("CE" ∷ [])
      ∷ outage 4 "early" "late" ("SE" ∷ [])
      ∷ [];
}

abbrev two_days : Filters
two_days = record { rg_ids = 44 ∷ []; past_days = some 2 }

abbrev no_days : Filters
no_days = record { rg_ids = []; past_days = some 0 }

abbrev ids : List DowntimeXml → List ℕ
ids = map (λ x. x.id)

feed_of_outages :
    (ids (build_downtimes clock feed two_days 200000 outages).past ≡ 1 ∷ [])
    × (ids (build_downtimes clock feed two_days 200000 outages).current ≡ 2 ∷ [])
    × (ids (build_downtimes clock feed two_days 200000 outages).future ≡ 3 ∷ [])
    × (ids (build_downtimes clock feed no_days 200000 outages).past ≡ [])
unfolding build_downtimes build_from expand place matching_services last_named parse_downtime_time
    list_downtimes list_resource_groups list_resources list_resource_services
feed_of_outages = (refl, refl, refl, refl)

build_downtimes-parts_example :
    build_downtimes clock feed two_days 200000 outages
    ≡ parts clock feed two_days 200000 outages (list_downtimes feed outages)
build_downtimes-parts_example = build_downtimes-parts clock feed two_days 200000 outages

build_downtimes-IsShown_example :
    All (IsShown feed two_days outages) (build_downtimes clock feed two_days 200000 outages).past
    × All
        (IsShown feed two_days outages)
        (build_downtimes clock feed two_days 200000 outages).current
    × All
        (IsShown feed two_days outages)
        (build_downtimes clock feed two_days 200000 outages).future
build_downtimes-IsShown_example = build_downtimes-IsShown clock feed two_days 200000 outages
