-- ===== src/Feeds/Downtimes.antt =====
-- internal/xmlapi/rgdowntime.go: the downtime feed, in three parts by the time of the request. Times
-- are in seconds; a downtime's times are stored as text, and may not parse.
pub mod Laws
pub mod Services
use topology_v.Base.{
  ℕ, ◌-◌, ◌*◌, String, Bool, false, not, ◌&&◌, Option, none, some, List, [], ◌∷◌, ◌++◌, ◌==◌,
  str_eq, ltb, any, is_empty, if◌then◌else◌,
}
use topology_v.Table.{Row}
use topology_v.Db.{Database, GroupBody, ResourceBody, ServiceRow}
use topology_v.External.{External}
use topology_v.Apply.Hierarchy.{gen_id}
use topology_v.Feeds.Listings.{
  Listed, FeedPlatform, list_resource_groups, list_resources, list_resource_services,
  list_downtimes,
}

-- The two filters of the feed: the ids of the groups, and PastDays, `none` where it is negative.
pub record Filters : Type 0 where
  pub rg_ids : List ℕ
  pub past_days : Option ℕ

pub record DowntimeService : Type 0 where
  pub id : ℕ
  pub name : String
  pub description : String

pub record DowntimeXml : Type 0 where
  pub id : ℕ
  pub resource_id : ℕ
  pub group_name : String
  pub group_id : ℕ
  pub resource_name : String
  pub resource_fqdn : String
  pub start_time : String
  pub end_time : String
  pub class : String
  pub severity : String
  pub created_time : String
  pub update_time : String
  pub services : List DowntimeService
  pub description : String

pub record Downtimes : Type 0 where
  pub past : List DowntimeXml
  pub current : List DowntimeXml
  pub future : List DowntimeXml

abbrev feed_layouts : List String
feed_layouts =
    "Jan 02, 2006 15:04 -0700" ∷ "Jan 2, 2006 15:04 -0700" ∷ "Jan 02, 2006 15:04 MST" ∷ []

abbrev first_parse : External → List String → String → Option ℕ
first_parse ext [] s = none
first_parse ext (l ∷ ls) s =
    let rest = first_parse ext ls s in elim (ext.parse_time l s) [ none ↦ rest | some t ↦ some t ]

unfoldable pub parse_downtime_time : External → String → Option ℕ
parse_downtime_time ext s = first_parse ext feed_layouts s

-- formatDowntimeTimeOrRaw.
abbrev format_or_raw : FeedPlatform → Option ℕ → String → String
format_or_raw fp none raw = raw
format_or_raw fp (some t) raw = fp.render_time t

abbrev format_created_time : External → FeedPlatform → String → String
format_created_time ext fp raw =
    if str_eq raw "" then "Not Available" else format_or_raw fp (parse_downtime_time ext raw) raw

-- A map by name that a loop fills: the last row of a name stays.
unfoldable pub last_named : {A : Type 0} → (A → String) → String → List A → Option A
last_named name n [] = none
last_named name n (x ∷ xs) = elim (last_named name n xs) [
  | none ↦ if str_eq (name x) n then some x else none
  | some y ↦ some y
]

-- The group that rgByName gives; the zero row has no name and the id 0.
abbrev group_of_name : String → List (Row ℕ GroupBody) → String × ℕ
group_of_name n groups = elim (last_named (λ g. g.name) n groups) [
  | none ↦ ("", 0)
  | some g ↦ (g.name, g.body.group_id)
]

-- The id and the FQDN of the resource that resByName gives.
abbrev resource_of_name : String → List (Row ℕ ResourceBody) → ℕ × String
resource_of_name n resources = elim (last_named (λ r. r.name) n resources) [
  | none ↦ (0, "")
  | some r ↦ (r.id, r.body.fqdn)
]

abbrev service_id : External → FeedPlatform → String → ℕ
service_id ext fp name = elim (fp.service_id_by_name name) [ none ↦ gen_id ext name | some id ↦ id ]

-- The services of the downtime that are services of the resource, with the resource's description.
unfoldable pub matching_services :
    External → FeedPlatform → List ServiceRow → List String → List DowntimeService
matching_services ext fp offered [] = []
matching_services ext fp offered (n ∷ ns) =
    let rest = matching_services ext fp offered ns in
    elim (last_named (λ s. s.service_name) n offered) [
      | none ↦ rest
      | some s ↦ record { id = service_id ext fp n; name = n; description = s.description } ∷ rest
    ]

abbrev downtime_xml :
    External → FeedPlatform → String × ℕ → ℕ × String → List DowntimeService → Listed → DowntimeXml
downtime_xml ext fp (group, group_id) (resource_id, fqdn) services d = record {
  id = d.row.dt_id;
  resource_id = resource_id;
  group_name = group;
  group_id = group_id;
  resource_name = d.row.resource_name;
  resource_fqdn = fqdn;
  start_time = format_or_raw fp (parse_downtime_time ext d.row.start_time) d.row.start_time;
  end_time = format_or_raw fp (parse_downtime_time ext d.row.end_time) d.row.end_time;
  class = d.row.class;
  severity = d.row.severity;
  created_time = format_created_time ext fp d.row.created_time;
  update_time = "Not Available";
  services = services;
  description = d.row.description;
}

abbrev unless_empty : List DowntimeService → DowntimeXml → Option DowntimeXml
unless_empty [] x = none
unless_empty (s ∷ ss) x = some x

-- The element of a row, unless the filter or the lack of services leaves it out.
unfoldable pub expand : External → FeedPlatform → Filters → Database → Listed → Option DowntimeXml
expand ext fp f db d =
    let group = group_of_name d.rg_name (list_resource_groups fp db) in
    let resource = resource_of_name d.row.resource_name (list_resources fp db) in
    let offered = list_resource_services fp resource.0 db in
    let services = matching_services ext fp offered d.row.services in
    if not (is_empty f.rg_ids) && not (any (λ i. i == group.1) f.rg_ids)
    then none
    else unless_empty services (downtime_xml ext fp group resource services d)

abbrev ended : ℕ → Option ℕ → Bool
ended now none = false
ended now (some e) = ltb e now

abbrev not_begun : ℕ → Option ℕ → Bool
not_begun now none = false
not_begun now (some s) = ltb now s

-- The test of PastDays that skips an old downtime.
abbrev too_old : Option ℕ → ℕ → Option ℕ → Bool
too_old none now e = false
too_old (some days) now none = false
too_old (some days) now (some e) = ltb (days * 86400) (now - e)

-- The switch at the end of the loop.
unfoldable pub place : Filters → ℕ → Option ℕ → Option ℕ → DowntimeXml → Downtimes → Downtimes
place f now start end x out =
    if ended now end
    then if too_old f.past_days now end then out else record out { past = out.past ++ x ∷ [] }
    else if not_begun now start
    then record out { future = out.future ++ x ∷ [] }
    else record out { current = out.current ++ x ∷ [] }

unfoldable pub build_from :
    External → FeedPlatform → Filters → ℕ → Database → List Listed → Downtimes → Downtimes
build_from ext fp f now db [] out = out
build_from ext fp f now db (d ∷ ds) out =
    let start = parse_downtime_time ext d.row.start_time in
    let end = parse_downtime_time ext d.row.end_time in
    build_from ext fp f now db ds
      (elim (expand ext fp f db d) [ none ↦ out | some x ↦ place f now start end x out ])

-- BuildDowntimes.
unfoldable pub build_downtimes : External → FeedPlatform → Filters → ℕ → Database → Downtimes
build_downtimes ext fp f now db =
    build_from ext fp f now db (list_downtimes fp db)
      (record { past = []; current = []; future = [] })
