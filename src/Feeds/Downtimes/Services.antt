-- ===== src/Feeds/Downtimes/Services.antt =====
-- Which groups and services the elements of the feed are of.
use mathlib.Core.Path.{subst}
use mathlib.Core.Option.{some-injective}
use topology_v.Base.{
  ℕ, String, Bool, true, false, ◌||◌, ◌==◌, ◌≡◌, refl, sym, none, some, List, [], ◌∷◌, any,
  is_empty, arith, Bool-cases, inl, inr, if◌then◌else◌, All,
}
use topology_v.Db.{Database, ServiceRow}
use topology_v.External.{External}
use topology_v.Feeds.Listings.{
  Listed, FeedPlatform, list_resource_services, list_downtimes, list_resources,
  list_resource_groups,
}
use topology_v.Feeds.Downtimes.{
  Filters, DowntimeXml, DowntimeService, last_named, matching_services, expand, build_downtimes,
  service_id, unless_empty, downtime_xml, group_of_name, resource_of_name,
}
use topology_v.Feeds.Downtimes.Laws.{elements, build_downtimes-parts}

-- The service is the last one of its name among those offered, with its description there.
pub IsOffered : List ServiceRow → DowntimeService → Type 0
IsOffered offered s =
    (r : ServiceRow) × (last_named (λ o. o.service_name) s.name offered ≡ some r)
    × (s.description ≡ r.description)

-- What the feed promises of an element.
pub record IsShown (fp : FeedPlatform) (f : Filters) (db : Database) (x : DowntimeXml)
    : Type 0 where
  pub of_group : (is_empty f.rg_ids || any (λ i. i == x.group_id) f.rg_ids) ≡ true
  pub with_services : is_empty x.services ≡ false
  pub offered : All (IsOffered (list_resource_services fp x.resource_id db)) x.services

matching_services-IsOffered :
    (ext : External) (fp : FeedPlatform) (offered : List ServiceRow) (ns : List String)
    → All (IsOffered offered) (matching_services ext fp offered ns)
unfolding matching_services IsOffered
matching_services-IsOffered ext fp offered [] = tt
matching_services-IsOffered ext fp offered (n ∷ ns) =
    elim (last_named (λ s. s.service_name) n offered)
        as (λ o.
          (last_named (λ s. s.service_name) n offered ≡ o)
          → All (IsOffered offered) (elim o [
            | none ↦ matching_services ext fp offered ns
            | some s ↦
                record { id = service_id ext fp n; name = n; description = s.description }
                ∷ matching_services ext fp offered ns
          ])) [
            | none ↦ λ e. matching_services-IsOffered ext fp offered ns
            | some s ↦ λ e. ((s, e, refl), matching_services-IsOffered ext fp offered ns)
          ]
      refl

unless_empty-IsShown :
    (ext : External) (fp : FeedPlatform) (f : Filters) (db : Database) (d : Listed)
    (group : String × ℕ) (resource : ℕ × String) (ss : List DowntimeService) {x : DowntimeXml}
    → (is_empty f.rg_ids || any (λ i. i == group.1) f.rg_ids) ≡ true
    → All (IsOffered (list_resource_services fp resource.0 db)) ss
    → unless_empty ss (downtime_xml ext fp group resource ss d) ≡ some x
    → IsShown fp f db x
unless_empty-IsShown ext fp f db d g r [] h o e = cc
unless_empty-IsShown ext fp f db d g r (s ∷ ss) {x} h o e =
    subst (IsShown fp f db) (some-injective _ _ e)
      (record { of_group = h; with_services = refl; offered = o })

expand-IsShown :
    (ext : External) (fp : FeedPlatform) (f : Filters) (db : Database) (d : Listed)
    {x : DowntimeXml}
    → expand ext fp f db d ≡ some x
    → IsShown fp f db x
unfolding expand
expand-IsShown ext fp f db d {x} e =
    let group = group_of_name d.rg_name (list_resource_groups fp db) in
    let resource = resource_of_name d.row.resource_name (list_resources fp db) in
    let offered = list_resource_services fp resource.0 db in
    let services = matching_services ext fp offered d.row.services in
    elim (Bool-cases (is_empty f.rg_ids || any (λ i. i == group.1) f.rg_ids)) [
      | inl h ↦
          unless_empty-IsShown ext fp f db d group resource services h
            (matching_services-IsOffered ext fp offered d.row.services) (ground (arith, h, e))
      | inr h ↦ absurd (ground (arith, h, e))
    ]

elements-IsShown :
    (ext : External) (fp : FeedPlatform) (f : Filters) (now : ℕ) (db : Database) (p : Listed → Bool)
    (ds : List Listed)
    → All (IsShown fp f db) (elements ext fp f now db p ds)
unfolding elements
elements-IsShown ext fp f now db p [] = tt
elements-IsShown ext fp f now db p (d ∷ ds) =
    let rest = elements-IsShown ext fp f now db p ds in
    elim (expand ext fp f db d)
        as (λ o.
          (expand ext fp f db d ≡ o)
          → All (IsShown fp f db) (elim o [
            | none ↦ elements ext fp f now db p ds
            | some x ↦
                if p d then x ∷ elements ext fp f now db p ds else elements ext fp f now db p ds
          ])) [
            | none ↦ λ e. rest
            | some x ↦ λ e.
                elim (p d)
                  as (λ b. All (IsShown fp f db) (
                    if b
                    then x ∷ elements ext fp f now db p ds
                    else elements ext fp f now db p ds)) [
                      | true ↦ (expand-IsShown ext fp f db d e, rest)
                      | false ↦ rest
                    ]
          ]
      refl

-- Every element of the feed, in each of the three parts, is of a group that the filter names where
-- it names any; it has a service, and each of its services is one of its resource's, with the
-- description that the resource gives.
pub build_downtimes-IsShown :
    (ext : External) (fp : FeedPlatform) (f : Filters) (now : ℕ) (db : Database)
    → All (IsShown fp f db) (build_downtimes ext fp f now db).past
      × All (IsShown fp f db) (build_downtimes ext fp f now db).current
      × All (IsShown fp f db) (build_downtimes ext fp f now db).future
build_downtimes-IsShown ext fp f now db =
    subst
      (λ out.
        All (IsShown fp f db) out.past
        × All (IsShown fp f db) out.current
        × All (IsShown fp f db) out.future)
      (sym (build_downtimes-parts ext fp f now db))
      (
        elements-IsShown ext fp f now db _ ds,
        elements-IsShown ext fp f now db _ ds,
        elements-IsShown ext fp f now db _ ds,
      )
  where
    ds : List Listed
    ds = list_downtimes fp db
