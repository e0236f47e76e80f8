-- ===== src/Feeds/Downtimes/Laws.antt =====
-- That the feed's three parts are the downtimes of three tests on their times, in the listing's
-- order, and what is known of the services of each element.
use topology_v.Base.{
  ℕ, Bool, not, ◌&&◌, ◌≡◌, sym, none, some, List, [], ◌∷◌, ◌++◌, append_assoc, append-nil, arith,
  Bool-cases, Option-cases, inl, inr, if◌then◌else◌,
}
use topology_v.Db.{Database}
use topology_v.External.{External}
use topology_v.Feeds.Listings.{Listed, FeedPlatform, list_downtimes}
use topology_v.Feeds.Downtimes.{
  Filters, DowntimeXml, Downtimes, parse_downtime_time, expand, ended, not_begun, too_old, place,
  build_from, build_downtimes,
}

module _ (ext : External) (fp : FeedPlatform) (f : Filters) (now : ℕ) (db : Database) where
  -- The elements of the rows that pass a test, in the rows' order.
  unfoldable pub elements : (Listed → Bool) → List Listed → List DowntimeXml
  elements p [] = []
  elements p (d ∷ ds) =
      let rest = elements p ds in
      elim (expand ext fp f db d) [ none ↦ rest | some x ↦ if p d then x ∷ rest else rest ]

  -- It has an end, before now, and within the days that are asked for.
  abbrev pub is_past : Listed → Bool
  is_past d =
      let end = parse_downtime_time ext d.row.end_time in
      ended now end && not (too_old f.past_days now end)

  -- It has not ended, and has a start, after now.
  abbrev pub is_future : Listed → Bool
  is_future d =
      not (ended now (parse_downtime_time ext d.row.end_time))
      && not_begun now (parse_downtime_time ext d.row.start_time)

  -- It has not ended, nor is its start ahead.
  abbrev pub is_current : Listed → Bool
  is_current d =
      not (ended now (parse_downtime_time ext d.row.end_time))
      && not (not_begun now (parse_downtime_time ext d.row.start_time))

  abbrev pub parts : List Listed → Downtimes
  parts ds = record {
    past = elements is_past ds;
    current = elements is_current ds;
    future = elements is_future ds;
  }

  abbrev append_parts : Downtimes → Downtimes → Downtimes
  append_parts a b = record {
    past = a.past ++ b.past;
    current = a.current ++ b.current;
    future = a.future ++ b.future;
  }

  append_parts-nil : (a : Downtimes) → a ≡ append_parts a (parts [])
  unfolding elements
  append_parts-nil a = λ i. record {
    past = sym (append-nil a.past) i;
    current = sym (append-nil a.current) i;
    future = sym (append-nil a.future) i;
  }

  place-parts :
      (d : Listed) (ds : List Listed) (x : DowntimeXml) (out : Downtimes)
      → expand ext fp f db d ≡ some x
      → append_parts
          (place f now
            (parse_downtime_time ext d.row.start_time)
            (parse_downtime_time ext d.row.end_time)
            x
            out)
          (parts ds)
        ≡ append_parts out (parts (d ∷ ds))
  unfolding elements place
  place-parts d ds x out e =
      elim (Bool-cases (ended now (parse_downtime_time ext d.row.end_time))) [
        | inl p ↦
            elim (Bool-cases (too_old f.past_days now (parse_downtime_time ext d.row.end_time))) [
              | inl o ↦ ground (arith, e, p, o)
              | inr o ↦ grind (arith, e, p, o, append_assoc)
            ]
        | inr p ↦ elim (Bool-cases (not_begun now (parse_downtime_time ext d.row.start_time))) [
          | inl b ↦ grind (arith, e, p, b, append_assoc)
          | inr b ↦ grind (arith, e, p, b, append_assoc)
        ]
      ]

  build_from-parts :
      (ds : List Listed) (out : Downtimes)
      → build_from ext fp f now db ds out ≡ append_parts out (parts ds)
  unfolding build_from elements
  build_from-parts [] out = append_parts-nil out
  build_from-parts (d ∷ ds) out = elim (Option-cases (expand ext fp f db d)) [
    | inl n ↦ ground (arith, n, build_from-parts ds out)
    | inr (x, e) ↦ ground (
      arith,
      e,
      build_from-parts ds (
          place f now (parse_downtime_time ext d.row.start_time)
            (parse_downtime_time ext d.row.end_time) x out),
      place-parts d ds x out e,
    )
  ]

-- The feed is three lists of the elements that expand gives, in the listing's order: those whose end
-- is past, where the days that are asked for reach back to it; those that have not ended and whose
-- start is ahead; and the others, where a time that does not parse is neither past nor ahead. The
-- days bear on the first list alone.
pub build_downtimes-parts :
    (ext : External) (fp : FeedPlatform) (f : Filters) (now : ℕ) (db : Database)
    → build_downtimes ext fp f now db ≡ parts ext fp f now db (list_downtimes fp db)
unfolding build_downtimes
build_downtimes-parts ext fp f now db =
    build_from-parts ext fp f now db (list_downtimes fp db)
      (record { past = []; current = []; future = [] })
