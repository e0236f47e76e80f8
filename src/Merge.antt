-- ===== src/Merge.antt =====
-- internal/handlers/proposal_snapshots.go: how a submission is merged onto the state that it
-- edits, so that a key which the editor does not mention stays as it was.
pub mod Laws
use topology_v.Base.{String, Option, none, some, is_none, if◌then◌else◌}
use topology_v.Models.{Kind, resource, vo}
use topology_v.Json.{Json, null, obj, Fields, end, field, get, put, has, as_object, map_from_json}

-- mergeShallow. Go ranges over a map in no fixed order, and here the last entry is written first.
unfoldable pub merge_shallow : Fields → Fields → Fields
merge_shallow current end = current
merge_shallow current (field k v incoming) = put k v (merge_shallow current incoming)

-- One entry of mergeServiceEntries: an object on both sides is merged, else the incoming stands.
abbrev pub merge_service : Option Fields → Json → Json
merge_service (some base) (obj incoming) = obj (merge_shallow base incoming)
merge_service _ incoming = incoming

-- The loop of mergeServiceEntries over the incoming names.
unfoldable pub merge_entries : Fields → Fields → Fields
merge_entries base end = end
merge_entries base (field name svc incoming) =
    field name (merge_service (as_object (get name base)) svc) (merge_entries base incoming)

-- mergeServiceEntries.
unfoldable pub merge_service_entries : Option Json → Json → Json
unfolding merge_entries
merge_service_entries (some (obj base)) (obj incoming) = obj (merge_entries base incoming)
merge_service_entries _ incoming = incoming

-- `mergedInner["Services"] = …`, only where the incoming resource has the key.
abbrev pub set_services : Option Json → Option Json → Fields → Fields
set_services base none inner = inner
set_services base (some incoming) inner = put "Services" (merge_service_entries base incoming) inner

-- The merged "resource" object.
unfoldable pub merge_resource : Fields → Fields → Fields
merge_resource base incoming =
    set_services (get "Services" base) (get "Services" incoming) (merge_shallow base incoming)

-- `merged[key] = …` where the key holds an object on both sides.
abbrev pub merge_under :
    String → (Fields → Fields → Fields) → Option Fields → Option Fields → Fields → Fields
merge_under k merge (some base) (some incoming) merged = put k (obj (merge base incoming)) merged
merge_under k merge _ _ merged = merged

-- The two decoded objects of mergeProposedState, merged.
unfoldable pub merge_fields : Kind → Fields → Fields → Fields
unfolding merge_resource merge_shallow
merge_fields resource base incoming =
    merge_under "resource" merge_resource (as_object (get "resource" base))
      (as_object (get "resource" incoming)) (merge_shallow base incoming)
merge_fields vo base incoming =
    merge_under "vo" merge_shallow (as_object (get "vo" base)) (as_object (get "vo" incoming))
      (merge_shallow base incoming)
merge_fields _ base incoming = merge_shallow base incoming

-- mergeProposedState: the raw incoming value where either side is no object.
unfoldable pub merge_proposed_state :
    (String → Json) → Kind → Option Json → Option Json → Option Json
unfolding merge_fields map_from_json
merge_proposed_state number kind base incoming = elim (map_from_json number base) [
  | none ↦ incoming
  | some base_map ↦ elim (map_from_json number incoming) [
    | none ↦ incoming
    | some incoming_map ↦ some (obj (merge_fields kind base_map incoming_map))
  ]
]
