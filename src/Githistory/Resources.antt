-- ===== src/Githistory/Resources.antt =====
-- decomposeResources of internal/githistory/decompose.go: the keyed diff of the resources of a
-- resource group. A Go map is a list of entries with distinct keys; its order is not fixed, and the
-- theorems hold for every one.
pub mod Laws
use topology_v.Base.{
  ℕ, String, Bool, true, false, not, ◌&&◌, Option, none, some, List, [], ◌∷◌, ◌++◌, str_eq, any,
  if◌then◌else◌,
}
use topology_v.Models.{Kind, resource, Operation, create, update, delete}
use topology_v.Json.{Json}
use topology_v.External.{External}
use topology_v.Payloads.{Resource}
use topology_v.Apply.Vos.{id_or_gen}

-- entityChange; an absent state is `none`, and the target's name is filled in by Run.
pub record EntityChange : Type 0 where
  pub kind : Kind
  pub old_name : String
  pub new_name : String
  pub operation : Operation
  pub before : Option Json
  pub after : Option Json
  pub resource_topology_id : Option ℕ
  pub target_name : String

-- What the decomposition takes from outside: reflect.DeepEqual on two parsed resources, and
-- json.Marshal of a resourcePayload with the normalized resource.
pub record Encoding : Type 0 where
  pub same_resource : Resource → Resource → Bool
  pub resource_payload : String → String → Resource → Json

abbrev pub Resources : Type 0
Resources = List (String × Resource)

abbrev pub resource_at : String → Resources → Option Resource
resource_at k [] = none
resource_at k ((j, r) ∷ m) = let rest = resource_at k m in if str_eq j k then some r else rest

abbrev pub is_key : String → Resources → Bool
is_key k [] = false
is_key k ((j, r) ∷ m) = let rest = is_key k m in if str_eq j k then true else rest

abbrev resource_change :
    String → Operation → Option Json → Option Json → Bool → Bool → ℕ → EntityChange
resource_change name op before after had has id = record {
  kind = resource;
  old_name = if had then name else "";
  new_name = if has then name else "";
  operation = op;
  before = before;
  after = after;
  resource_topology_id = some id;
  target_name = "";
}

module _ (ext : External) (enc : Encoding) (old_group new_group : String) where
  -- One round of the loop over the old resources.
  abbrev pub old_change : String → Resource → Option Resource → List EntityChange
  old_change name r none =
      resource_change name delete (some (enc.resource_payload old_group name r)) none true false
        (id_or_gen ext r.id name)
      ∷ []
  old_change name r (some new) =
      if enc.same_resource r new && str_eq old_group new_group
      then []
      else resource_change name update (some (enc.resource_payload old_group name r))
          (some (enc.resource_payload new_group name new)) true true (id_or_gen ext new.id name)
        ∷ []

  unfoldable pub old_changes : Resources → Resources → List EntityChange
  old_changes new [] = []
  old_changes new ((name, r) ∷ m) = old_change name r (resource_at name new) ++ old_changes new m

  -- The loop over the new resources, which passes over those that were seen.
  unfoldable pub new_changes : Resources → Resources → List EntityChange
  new_changes old [] = []
  new_changes old ((name, r) ∷ m) =
      let rest = new_changes old m in
      if is_key name old
      then rest
      else resource_change name create none (some (enc.resource_payload new_group name r)) false
          true (id_or_gen ext r.id name)
        ∷ rest

  -- decomposeResources.
  unfoldable pub decompose_resources : Resources → Resources → List EntityChange
  unfolding old_changes new_changes
  decompose_resources old new = old_changes new old ++ new_changes old new
