-- ===== src/Apply/Dispatch.antt =====
-- applyProposal and applyBundleProposal (internal/handlers/proposals.go).
use topology_v.Base.{
  ℕ, ◌+◌, Bool, true, Option, none, some, List, [], ◌∷◌, not, ◌==◌, is_empty, if◌then◌else◌,
}
use topology_v.Base.Results.{ok, err, guard, ◌>>=◌, ◌>>◌}
use topology_v.Models.{
  Kind, resource, resource_group, site, facility, project, support_center, vo, downtime, bundle,
  other_kind, is_create, is_delete, is_bundle,
}
use topology_v.External.{External}
use topology_v.Errors.{
  Result, unsupported_kind, stale_base, empty_bundle, nested_bundle, at_operation,
}
use topology_v.Schema.{known, upgrade, or_empty_json}
use topology_v.Db.{Database}
use topology_v.Payloads.{BundleOp}
use topology_v.Apply.Change.{Change, change_of_op, unmarshal}
use topology_v.Apply.Hierarchy.{apply_facility, apply_site, apply_resource_group}
use topology_v.Apply.Resources.{apply_resource}
use topology_v.Apply.Catalogue.{apply_downtime, apply_project, apply_support_center}
use topology_v.Apply.Vos.{apply_vo}
use topology_v.Apply.Stale.{entity_updated_at}

-- `cur == nil || !cur.Equal(*p.BaseUpdatedAt)`.
abbrev pub is_stale : Option ℕ → ℕ → Bool
is_stale none base = true
is_stale (some cur) base = not (cur == base)

-- The stale-base guard: only where the proposal has a base.
unfoldable pub check_base : External → Change → Database → Result (Unit {0})
check_base ext p db = elim p.base_updated_at [
  | none ↦ ok tt
  | some base ↦
      if is_create p.operation
      then ok tt
      else guard (not (is_stale (entity_updated_at ext p.entity_kind p.target_name db) base))
          stale_base
]

-- The payload brought forward to the current schema; a delete carries none. Version 0 is read as 1.
unfoldable pub bring_forward : External → Change → Result Change
bring_forward ext p = if is_delete p.operation then ok p else (do
  state ←
      upgrade ext p.entity_kind (if p.schema_version == 0 then 1 else p.schema_version)
        (or_empty_json p.proposed_state)
  ok (record p { proposed_state = some state }))

-- What a dispatch calls for a bundle.
abbrev pub Bundles : Type 0
Bundles = Change → Database → Result Database

-- The switch over the kinds.
unfoldable pub dispatch : External → Bundles → ℕ → Kind → Change → Database → Result Database
dispatch ext bundles actor resource p db = apply_resource ext p actor db
dispatch ext bundles actor resource_group p db = apply_resource_group ext p actor db
dispatch ext bundles actor site p db = apply_site ext p actor db
dispatch ext bundles actor facility p db = apply_facility ext p actor db
dispatch ext bundles actor project p db = apply_project ext p actor db
dispatch ext bundles actor support_center p db = apply_support_center ext p actor db
dispatch ext bundles actor vo p db = apply_vo ext p actor db
dispatch ext bundles actor downtime p db = apply_downtime ext p actor db
dispatch ext bundles actor bundle p db = bundles p db
dispatch ext bundles actor (other_kind k) p db = err unsupported_kind

-- applyProposal, over what it calls for a bundle.
unfoldable pub apply_with : External → Bundles → ℕ → Change → Database → Result Database
apply_with ext bundles actor p db = do
  guard (known p.entity_kind) unsupported_kind
  check_base ext p db
  p' ← bring_forward ext p
  dispatch ext bundles actor p'.entity_kind p' db

-- applyProposal at an operation of a bundle: its kind is no bundle, so the recursion ends here.
unfoldable pub apply_operation : External → ℕ → Change → Database → Result Database
apply_operation ext actor = apply_with ext (λ p db. err unsupported_kind) actor

-- fmt.Errorf("operation %d (%s %s): %w").
abbrev pub at : ℕ → BundleOp → Result Database → Result Database
at i op (ok db) = ok db
at i op (err e) = err (at_operation i op.operation op.entity_kind e)

-- The loop of applyBundleProposal; the operations count from 1.
unfoldable pub apply_operations : External → ℕ → ℕ → List BundleOp → Database → Result Database
apply_operations ext actor i [] db = ok db
apply_operations ext actor i (op ∷ ops) db =
    if is_bundle op.entity_kind
    then err (nested_bundle i)
    else at i op (apply_operation ext actor (change_of_op op) db)
      >>= apply_operations ext actor (i + 1) ops

-- applyBundleProposal.
unfoldable pub apply_bundle : External → ℕ → Change → Database → Result Database
apply_bundle ext actor p db = do
  b ← unmarshal ext.decode_bundle p.proposed_state
  guard (not (is_empty b.operations)) empty_bundle
  apply_operations ext actor 1 b.operations db

-- applyProposal.
unfoldable pub apply_proposal : External → ℕ → Change → Database → Result Database
apply_proposal ext actor = apply_with ext (apply_bundle ext actor) actor
