-- ===== src/Apply/Sequence.antt =====
-- The sequence resources_app_created_id_seq in a transaction that is rolled back: PostgreSQL does
-- not undo a nextval. Here is how many ids an apply step has drawn when it ends, read off
-- applyResourceProposal, applyProposal and applyBundleProposal of internal/handlers/proposals.go.
use topology_v.Base.{
  ℕ, ◌+◌, Bool, true, false, not, ◌&&◌, ◌||◌, List, [], ◌∷◌, str_eq, is_none, if◌then◌else◌,
}
use topology_v.Base.Results.{ok, err, guard, need, ◌>>=◌, ◌>>◌}
use topology_v.Models.{Kind, resource, is_delete, is_update, is_bundle}
use topology_v.External.{External}
use topology_v.Errors.{Result, unsupported_kind, bad_proposal_state, not_found}
use topology_v.Schema.{known}
use topology_v.Db.{Database}
use topology_v.Payloads.{BundleOp, BundleProposal, ResourceProposal}
use topology_v.Queries.Entities.{resource_group_id_by_name}
use topology_v.Apply.Change.{Change, change_of_op, unmarshal}
use topology_v.Apply.Contacts.{require_resolved_resource_contacts}
use topology_v.Apply.Dispatch.{check_base, bring_forward, apply_operation}

abbrev is_resource : Kind → Bool
is_resource resource = true
is_resource _ = false

-- What comes before the switch over the kinds.
unfoldable before_dispatch : External → Change → Database → Result Change
before_dispatch ext p db = do
  guard (known p.entity_kind) unsupported_kind
  check_base ext p db
  bring_forward ext p

-- A resource that is to be created, once all is checked that applyResourceProposal checks first.
unfoldable reaches_creation : External → Change → Database → Result ResourceProposal
reaches_creation ext p db = do
  q ← before_dispatch ext p db
  guard (is_resource q.entity_kind && not (is_delete q.operation || is_update q.operation))
      unsupported_kind
  rp ← unmarshal ext.decode_resource q.proposed_state
  guard (not (str_eq rp.name "" || str_eq rp.resource_group "")) bad_proposal_state
  require_resolved_resource_contacts db rp.resource.contact_lists
  _ ← need (resource_group_id_by_name rp.resource_group db) (not_found rp.resource_group)
  ok rp

-- The ids that one operation draws: one for a new resource without an id.
unfoldable pub drawn_by : External → Change → Database → ℕ
unfolding reaches_creation before_dispatch
drawn_by ext p db = elim (reaches_creation ext p db) [
  | err e ↦ 0
  | ok rp ↦ if is_none rp.resource.id then 1 else 0
]

-- The ids that the operations of a bundle draw, up to the first that fails.
unfoldable pub drawn_by_operations : External → ℕ → List BundleOp → Database → ℕ
drawn_by_operations ext actor [] db = 0
drawn_by_operations ext actor (op ∷ ops) db =
    if is_bundle op.entity_kind then 0 else elim (apply_operation ext actor (change_of_op op) db) [
      | err e ↦ drawn_by ext (change_of_op op) db
      | ok db' ↦ drawn_by ext (change_of_op op) db + drawn_by_operations ext actor ops db'
    ]

-- The operations of a bundle, once all is checked that comes before the first.
unfoldable reaches_operations : External → Change → Database → Result BundleProposal
reaches_operations ext p db = do
  q ← before_dispatch ext p db
  guard (is_bundle q.entity_kind) unsupported_kind
  unmarshal ext.decode_bundle q.proposed_state

-- The ids that applyProposal draws.
unfoldable pub drawn : External → ℕ → Change → Database → ℕ
unfolding reaches_operations before_dispatch
drawn ext actor p db = elim (reaches_operations ext p db) [
  | err e ↦ drawn_by ext p db
  | ok b ↦ drawn_by_operations ext actor b.operations db
]
