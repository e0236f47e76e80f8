-- ===== src/Workflow/Approval.antt =====
-- applyProposal and applyBundleProposal (internal/handlers/proposals.go) on the workflow.
use topology_v.Base.{ℕ, ◌+◌, List, [], ◌∷◌, ◌≡◌, refl, is_empty, not}
use topology_v.Base.Results.{ok, err, guard, >>=-eq-ok, if-eq-ok, never}
use topology_v.External.{External}
use topology_v.Errors.{unsupported_kind, nested_bundle, empty_bundle}
use topology_v.Schema.{known}
use topology_v.Models.{
  Kind, resource, resource_group, site, facility, project, support_center, vo, downtime, bundle,
  other_kind, is_bundle,
}
use topology_v.Payloads.{BundleOp}
use topology_v.Db.{Database}
use topology_v.Apply.Change.{Change, change_of_op, unmarshal}
use topology_v.Apply.Dispatch.{
  Bundles, check_base, bring_forward, dispatch, apply_with, apply_operation, at, apply_operations,
  apply_bundle, apply_proposal,
}
use topology_v.Hierarchy.Approval.{at-eq-ok}
use topology_v.Workflow.{SameWorkflow}
use topology_v.Workflow.Frame.{SameWorkflow-refl, SameWorkflow-trans, SameWorkflow-ok}
use topology_v.Workflow.Apply.{
  apply_facility-SameWorkflow, apply_site-SameWorkflow, apply_resource_group-SameWorkflow,
}
use topology_v.Workflow.Resources.{apply_resource-SameWorkflow}
use topology_v.Workflow.Leaves.{
  apply_downtime-SameWorkflow, apply_project-SameWorkflow, apply_support_center-SameWorkflow,
  apply_vo-SameWorkflow,
}

-- A step on bundles that leaves the workflow alone.
abbrev Keeps : Bundles → Type 0
Keeps bundles = (p : Change) (db db' : Database) → bundles p db ≡ ok db' → SameWorkflow db db'

dispatch-SameWorkflow :
    (ext : External) (bundles : Bundles) (actor : ℕ) (kind : Kind) (p : Change) (db db' : Database)
    → Keeps bundles
    → dispatch ext bundles actor kind p db ≡ ok db'
    → SameWorkflow db db'
unfolding dispatch
dispatch-SameWorkflow ext bundles actor resource p db db' b e =
    apply_resource-SameWorkflow ext p actor db db' e
dispatch-SameWorkflow ext bundles actor resource_group p db db' b e =
    apply_resource_group-SameWorkflow ext p actor db db' e
dispatch-SameWorkflow ext bundles actor site p db db' b e =
    apply_site-SameWorkflow ext p actor db db' e
dispatch-SameWorkflow ext bundles actor facility p db db' b e =
    apply_facility-SameWorkflow ext p actor db db' e
dispatch-SameWorkflow ext bundles actor project p db db' b e =
    apply_project-SameWorkflow ext p actor db db' e
dispatch-SameWorkflow ext bundles actor support_center p db db' b e =
    apply_support_center-SameWorkflow ext p actor db db' e
dispatch-SameWorkflow ext bundles actor vo p db db' b e = apply_vo-SameWorkflow ext p actor db db' e
dispatch-SameWorkflow ext bundles actor downtime p db db' b e =
    apply_downtime-SameWorkflow ext p actor db db' e
dispatch-SameWorkflow ext bundles actor bundle p db db' b e = b p db db' e
dispatch-SameWorkflow ext bundles actor (other_kind k) p db db' b e =
    never _ unsupported_kind db' refl e

apply_with-SameWorkflow :
    (ext : External) (bundles : Bundles) (actor : ℕ) (p : Change) (db db' : Database)
    → Keeps bundles
    → apply_with ext bundles actor p db ≡ ok db'
    → SameWorkflow db db'
unfolding apply_with
apply_with-SameWorkflow ext bundles actor p db db' b e =
    let (_, _, e1) = >>=-eq-ok (guard (known p.entity_kind) unsupported_kind) _ e in
    let (_, _, e2) = >>=-eq-ok (check_base ext p db) _ e1 in
    let (q, _, e3) = >>=-eq-ok (bring_forward ext p) _ e2 in
    dispatch-SameWorkflow ext bundles actor q.entity_kind q db db' b e3

apply_operations-SameWorkflow :
    (ext : External) (actor i : ℕ) (ops : List BundleOp) (db db' : Database)
    → apply_operations ext actor i ops db ≡ ok db'
    → SameWorkflow db db'
unfolding apply_operations apply_operation
apply_operations-SameWorkflow ext actor i [] db db' e =
    SameWorkflow-ok db db db' _ refl e (SameWorkflow-refl db)
apply_operations-SameWorkflow ext actor i (op ∷ ops) db db' e =
    if-eq-ok (is_bundle op.entity_kind) _ _ e (λ n. never _ (nested_bundle i) db' refl n)
      (λ s.
        let (mid, m, e1) =
          >>=-eq-ok (at i op (apply_operation ext actor (change_of_op op) db)) _ s in
        SameWorkflow-trans db mid db'
          (apply_with-SameWorkflow ext (λ p d. err unsupported_kind) actor (change_of_op op) db mid
            (λ p a c x. never _ unsupported_kind c refl x) (at-eq-ok i op _ m))
          (apply_operations-SameWorkflow ext actor (i + 1) ops mid db' e1))

apply_bundle-SameWorkflow :
    (ext : External) (actor : ℕ) (p : Change) (db db' : Database)
    → apply_bundle ext actor p db ≡ ok db'
    → SameWorkflow db db'
unfolding apply_bundle
apply_bundle-SameWorkflow ext actor p db db' e =
    let (b, _, e1) = >>=-eq-ok (unmarshal ext.decode_bundle p.proposed_state) _ e in
    let (_, _, e2) = >>=-eq-ok (guard (not (is_empty b.operations)) empty_bundle) _ e1 in
    apply_operations-SameWorkflow ext actor 1 b.operations db db' e2

pub apply_proposal-SameWorkflow :
    (ext : External) (actor : ℕ) (p : Change) (db db' : Database)
    → apply_proposal ext actor p db ≡ ok db'
    → SameWorkflow db db'
unfolding apply_proposal
apply_proposal-SameWorkflow ext actor p db db' e =
    apply_with-SameWorkflow ext (apply_bundle ext actor) actor p db db'
      (λ q a c x. apply_bundle-SameWorkflow ext actor q a c x) e
