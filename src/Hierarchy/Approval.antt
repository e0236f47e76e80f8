-- ===== src/Hierarchy/Approval.antt =====
-- applyProposal, applyBundleProposal and the handlers of internal/handlers/proposals.go on the
-- hierarchy.
use topology_v.Base.{ℕ, ◌+◌, List, [], ◌∷◌, ◌≡◌, refl, is_empty, not}
use topology_v.Base.Results.{ok, err, guard, >>=-eq-ok, if-eq-ok, never}
use topology_v.External.{External}
use topology_v.Errors.{Result, unsupported_kind, nested_bundle, empty_bundle}
use topology_v.Schema.{known}
use topology_v.Models.{
  Kind, resource, resource_group, site, facility, project, support_center, vo, downtime, bundle,
  other_kind, is_bundle,
}
use topology_v.Payloads.{BundleOp}
use topology_v.Db.{Database}
use topology_v.Apply.Change.{Change, change_of_op, unmarshal}
use topology_v.Apply.Dispatch.{
  Bundles, check_base, bring_forward, dispatch, apply_with, apply_operation, at, apply_operations,
  apply_bundle, apply_proposal,
}
use topology_v.Hierarchy.{IsLinked}
use topology_v.Hierarchy.Frame.{SameTables-IsLinked, IsLinked-ok}
use topology_v.Hierarchy.Apply.{apply_facility-IsLinked, apply_site-IsLinked, apply_group-IsLinked}
use topology_v.Hierarchy.Resources.{apply_resource-IsLinked}
use topology_v.Hierarchy.Leaves.{
  apply_downtime-SameTables, apply_project-SameTables, apply_support_center-IsLinked,
  apply_vo-SameTables,
}

-- A step on bundles that keeps the hierarchy.
abbrev Keeps : Bundles → Type 0
Keeps bundles =
    (p : Change) (db db' : Database) → bundles p db ≡ ok db' → IsLinked db → IsLinked db'

dispatch-IsLinked :
    (ext : External) (bundles : Bundles) (actor : ℕ) (kind : Kind) (p : Change) (db db' : Database)
    → Keeps bundles
    → dispatch ext bundles actor kind p db ≡ ok db'
    → IsLinked db
    → IsLinked db'
unfolding dispatch
dispatch-IsLinked ext bundles actor resource p db db' b e h =
    apply_resource-IsLinked ext p actor db db' e h
dispatch-IsLinked ext bundles actor resource_group p db db' b e h =
    apply_group-IsLinked ext p actor db db' e h
dispatch-IsLinked ext bundles actor site p db db' b e h = apply_site-IsLinked ext p actor db db' e h
dispatch-IsLinked ext bundles actor facility p db db' b e h =
    apply_facility-IsLinked ext p actor db db' e h
dispatch-IsLinked ext bundles actor project p db db' b e h =
    SameTables-IsLinked db db' (apply_project-SameTables ext p actor db db' e) h
dispatch-IsLinked ext bundles actor support_center p db db' b e h =
    apply_support_center-IsLinked ext p actor db db' e h
dispatch-IsLinked ext bundles actor vo p db db' b e h =
    SameTables-IsLinked db db' (apply_vo-SameTables ext p actor db db' e) h
dispatch-IsLinked ext bundles actor downtime p db db' b e h =
    SameTables-IsLinked db db' (apply_downtime-SameTables ext p actor db db' e) h
dispatch-IsLinked ext bundles actor bundle p db db' b e h = b p db db' e h
dispatch-IsLinked ext bundles actor (other_kind k) p db db' b e h =
    never _ unsupported_kind db' refl e

apply_with-IsLinked :
    (ext : External) (bundles : Bundles) (actor : ℕ) (p : Change) (db db' : Database)
    → Keeps bundles
    → apply_with ext bundles actor p db ≡ ok db'
    → IsLinked db
    → IsLinked db'
unfolding apply_with
apply_with-IsLinked ext bundles actor p db db' b e h =
    let (_, _, e1) = >>=-eq-ok (guard (known p.entity_kind) unsupported_kind) _ e in
    let (_, _, e2) = >>=-eq-ok (check_base ext p db) _ e1 in
    let (q, _, e3) = >>=-eq-ok (bring_forward ext p) _ e2 in
    dispatch-IsLinked ext bundles actor q.entity_kind q db db' b e3 h

pub at-eq-ok :
    (i : ℕ) (op : BundleOp) (r : Result Database) {db : Database} → at i op r ≡ ok db → r ≡ ok db
at-eq-ok i op (ok a) h = h
at-eq-ok i op (err e) h = cc

apply_operations-IsLinked :
    (ext : External) (actor i : ℕ) (ops : List BundleOp) (db db' : Database)
    → apply_operations ext actor i ops db ≡ ok db'
    → IsLinked db
    → IsLinked db'
unfolding apply_operations apply_operation
apply_operations-IsLinked ext actor i [] db db' e h = IsLinked-ok db db' _ refl e h
apply_operations-IsLinked ext actor i (op ∷ ops) db db' e h =
    if-eq-ok (is_bundle op.entity_kind) _ _ e (λ n. never _ (nested_bundle i) db' refl n)
      (λ s.
        let (mid, m, e1) =
          >>=-eq-ok (at i op (apply_operation ext actor (change_of_op op) db)) _ s in
        apply_operations-IsLinked ext actor (i + 1) ops mid db' e1 (
          apply_with-IsLinked ext (λ p d. err unsupported_kind) actor (change_of_op op) db mid
            (λ p a c x _. never _ unsupported_kind c refl x) (at-eq-ok i op _ m) h))

apply_bundle-IsLinked :
    (ext : External) (actor : ℕ) (p : Change) (db db' : Database)
    → apply_bundle ext actor p db ≡ ok db'
    → IsLinked db
    → IsLinked db'
unfolding apply_bundle
apply_bundle-IsLinked ext actor p db db' e h =
    let (b, _, e1) = >>=-eq-ok (unmarshal ext.decode_bundle p.proposed_state) _ e in
    let (_, _, e2) = >>=-eq-ok (guard (not (is_empty b.operations)) empty_bundle) _ e1 in
    apply_operations-IsLinked ext actor 1 b.operations db db' e2 h

-- Applying a proposal, whatever its kind, its operation and its payload, keeps the hierarchy: where
-- every live site, resource group and resource had a live parent, it has one afterwards.
pub apply_proposal-IsLinked :
    (ext : External) (actor : ℕ) (p : Change) (db db' : Database)
    → apply_proposal ext actor p db ≡ ok db'
    → IsLinked db
    → IsLinked db'
unfolding apply_proposal
apply_proposal-IsLinked ext actor p db db' e h =
    apply_with-IsLinked ext (apply_bundle ext actor) actor p db db'
      (λ q a c x l. apply_bundle-IsLinked ext actor q a c x l) e h
