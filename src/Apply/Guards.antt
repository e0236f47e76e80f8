-- ===== src/Apply/Guards.antt =====
-- The stale-base guard of applyProposal (internal/handlers/proposals.go).
use topology_v.Base.{ℕ, true, false, Option, none, some, ◌≡◌, arith, not}
use topology_v.Base.Results.{ok, guard, >>=-eq-ok, guard-eq-ok}
use topology_v.External.{External}
use topology_v.Errors.{unsupported_kind, stale_base}
use topology_v.Models.{is_create}
use topology_v.Schema.{known}
use topology_v.Db.{Database}
use topology_v.Apply.Change.{Change}
use topology_v.Apply.Stale.{entity_updated_at}
use topology_v.Apply.Dispatch.{is_stale, check_base, apply_with, apply_proposal}

fresh : (o : Option ℕ) (base : ℕ) → not (is_stale o base) ≡ true → o ≡ some base
fresh none base h = ground arith
fresh (some cur) base h = ground arith

-- An update or a delete with a base is applied only where the live entity is still the one of the
-- base: its time of change is the one that the proposal was made against.
pub apply_proposal-fresh :
    (ext : External) (actor base : ℕ) (p : Change) (db db' : Database)
    → apply_proposal ext actor p db ≡ ok db'
    → is_create p.operation ≡ false
    → p.base_updated_at ≡ some base
    → entity_updated_at ext p.entity_kind p.target_name db ≡ some base
unfolding apply_proposal apply_with check_base
apply_proposal-fresh ext actor base p db db' e c b =
    let (_, _, e1) = >>=-eq-ok (guard (known p.entity_kind) unsupported_kind) _ e in
    let (_, k, _) = >>=-eq-ok (check_base ext p db) _ e1 in
    fresh _ base (guard-eq-ok _ stale_base (rw (b, c) at k))
