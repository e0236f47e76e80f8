-- ===== src/Apply/Change.antt =====
-- What the apply step reads of a proposal (models.Proposal). An operation inside a bundle has no
-- row of its own, hence no id, and no base.
use topology_v.Base.{ℕ, String, Option, none, some}
use topology_v.Base.Results.{Outcome, err, need}
use topology_v.Models.{Kind, Operation}
use topology_v.Json.{Json}
use topology_v.Db.{Proposal}
use topology_v.Payloads.{BundleOp}
use topology_v.Errors.{Error, bad_json}

pub record Change : Type 0 where
  pub id : Option ℕ
  pub entity_kind : Kind
  pub operation : Operation
  pub target_name : String
  pub proposed_state : Option Json
  pub schema_version : ℕ
  pub base_updated_at : Option ℕ

abbrev pub change_of : Proposal → Change
change_of p = record {
  id = some p.id;
  entity_kind = p.entity_kind;
  operation = p.operation;
  target_name = p.target_name;
  proposed_state = some p.proposed_state;
  schema_version = p.schema_version;
  base_updated_at = p.base_updated_at;
}

-- The synthetic proposal that applyBundleProposal makes of an operation.
abbrev pub change_of_op : BundleOp → Change
change_of_op op = record {
  id = none;
  entity_kind = op.entity_kind;
  operation = op.operation;
  target_name = op.target_name;
  proposed_state = op.proposed_state;
  schema_version = op.schema_version;
  base_updated_at = none;
}

-- json.Unmarshal: empty input is an error too.
abbrev pub unmarshal {ℓ} : {A : Type ℓ} → (Json → Option A) → Option Json → Outcome Error A
unmarshal decode none = err bad_json
unmarshal decode (some v) = need (decode v) bad_json
