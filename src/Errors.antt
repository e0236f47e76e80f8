-- ===== src/Errors.antt =====
-- The errors of the apply step, one constructor for each message (internal/handlers/proposals.go,
-- internal/handlers/support_centers.go, internal/handlers/vos.go and internal/proposalschema).
use topology_v.Base.{ℕ, String}
use topology_v.Base.Results.{Outcome, ok, err}
use topology_v.Models.{Kind, Operation}
use topology_v.Table.{Violation}

pub data Error : Type 0 where
  unsupported_kind bad_proposal_state stale_base bad_json : Error
  violation : Violation → Error
  not_found : String → Error
  bad_id : String → Error
  has_children : ℕ → Error
  too_many_contacts : String → Error
  unknown_contact : String → Error
  bad_rank : String → String → Error
  facility_needs_institution : Error
  unknown_institution : String → Error
  no_schema : Kind → ℕ → Error
  no_upgrader : Kind → ℕ → Error
  invalid_payload : Error
  empty_bundle : Error
  nested_bundle : ℕ → Error
  at_operation : ℕ → Operation → Kind → Error → Error
  time_required : Error
  bad_time : String → Error
  name_required : Error
  support_center_exists : Error
  id_in_use : ℕ → String → Error
  vo_exists name_is_fixed : Error
  bad_vo_name : String → Error
  bad_vo_document : Error
  bad_parent : String → Error
  bad_contacts : Error
  vo_in_use : ℕ → ℕ → ℕ → Error

abbrev pub Result : Type 0 → Type 0
Result A = Outcome Error A

-- A statement that breaks a unique index, as the error that the caller returns.
abbrev pub lift {ℓ} : {A : Type ℓ} → Outcome Violation A → Outcome Error A
lift (ok a) = ok a
lift (err v) = err (violation v)
