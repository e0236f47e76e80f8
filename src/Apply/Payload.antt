-- ===== src/Apply/Payload.antt =====
-- Which payload the apply step applies, and that the current schema accepts it
-- (internal/proposalschema/proposalschema.go, applyProposal of internal/handlers/proposals.go).
use topology_v.Base.{
  ◌-◌, ℕ, ◌≤◌, ◌<◌, Bool, true, false, some, ◌≡◌, refl, ap, arith, ◌==◌, ◌^◌, inl, inr,
  if◌then◌else◌, String, Bool-cases,
}
use topology_v.Base.Results.{ok, guard, ◌>>=◌, ◌>>◌}
use topology_v.External.{External}
use topology_v.Errors.{Error, Result, unsupported_kind, invalid_payload}
use topology_v.Models.{Kind, is_delete}
use topology_v.Json.{Json}
use topology_v.Schema.{current_version, known, upgrade_from, upgrade, validate, or_empty_json}
use topology_v.Db.{Database}
use topology_v.Apply.Change.{Change}
use topology_v.Apply.Dispatch.{
  check_base, bring_forward, dispatch, apply_with, apply_bundle, apply_proposal,
}
use topology_v.Apply.Hierarchy.{gen_id}

known-current : (kind : Kind) → known kind ≡ true → current_version kind ≡ 1
unfolding known current_version
known-current kind h = ground (arith, h)

-- No kind has an upgrader, and none is looked for: whatever version a payload is of, it is validated
-- as it is.
upgrade-known :
    (ext : External) (kind : Kind) (v : ℕ) (state : Json)
    → known kind ≡ true
    → 1 ≤ v
    → upgrade ext kind v state
      ≡ (do guard (ext.schema_ok kind (current_version kind) state) invalid_payload; ok state)
unfolding upgrade upgrade_from validate
upgrade-known ext kind v state k le =
    let c = known-current kind k in
    let none_left : 1 - v ≡ 0 = omega (arith, le) in rw (c, none_left) refl

-- What is checked of a payload before it is put into the change.
guarded :
    (b : Bool) (why : Error) (state : Json) (put : Json → Change) (next : Change → Result Database)
    → (((guard b why >> ok state) >>= λ s. ok (put s)) >>= next) ≡ (guard b why >> next (put state))
guarded true why state put next = refl
guarded false why state put next = refl

-- The change with the payload that is stored, or with the empty object where there is none.
abbrev pub with_payload : Change → Change
with_payload p = record p { proposed_state = some (or_empty_json p.proposed_state) }

-- A create or an update, whatever the schema version that it is stored under, is refused for an
-- unknown kind, then for a stale base, then where the current schema of its kind does not accept its
-- payload as it is stored (the empty object where there is none); otherwise it is that payload that
-- the switch over the kinds applies.
pub apply_proposal-valid :
    (ext : External) (actor : ℕ) (p : Change) (db : Database)
    → is_delete p.operation ≡ false
    → apply_proposal ext actor p db ≡ (do
      guard (known p.entity_kind) unsupported_kind
      check_base ext p db
      guard
          (ext.schema_ok p.entity_kind
            (current_version p.entity_kind)
            (or_empty_json p.proposed_state))
          invalid_payload
      dispatch ext (apply_bundle ext actor) actor p.entity_kind (with_payload p) db)
unfolding apply_proposal apply_with bring_forward
apply_proposal-valid ext actor p db d = elim (Bool-cases (known p.entity_kind)) [
  | inr k ↦ rw k refl
  | inl k ↦
      let version = if p.schema_version == 0 then 1 else p.schema_version in
      let le : 1 ≤ version = ground arith in
      rw (k, d, upgrade-known ext p.entity_kind version (or_empty_json p.proposed_state) k le)
        (ap (λ z. check_base ext p db >>= λ _. z)
          (guarded
            (ext.schema_ok p.entity_kind (current_version p.entity_kind)
              (or_empty_json p.proposed_state))
            invalid_payload (or_empty_json p.proposed_state)
            (λ state. record p { proposed_state = some state })
            (λ q. dispatch ext (apply_bundle ext actor) actor q.entity_kind q db)))
]

-- The id that GenID gives is a positive 32-bit signed number.
pub gen_id-bounds :
    (ext : External) (name : String) → (1 ≤ gen_id ext name) × (gen_id ext name < 2 ^ 31)
unfolding gen_id
gen_id-bounds ext name = (omega arith, omega arith)
