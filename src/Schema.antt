-- ===== src/Schema.antt =====
-- internal/proposalschema/proposalschema.go: the registered kinds and versions, validation and the
-- chain of upgraders. A version is taken as a natural number.
use topology_v.Base.{
  ℕ, zero, suc, ◌+◌, ◌-◌, Bool, true, false, Option, none, some, ◌==◌, not, leb, ◌&&◌,
}
use topology_v.Base.Results.{ok, err, guard, ◌>>=◌, ◌>>◌}
use topology_v.Models.{Kind, other_kind}
use topology_v.Json.{Json, obj, end}
use topology_v.External.{External}
use topology_v.Errors.{Result, no_schema, no_upgrader, invalid_payload, unsupported_kind}

-- CurrentVersion: 0 for a kind with no schema.
unfoldable pub current_version : Kind → ℕ
current_version (other_kind s) = 0
current_version _ = 1

-- Known.
unfoldable pub known : Kind → Bool
known (other_kind s) = false
known _ = true

-- `upgraders[kind][v]`: no kind has had a version bump yet.
unfoldable pub upgraders : Kind → ℕ → Option (Json → Result Json)
upgraders kind v = none

-- orEmptyJSON.
abbrev pub or_empty_json : Option Json → Json
or_empty_json none = obj end
or_empty_json (some v) = v

module _ (ext : External) where
  -- Validate: init compiles the versions 1 to the current one of each kind.
  unfoldable pub validate : Kind → ℕ → Json → Result (Unit {0})
  validate kind version state = do
    guard (leb 1 version && leb version (current_version kind)) (no_schema kind version)
    guard (ext.schema_ok kind version state) invalid_payload

  -- The loop of Upgrade, over the versions that are left.
  unfoldable pub upgrade_from : ℕ → Kind → ℕ → Json → Result Json
  upgrade_from zero kind v state = ok state
  upgrade_from (suc n) kind v state = elim (upgraders kind v) [
    | none ↦ err (no_upgrader kind v)
    | some up ↦ up state >>= upgrade_from n kind (v + 1)
  ]

  -- Upgrade; the version that it also returns is not used.
  unfoldable pub upgrade : Kind → ℕ → Json → Result Json
  upgrade kind version state = do
    guard (not (current_version kind == 0)) unsupported_kind
    out ← upgrade_from (current_version kind - version) kind version state
    validate kind (current_version kind) out
    ok out
