-- ===== src/Githistory/Decompose.antt =====
-- internal/githistory/decompose.go and importer.go: the changes of the entities in one changed path,
-- and the proposal that a commit becomes.
use topology_v.Base.{
  ℕ, String, Bool, true, false, ◌&&◌, Option, none, some, List, [], ◌∷◌, ◌++◌, str_eq,
  if◌then◌else◌,
}
use topology_v.Models.{
  Kind, resource, resource_group, site, facility, project, bundle, Operation, create, update,
  delete,
}
use topology_v.Json.{Json, end, field, str, obj}
use topology_v.External.{External}
use topology_v.Schema.{current_version}
use topology_v.Githistory.Classify.{Classified}
use topology_v.Githistory.Resources.{EntityChange, Encoding, Resources, decompose_resources}

-- What the lenient decoder makes of FACILITY.yaml and of a resource group's file; a site and a
-- project are taken whole.
pub record ParsedFacility : Type 0 where
  pub institution_id : String
  pub extra : Option Json

pub record ParsedGroup : Type 0 where
  pub production : Option Bool
  pub group_id : Option ℕ
  pub support_center : String
  pub group_description : String
  pub extra : Option Json
  pub resources : Resources

-- DecodeYAMLLenient into each type (`none` is its error), reflect.DeepEqual, and json.Marshal of each
-- payload, with the names that it carries.
pub record Files : Type 0 where
  pub encoding : Encoding
  pub decode_facility : String → Option ParsedFacility
  pub decode_site : String → Option Json
  pub decode_project : String → Option Json
  pub decode_group : String → Option ParsedGroup
  pub same_json : Json → Json → Bool
  pub same_extra : Option Json → Option Json → Bool
  pub same_core : ParsedGroup → ParsedGroup → Bool
  pub facility_payload : String → ParsedFacility → Json
  pub site_payload : String → String → Json → Json
  pub project_payload : String → Json → Json
  pub group_payload : String → String → ParsedGroup → Json

-- A side of the change that does not exist has no blob; `none` is a blob that does not decode.
abbrev decode_side : {A : Type 0} → (String → Option A) → Option String → Option (Option A)
decode_side decode none = some none
decode_side decode (some blob) = elim (decode blob) [ none ↦ none | some a ↦ some (some a) ]

abbrev both_sides :
    {A : Type 0}
    → (String → Option A)
    → Option String
    → Option String
    → Option (Option A × Option A)
both_sides decode old new = elim (decode_side decode old) [
  | none ↦ none
  | some a ↦ elim (decode_side decode new) [ none ↦ none | some b ↦ some (a, b) ]
]

-- oneChange, without the error of json.Marshal, which these payloads cannot have.
abbrev one_change :
    Kind → String → String → Operation → Option Json → Option Json → List EntityChange
one_change kind old new op before after =
    record {
      kind = kind;
      old_name = old;
      new_name = new;
      operation = op;
      before = before;
      after = after;
      resource_topology_id = none;
      target_name = "";
    }
    ∷ []

-- The switch that the four functions share.
abbrev diff :
    {A : Type 0}
    → Kind
    → String
    → String
    → (A → Json)
    → (A → Json)
    → (A → A → Bool)
    → Option A
    → Option A
    → List EntityChange
diff kind old new before after unchanged none none = []
diff kind old new before after unchanged none (some b) =
    one_change kind "" new create none (some (after b))
diff kind old new before after unchanged (some a) none =
    one_change kind old "" delete (some (before a)) none
diff kind old new before after unchanged (some a) (some b) =
    if unchanged a b then [] else one_change kind old new update (some (before a)) (some (after b))

-- decomposeFacility.
unfoldable pub decompose_facility :
    Files → String → String → Option String → Option String → Option (List EntityChange)
decompose_facility d old_name new_name old new = elim (both_sides d.decode_facility old new) [
  | none ↦ none
  | some (a, b) ↦ some (
      diff facility old_name new_name (d.facility_payload old_name) (d.facility_payload new_name)
        (λ x y.
          str_eq old_name new_name
          && str_eq x.institution_id y.institution_id
          && d.same_extra x.extra y.extra)
        a b)
]

-- decomposeSite, with the facility on each side.
unfoldable pub decompose_site :
    Files
    → String
    → String
    → String
    → String
    → Option String
    → Option String
    → Option (List EntityChange)
decompose_site d old_name new_name old_facility new_facility old new =
    elim (both_sides d.decode_site old new) [
      | none ↦ none
      | some (a, b) ↦ some (
          diff site old_name new_name (d.site_payload old_name old_facility)
            (d.site_payload new_name new_facility)
            (λ x y. str_eq old_name new_name && str_eq old_facility new_facility && d.same_json x y)
            a b)
    ]

-- decomposeProject.
unfoldable pub decompose_project :
    Files → String → String → Option String → Option String → Option (List EntityChange)
decompose_project d old_name new_name old new = elim (both_sides d.decode_project old new) [
  | none ↦ none
  | some (a, b) ↦ some (
      diff project old_name new_name (d.project_payload old_name) (d.project_payload new_name)
        (λ x y. str_eq old_name new_name && d.same_json x y) a b)
]

abbrev resources_of : Option ParsedGroup → Resources
resources_of none = []
resources_of (some g) = g.resources

-- decomposeResourceGroup, with the site on each side.
unfoldable pub decompose_resource_group :
    External
    → Files
    → String
    → String
    → String
    → String
    → Option String
    → Option String
    → Option (List EntityChange)
unfolding decompose_resources
decompose_resource_group ext d old_name new_name old_site new_site old new =
    elim (both_sides d.decode_group old new) [
      | none ↦ none
      | some (a, b) ↦ some (
          diff resource_group old_name new_name (d.group_payload old_name old_site)
            (d.group_payload new_name new_site)
            (λ x y. str_eq old_name new_name && str_eq old_site new_site && d.same_core x y) a b
          ++ decompose_resources ext d.encoding old_name new_name (resources_of a) (resources_of b))
    ]

-- A side's names, empty where the path was not classified.
abbrev name_on : Option Classified → String
name_on none = ""
name_on (some c) = c.name

abbrev site_on : Option Classified → String
site_on none = ""
site_on (some c) = c.site_name

abbrev facility_on : Option Classified → String
facility_on none = ""
facility_on (some c) = c.facility_name

-- The switch of decomposeChangedPath.
abbrev decompose_kind :
    External
    → Files
    → Kind
    → Option Classified
    → Option Classified
    → Option String
    → Option String
    → Option (List EntityChange)
unfolding decompose_facility decompose_site decompose_resource_group decompose_project
decompose_kind ext d facility a b old new = decompose_facility d (name_on a) (name_on b) old new
decompose_kind ext d site a b old new =
    decompose_site d (name_on a) (name_on b) (facility_on a) (facility_on b) old new
decompose_kind ext d resource_group a b old new =
    decompose_resource_group ext d (name_on a) (name_on b) (site_on a) (site_on b) old new
decompose_kind ext d project a b old new = decompose_project d (name_on a) (name_on b) old new
decompose_kind ext d _ a b old new = some []

abbrev same_file_kind : Kind → Kind → Bool
same_file_kind facility facility = true
same_file_kind site site = true
same_file_kind resource_group resource_group = true
same_file_kind project project = true
same_file_kind _ _ = false

abbrev both_changes :
    Option (List EntityChange) → Option (List EntityChange) → Option (List EntityChange)
both_changes none ds = none
both_changes (some cs) none = none
both_changes (some cs) (some ds) = some (cs ++ ds)

-- decomposeChangedPath: a path that changed its kind is a delete and a create.
unfoldable pub decompose_changed_path :
    External
    → Files
    → Option Classified
    → Option Classified
    → Option String
    → Option String
    → Option (List EntityChange)
unfolding decompose_kind
decompose_changed_path ext d none none old new = some []
decompose_changed_path ext d none (some b) old new =
    decompose_kind ext d b.kind none (some b) old new
decompose_changed_path ext d (some a) none old new =
    decompose_kind ext d a.kind (some a) none old new
decompose_changed_path ext d (some a) (some b) old new =
    if same_file_kind a.kind b.kind
    then decompose_kind ext d b.kind (some a) (some b) old new
    else both_changes (decompose_kind ext d a.kind (some a) none old none)
        (decompose_kind ext d b.kind none (some b) none new)

abbrev is_resource_kind : Kind → Bool
is_resource_kind resource = true
is_resource_kind _ = false

abbrev topology_id_text : External → Option ℕ → String
topology_id_text ext none = ext.format_int 0
topology_id_text ext (some id) = ext.format_int id

-- The second pass: the name under which a change is filed, an entity's last one or a resource's id.
unfoldable pub with_target : External → String → EntityChange → EntityChange
with_target ext final_name c = record c {
  target_name =
      if is_resource_kind c.kind then topology_id_text ext c.resource_topology_id else final_name;
}

-- proposedAndBase; `none` is an unknown operation.
unfoldable pub proposed_and_base : EntityChange → Option (Option Json × Option Json)
proposed_and_base c = elim c.operation [
  | create ↦ some (c.after, none)
  | update ↦ some (c.after, c.before)
  | delete ↦ some (some (obj (field "name" (str c.old_name) end)), c.before)
  | _ ↦ none
]

-- The columns that InsertHistoricalProposal writes for a change or a bundle.
pub record HistoricalProposal : Type 0 where
  pub entity_kind : Kind
  pub target_name : String
  pub operation : Operation
  pub proposed_state : Option Json
  pub base_version : Option Json
  pub schema_version : ℕ

-- bundleOpPayload.
pub record HistoricalOp : Type 0 where
  pub entity_kind : Kind
  pub operation : Operation
  pub target_name : String
  pub proposed_state : Option Json
  pub schema_version : ℕ

abbrev bundle_op : EntityChange → Option HistoricalOp
unfolding proposed_and_base current_version
bundle_op c = elim (proposed_and_base c) [
  | none ↦ none
  | some (proposed, base) ↦ some (record {
    entity_kind = c.kind;
    operation = c.operation;
    target_name = c.target_name;
    proposed_state = proposed;
    schema_version = current_version c.kind;
  })
]

abbrev and_then : Option HistoricalOp → Option (List HistoricalOp) → Option (List HistoricalOp)
and_then none os = none
and_then (some o) none = none
and_then (some o) (some os) = some (o ∷ os)

abbrev bundle_ops : List EntityChange → Option (List HistoricalOp)
unfolding bundle_op
bundle_ops [] = some []
bundle_ops (c ∷ cs) = and_then (bundle_op c) (bundle_ops cs)

abbrev bundle_row : (List HistoricalOp → Json) → List EntityChange → Option HistoricalProposal
unfolding bundle_ops current_version
bundle_row marshal cs = elim (bundle_ops cs) [
  | none ↦ none
  | some os ↦ some (record {
    entity_kind = bundle;
    target_name = "";
    operation = create;
    proposed_state = some (marshal os);
    base_version = none;
    schema_version = current_version bundle;
  })
]

-- writeCommitProposal: a single change is filed as itself, several as a bundle.
unfoldable pub write_commit_proposal :
    (List HistoricalOp → Json) → List EntityChange → Option HistoricalProposal
unfolding bundle_row proposed_and_base current_version
write_commit_proposal marshal (c ∷ []) = elim (proposed_and_base c) [
  | none ↦ none
  | some (proposed, base) ↦ some (record {
    entity_kind = c.kind;
    target_name = c.target_name;
    operation = c.operation;
    proposed_state = proposed;
    base_version = base;
    schema_version = current_version c.kind;
  })
]
write_commit_proposal marshal cs = bundle_row marshal cs
