-- ===== src/Apply/Vos.antt =====
-- applyVOProposal, checkVODoc and deleteVO (internal/handlers/vos.go), over VO documents as decoded objects. yaml.v3, and PatchVOYAML and NewVOYAML over its nodes, are
-- taken from outside.
use Prim.Native.Char.{code}
use topology_v.Base.{
  ℕ, ◌+◌, zero, suc, String, Bool, true, false, Option, none, some, List, [], ◌∷◌, str_eq, ◌==◌,
  not, ◌&&◌, ◌||◌, any, is_none, select, length, leb, if◌then◌else◌,
}
use topology_v.Base.Results.{ok, err, guard, need, ◌>>=◌, ◌>>◌}
use topology_v.Models.{is_delete, is_update}
use topology_v.Json.{
  Json, null, str, num, obj, Fields, end, field, get, put, as_object, map_from_json,
}
use topology_v.External.{External}
use topology_v.Errors.{
  Result, name_required, name_is_fixed, not_found, bad_vo_name, bad_vo_document, bad_parent,
  vo_in_use,
}
use topology_v.Db.{Database, VoRow}
use topology_v.Payloads.{VoProposal}
use topology_v.Queries.Catalogue.{
  get_vo, insert_vo, update_vo_fields, soft_delete_vo_by_name, resources_allowing_vo,
  projects_sponsored_by_vo,
}
use topology_v.Apply.Change.{Change, unmarshal}
use topology_v.Apply.Hierarchy.{gen_id}
use topology_v.Apply.Catalogue.{sponsor_name}
use topology_v.Apply.VoContacts.{require_resolved_vo_contacts}

-- `doc["ParentVO"].(map[string]interface{})["Name"].(string)`, "" where any part is missing.
abbrev pub parent_name : Fields → String
parent_name doc = sponsor_name (as_object (get "ParentVO" doc))

abbrev pub is_member : String → List String → Bool
is_member s names = any (str_eq s) names

-- How the walk up the parents ends: at the top, at a name that it has seen, or without fuel.
pub data Walk : Type 0 where
  clear cycle out_of_fuel : Walk

-- The loop of checkVODoc over `cur` and `seen`.
unfoldable pub walk_up : External → Database → ℕ → List String → VoRow → Walk
walk_up ext db zero seen cur = out_of_fuel
walk_up ext db (suc fuel) seen cur = elim (ext.vo_document cur.raw) [
  | none ↦ clear
  | some doc ↦ elim (str_eq (parent_name doc) "") [
    | true ↦ clear
    | false ↦ elim (is_member (parent_name doc) seen) [
      | true ↦ cycle
      | false ↦ elim (get_vo (parent_name doc) db) [
        | none ↦ clear
        | some up ↦ walk_up ext db fuel (parent_name doc ∷ seen) up
      ]
    ]
  ]
]

abbrev pub is_clear : Walk → Bool
is_clear clear = true
is_clear _ = false

-- The {ID, Name} block that checkVODoc writes for a new parent.
abbrev pub parent_block : External → VoRow → Json
parent_block ext v = obj (field "ID" (num (ext.format_int v.vo_id)) (field "Name" (str v.name) end))

-- The walk has one round for each live VO at most, and one to end.
abbrev pub walk_fuel : Database → ℕ
walk_fuel db = suc (length db.vos)

abbrev pub check_new_parent : External → Database → String → Fields → Fields → Result Fields
check_new_parent ext db name doc prev = do
  guard (not (str_eq (parent_name doc) name)) (bad_parent (parent_name doc))
  parent ← need (get_vo (parent_name doc) db) (bad_parent (parent_name doc))
  guard (is_clear (walk_up ext db (walk_fuel db) (parent_name doc ∷ name ∷ []) parent))
      (bad_parent (parent_name doc))
  require_resolved_vo_contacts db (get "Contacts" doc) (get "Contacts" prev)
  ok (put "ParentVO" (parent_block ext parent) doc)

abbrev pub restore_parent : Option Json → Fields → Fields
restore_parent none doc = doc
restore_parent (some v) doc = put "ParentVO" v doc

-- checkVODoc: the document with its parent block rewritten. `prev` is empty for a new VO.
unfoldable pub check_vo_doc : External → Database → String → Fields → Fields → Result Fields
check_vo_doc ext db name doc prev = elim (get "ParentVO" doc) [
  | none ↦ (do require_resolved_vo_contacts db (get "Contacts" doc) (get "Contacts" prev); ok doc)
  | some pv ↦
      if str_eq (parent_name doc) ""
      then err (bad_parent "")
      else if str_eq (parent_name doc) (parent_name prev)
      then (do
        require_resolved_vo_contacts db (get "Contacts" doc) (get "Contacts" prev)
        ok (restore_parent (get "ParentVO" prev) doc))
      else check_new_parent ext db name doc prev
]

-- `had, ok := curDoc[k]; ok && had == nil`.
abbrev pub is_null : Option Json → Bool
is_null (some null) = true
is_null _ = false

-- The loop that drops the keys set to null, but for a null that the stored document has.
unfoldable pub drop_nulls : Fields → Fields → Fields
drop_nulls cur end = end
drop_nulls cur (field k v doc) =
    let rest = drop_nulls cur doc in
    if is_null (some v) && not (is_null (get k cur)) then rest else field k v rest

-- `delete(doc, key)`.
unfoldable pub remove : String → Fields → Fields
remove k end = end
remove k (field j v fs) = let rest = remove k fs in if str_eq j k then rest else field j v rest

-- The ID of a VO is never edited.
abbrev pub keep_id : Option Json → Fields → Fields
keep_id (some id) doc = put "ID" id doc
keep_id none doc = remove "ID" doc

-- topology.IDOrGen.
unfoldable pub id_or_gen : External → Option ℕ → String → ℕ
id_or_gen ext none name = gen_id ext name
id_or_gen ext (some id) name = id

unfoldable pub update_vo :
    External → Change → String → Fields → VoRow → Fields → Database → Result Database
update_vo ext p name doc cur cur_doc db = do
  checked ← check_vo_doc ext db name (keep_id (get "ID" cur_doc) doc) cur_doc
  raw ← need (ext.patch_vo cur.raw checked) bad_vo_document
  update_vo_fields p.target_name (id_or_gen ext (ext.vo_head raw).0 name) (ext.vo_head raw).1 raw db

-- voNameRE: ^[A-Za-z0-9][A-Za-z0-9_.-]*$.
abbrev pub is_alnum : ℕ → Bool
is_alnum c = leb b'A' c && leb c b'Z' || leb b'a' c && leb c b'z' || leb b'0' c && leb c b'9'

abbrev pub all_name_chars : String → Bool
all_name_chars String.[] = true
all_name_chars (String.◌∷◌ c s) =
    (is_alnum (code c) || code c == b'_' || code c == b'.' || code c == b'-') && all_name_chars s

unfoldable pub is_vo_name : String → Bool
is_vo_name String.[] = false
is_vo_name (String.◌∷◌ c s) = is_alnum (code c) && all_name_chars s

unfoldable pub create_vo : External → String → Fields → Database → Result Database
create_vo ext name doc db = do
  guard (is_vo_name name) (bad_vo_name name)
  checked ← check_vo_doc ext db name doc end
  raw ← need (ext.new_vo checked) bad_vo_document
  insert_vo name (id_or_gen ext (ext.vo_head raw).0 name) (ext.vo_head raw).1 raw db

-- The stored row and document that an update starts from.
abbrev pub stored_document : External → Option VoRow → Result Fields
stored_document ext none = ok end
stored_document ext (some v) = need (ext.vo_document v.raw) bad_vo_document

abbrev pub current_vo : Change → Database → Option VoRow
current_vo p db = if is_update p.operation then get_vo p.target_name db else none

unfoldable pub save_vo : External → Change → VoProposal → Database → Result Database
save_vo ext p vp db = do
  guard (not (str_eq vp.name "")) name_required
  doc ← need (map_from_json ext.number vp.vo) bad_vo_document
  cur_doc ← stored_document ext (current_vo p db)
  if is_update p.operation
      then (do
        guard (str_eq vp.name p.target_name) name_is_fixed
        cur ← need (current_vo p db) (not_found p.target_name)
        update_vo ext p vp.name (drop_nulls cur_doc doc) cur cur_doc db)
      else create_vo ext vp.name (drop_nulls cur_doc doc) db

-- `pm, ok := doc["ParentVO"].(map…); ok && pm["Name"] == name`.
abbrev pub is_text : String → Option Json → Bool
is_text s (some (str t)) = str_eq t s
is_text s _ = false

abbrev pub names_parent : String → Option Fields → Bool
names_parent name none = false
names_parent name (some pm) = is_text name (get "Name" pm)

abbrev pub is_child : External → String → VoRow → Bool
is_child ext name v = elim (ext.vo_document v.raw) [
  | none ↦ false
  | some doc ↦ is_none v.deleted_at && names_parent name (as_object (get "ParentVO" doc))
]

-- childVOs, as the rows.
unfoldable pub child_vos : External → String → Database → List VoRow
child_vos ext name db = select (is_child ext name) db.vos

-- deleteVO.
unfoldable pub delete_vo : External → String → ℕ → Database → Result Database
delete_vo ext name actor db =
    let rs = length (resources_allowing_vo name db) in
    let ps = length (projects_sponsored_by_vo name db) in
    let kids = length (child_vos ext name db) in
    do
      guard (rs + ps + kids == 0) (vo_in_use rs ps kids)
      ok (soft_delete_vo_by_name name (some actor) db)

-- applyVOProposal.
unfoldable pub apply_vo : External → Change → ℕ → Database → Result Database
apply_vo ext p actor db =
    if is_delete p.operation
    then delete_vo ext p.target_name actor db
    else unmarshal ext.decode_vo p.proposed_state >>= λ vp. save_vo ext p vp db
