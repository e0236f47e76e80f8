-- ===== src/Json.antt =====
-- JSON values as Go decodes them (map[string]interface{}, []interface{}, …), and the conversions
-- of internal/conv/conv.go. A number keeps its text, as json.Number does; an object is an
-- association list in which the first entry for a key counts.
pub mod Laws
use topology_v.Base.{
  String, Bool, true, false, Option, none, some, str_eq, if◌then◌else◌, is_none, not,
}

mutual
  pub data Json : Type 0 where
    null : Json
    bool : Bool → Json
    num : String → Json
    str : String → Json
    arr : Items → Json
    obj : Fields → Json

  pub data Items : Type 0 where
    nil : Items
    cons : Json → Items → Items

  pub data Fields : Type 0 where
    end : Fields
    field : String → Json → Fields → Fields

-- `m[key]`.
unfoldable pub get : String → Fields → Option Json
get k end = none
get k (field j v fs) = let rest = get k fs in if str_eq j k then some v else rest

-- `m[key] = v`.
unfoldable pub put : String → Json → Fields → Fields
put k v end = field k v end
put k v (field j w fs) =
    let rest = put k v fs in if str_eq j k then field k v fs else field j w rest

-- `_, present := m[key]`.
abbrev pub has : String → Fields → Bool
has k fs = not (is_none (get k fs))

-- `v.(map[string]interface{})`, where a missing key gives no object either.
abbrev pub as_object : Option Json → Option Fields
as_object (some (obj fs)) = some fs
as_object _ = none

-- Numbers are the library's: json.Number's Int64 and Float64, and how the result prints again.
module _ (number : String → Json) where
  -- normalizeNumbers.
  unfoldable mutual
    pub normalize_numbers : Json → Json
    normalize_numbers (num s) = number s
    normalize_numbers (arr xs) = arr (normalize_items xs)
    normalize_numbers (obj fs) = obj (normalize_fields fs)
    normalize_numbers null = null
    normalize_numbers (bool b) = bool b
    normalize_numbers (str s) = str s

    pub normalize_items : Items → Items
    normalize_items nil = nil
    normalize_items (cons v xs) = cons (normalize_numbers v) (normalize_items xs)

    pub normalize_fields : Fields → Fields
    normalize_fields end = end
    normalize_fields (field k v fs) = field k (normalize_numbers v) (normalize_fields fs)

  -- MapFromJSON: no map for empty input and for what is not an object.
  unfoldable pub map_from_json : Option Json → Option Fields
  unfolding normalize_fields
  map_from_json (some (obj fs)) = some (normalize_fields fs)
  map_from_json _ = none
