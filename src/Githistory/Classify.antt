-- ===== src/Githistory/Classify.antt =====
-- classifyPath of internal/githistory/classify.go: the entity that a changed path stands for.
use Prim.Native.Char.{Char}
use topology_v.Base.{
  String, Bool, false, not, ◌≡◌, refl, ◌&&◌, Option, none, some, List, [], ◌∷◌, str_eq, is_none,
  if◌then◌else◌,
}
use topology_v.Base.Chars.{chars, of_chars}
use topology_v.Models.{Kind, facility, site, resource_group, project}
use topology_v.Accounts.Text.{is_char}

-- classified.
pub record Classified : Type 0 where
  pub kind : Kind
  pub name : String
  pub site_name : String
  pub facility_name : String

abbrev add_to_first : Char → List (List Char) → List (List Char)
add_to_first c [] = (c ∷ []) ∷ []
add_to_first c (p ∷ ps) = (c ∷ p) ∷ ps

-- strings.Split at '/'.
abbrev pub split : List Char → List (List Char)
split [] = [] ∷ []
split (c ∷ cs) = let rest = split cs in if is_char b'/' c then [] ∷ rest else add_to_first c rest

abbrev after : Char → Option (List Char) → Option (List Char)
after c none = none
after c (some cs) = some (c ∷ cs)

-- strings.TrimSuffix, `none` where the text has not the suffix.
abbrev pub strip_suffix : String → List Char → Option (List Char)
unfolding of_chars
strip_suffix suffix [] = if str_eq "" suffix then some [] else none
strip_suffix suffix (c ∷ cs) =
    let rest = after c (strip_suffix suffix cs) in
    if str_eq (of_chars (c ∷ cs)) suffix then some [] else rest

abbrev starts_with_underscore : List Char → Bool
starts_with_underscore [] = false
starts_with_underscore (c ∷ cs) = is_char b'_' c

abbrev is_text : String → List Char → Bool
unfolding of_chars
is_text s cs = str_eq (of_chars cs) s

abbrev group_of : String → Option (List Char) → Option Classified
unfolding of_chars
group_of site_name none = none
group_of site_name (some name) = some (record {
  kind = resource_group;
  name = of_chars name;
  site_name = site_name;
  facility_name = "";
})

abbrev project_of : Option (List Char) → Option Classified
unfolding of_chars
project_of none = none
project_of (some name) =
    some (record { kind = project; name = of_chars name; site_name = ""; facility_name = "" })

-- The cases of the switch, by the number of parts.
abbrev classify_parts : List (List Char) → Option Classified
unfolding of_chars strip_suffix is_text group_of project_of
classify_parts (a ∷ b ∷ []) =
    if is_text "projects" a && not (starts_with_underscore b)
    then project_of (strip_suffix ".yaml" b)
    else none
classify_parts (a ∷ b ∷ c ∷ []) =
    if is_text "topology" a && is_text "FACILITY.yaml" c
    then some (record { kind = facility; name = of_chars b; site_name = ""; facility_name = "" })
    else none
classify_parts (a ∷ b ∷ c ∷ d ∷ []) =
    if is_text "topology" a
    then if is_text "SITE.yaml" d
      then some
          (record { kind = site; name = of_chars c; site_name = ""; facility_name = of_chars b })
      else if is_none (strip_suffix "_downtime.yaml" d)
      then group_of (of_chars c) (strip_suffix ".yaml" d)
      else none
    else none
classify_parts _ = none

unfoldable pub classify_path : String → Option Classified
unfolding chars classify_parts
classify_path path = classify_parts (split (chars path))

-- The shapes that are understood, and two that are not.
facility_path :
    classify_path "topology/F/FACILITY.yaml"
    ≡ some (record { kind = facility; name = "F"; site_name = ""; facility_name = "" })
unfolding classify_path
facility_path = refl

downtime_path : classify_path "topology/F/S/G_downtime.yaml" ≡ none
unfolding classify_path
downtime_path = refl

group_path :
    classify_path "topology/F/S/G.yaml"
    ≡ some (record { kind = resource_group; name = "G"; site_name = "S"; facility_name = "" })
unfolding classify_path
group_path = refl

template_path : classify_path "projects/_template.yaml" ≡ none
unfolding classify_path
template_path = refl
