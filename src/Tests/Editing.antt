-- ===== src/Tests/Editing.antt =====
-- The theorems on merging and on roles, at concrete payloads and role sets.
use topology_v.Base.{
  str_eq, eq_iff, true≢false, false, sym, ◌∙◌, none, some, List, [], ◌∷◌, ◌≡◌, ◌≢◌, refl, any, ◌||◌,
  if◌then◌else◌, String,
}
use topology_v.Models.{Role, manager, user, resource}
use topology_v.Models.Roles.{
  is_manager, is_administrator, is_manager_or_admin, require_role, privileged_iff,
}
use topology_v.Json.{str, obj, Fields, end, field, get, has, as_object}
use topology_v.Merge.{merge_fields, merge_service}
use topology_v.Merge.Laws.{merge_fields-resource, merge_fields-services, merge_fields-service_field}

-- A stored resource with one service, and an edit of the service's description.
abbrev stored_service : Fields
stored_service = field "Description" (str "old") (field "Details" (str "kept") end)

abbrev new_service : Fields
new_service = field "Description" (str "new") end

abbrev stored_services : Fields
stored_services = field "CE" (obj stored_service) (field "SE" (obj end) end)

abbrev new_services : Fields
new_services = field "CE" (obj new_service) end

abbrev stored_inner : Fields
stored_inner = field "FQDN" (str "a.example") (field "Services" (obj stored_services) end)

abbrev new_inner : Fields
new_inner = field "Services" (obj new_services) end

abbrev stored : Fields
stored = field "name" (str "R") (field "resource" (obj stored_inner) end)

abbrev edit : Fields
edit = field "resource" (obj new_inner) end

at_resource :
    (get "resource" stored ≡ some (obj stored_inner)) × (get "resource" edit ≡ some (obj new_inner))
unfolding get
at_resource = (refl, refl)

at_services :
    (get "Services" stored_inner ≡ some (obj stored_services))
    × (get "Services" new_inner ≡ some (obj new_services))
unfolding get
at_services = (refl, refl)

at_service :
    (get "CE" stored_services ≡ some (obj stored_service))
    × (get "CE" new_services ≡ some (obj new_service))
unfolding get
at_service = (refl, refl)

pub apart : (a b : String) → str_eq a b ≡ false → a ≢ b
apart a b n e = true≢false (sym ((eq_iff a b).1 e) ∙ n)

no_resource : ◌≢◌ {A = String} "name" "resource"
no_resource = apart "name" "resource" refl

no_vo : ◌≢◌ {A = String} "name" "vo"
no_vo = apart "name" "vo" refl

no_services : ◌≢◌ {A = String} "FQDN" "Services"
no_services = apart "FQDN" "Services" refl

merge_fields-resource_example :
    (inner : Fields) × (get "resource" (merge_fields resource stored edit) ≡ some (obj inner))
    × (get "FQDN" inner
        ≡ (if has "FQDN" new_inner then get "FQDN" new_inner else get "FQDN" stored_inner))
merge_fields-resource_example =
    merge_fields-resource stored edit "FQDN" at_resource.0 at_resource.1 no_services

merge_fields-services_example :
    (inner services : Fields) × (get "resource" (merge_fields resource stored edit)
      ≡ some (obj inner))
    × (get "Services" inner ≡ some (obj services))
    × (get "SE" services ≡ elim (get "SE" new_services) [
      | none ↦ none
      | some svc ↦ some (merge_service (as_object (get "SE" stored_services)) svc)
    ])
merge_fields-services_example =
    merge_fields-services stored edit "SE" at_resource.0 at_resource.1 at_services.0 at_services.1

merge_fields-service_field_example :
    (inner services svc : Fields) × (get "resource" (merge_fields resource stored edit)
      ≡ some (obj inner))
    × (get "Services" inner ≡ some (obj services))
    × (get "CE" services ≡ some (obj svc))
    × (get "Details" svc ≡ (
        if has "Details" new_service
        then get "Details" new_service
        else get "Details" stored_service))
merge_fields-service_field_example =
    merge_fields-service_field stored edit "CE" "Details" at_resource.0 at_resource.1 at_services.0
      at_services.1 at_service.0 at_service.1

abbrev roles : List Role
roles = user ∷ manager ∷ []

privileged_iff_example :
    (is_manager_or_admin roles ≡ any (λ r. is_manager r || is_administrator r) roles)
    × (require_role (λ r. is_manager r || is_administrator r) roles
        ≡ any (λ r. is_manager r || is_administrator r) roles)
    × (require_role is_manager roles ≡ any (λ r. is_manager r || is_administrator r) roles)
    × (require_role (λ r. false) roles ≡ any is_administrator roles)
privileged_iff_example = privileged_iff roles
