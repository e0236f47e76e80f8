-- ===== src/Merge/Laws.antt =====
-- What a merge keeps and what it takes over.
use topology_v.Base.{
  String, ◌≡◌, ◌≢◌, refl, ◌∙◌, Option, none, some, arith, str_eq, eq_iff, if◌then◌else◌, Bool-cases,
  inl, inr,
}
use topology_v.Models.{Kind, resource, vo}
use topology_v.Json.{Json, obj, Fields, end, field, get, has, as_object}
use topology_v.Json.Laws.{get-put}
use topology_v.Merge.{
  merge_shallow, merge_service, merge_entries, merge_service_entries, set_services, merge_resource,
  merge_under, merge_fields,
}

pub get-merge_shallow :
    (k : String) (current incoming : Fields)
    → get k (merge_shallow current incoming)
      ≡ (if has k incoming then get k incoming else get k current)
unfolding merge_shallow get
get-merge_shallow k current end = refl
get-merge_shallow k current (field j v incoming) = ground (
  arith,
  eq_iff j k,
  get-put j k v (merge_shallow current incoming),
  get-merge_shallow k current incoming,
)

pub get-merge_entries :
    (k : String) (base incoming : Fields)
    → get k (merge_entries base incoming) ≡ elim (get k incoming) [
      | none ↦ none
      | some svc ↦ some (merge_service (as_object (get k base)) svc)
    ]
unfolding merge_entries get
get-merge_entries k base end = refl
get-merge_entries k base (field j v incoming) = elim (Bool-cases (str_eq j k)) [
  | inl e ↦ rw (e, (eq_iff j k).0 e)
  | inr e ↦ rw e (get-merge_entries k base incoming)
]

get-merge_under :
    (k j : String) (merge : Fields → Fields → Fields) (b i : Option Fields) (m : Fields)
    → k ≢ j
    → get k (merge_under j merge b i m) ≡ get k m
get-merge_under k j merge none i m h = refl
get-merge_under k j merge (some b) none m h = refl
get-merge_under k j merge (some b) (some i) m h =
    ground (arith, eq_iff j k, get-put j k (obj (merge b i)) m)

-- A key that the submission leaves out keeps its value, and a key that it holds takes the
-- submitted value. This goes for every kind of entity and every top-level key but "resource" and
-- "vo", under which those two kinds wrap their own fields.
pub merge_fields-top :
    (kind : Kind) (k : String) (base incoming : Fields)
    → k ≢ "resource"
    → k ≢ "vo"
    → get k (merge_fields kind base incoming)
      ≡ (if has k incoming then get k incoming else get k base)
unfolding merge_fields
merge_fields-top resource k base incoming nr nv =
    get-merge_under k "resource" merge_resource (as_object (get "resource" base))
      (as_object (get "resource" incoming)) (merge_shallow base incoming) nr
    ∙ get-merge_shallow k base incoming
merge_fields-top vo k base incoming nr nv =
    get-merge_under k "vo" merge_shallow (as_object (get "vo" base)) (as_object (get "vo" incoming))
      (merge_shallow base incoming) nv
    ∙ get-merge_shallow k base incoming
merge_fields-top _ k base incoming nr nv = get-merge_shallow k base incoming

get-set_services :
    (k : String) (b i : Option Json) (m : Fields)
    → k ≢ "Services"
    → get k (set_services b i m) ≡ get k m
get-set_services k b none m h = refl
get-set_services k b (some v) m h =
    ground (arith, eq_iff "Services" k, get-put "Services" k (merge_service_entries b v) m)

get-merge_resource :
    (k : String) (b i : Fields)
    → k ≢ "Services"
    → get k (merge_resource b i) ≡ (if has k i then get k i else get k b)
unfolding merge_resource
get-merge_resource k b i h =
    get-set_services k (get "Services" b) (get "Services" i) (merge_shallow b i) h
    ∙ get-merge_shallow k b i

get_services-merge_resource :
    (b i : Fields) {bs is : Fields}
    → get "Services" b ≡ some (obj bs)
    → get "Services" i ≡ some (obj is)
    → get "Services" (merge_resource b i) ≡ some (obj (merge_entries bs is))
unfolding merge_resource merge_service_entries
get_services-merge_resource b i {bs} {is} hb hi =
    rw (hb, hi) (get-put "Services" "Services" (obj (merge_entries bs is)) (merge_shallow b i))

-- Editing a resource merges one level down. Where the stored state and the submission both hold a
-- "resource" object, so does the result, and in it a field other than Services that the submission
-- leaves out keeps its stored value, while one that it holds takes the submitted value.
pub merge_fields-resource :
    (base incoming : Fields) (k : String) {b i : Fields}
    → get "resource" base ≡ some (obj b)
    → get "resource" incoming ≡ some (obj i)
    → k ≢ "Services"
    → (inner : Fields) × (get "resource" (merge_fields resource base incoming) ≡ some (obj inner))
      × (get k inner ≡ (if has k i then get k i else get k b))
unfolding merge_fields
merge_fields-resource base incoming k {b} {i} hb hi n = (
  merge_resource b i,
  rw (hb, hi)
      (get-put "resource" "resource" (obj (merge_resource b i)) (merge_shallow base incoming)),
  get-merge_resource k b i n,
)

-- Where both sides hold a Services object too, the services of the result are those that the
-- submission names: a service that it leaves out is gone, and one that it names is there, merged
-- with the stored one where both are objects.
pub merge_fields-services :
    (base incoming : Fields) (name : String) {b i bs is : Fields}
    → get "resource" base ≡ some (obj b)
    → get "resource" incoming ≡ some (obj i)
    → get "Services" b ≡ some (obj bs)
    → get "Services" i ≡ some (obj is)
    → (inner services : Fields) × (get "resource" (merge_fields resource base incoming)
        ≡ some (obj inner))
      × (get "Services" inner ≡ some (obj services))
      × (get name services ≡ elim (get name is) [
        | none ↦ none
        | some svc ↦ some (merge_service (as_object (get name bs)) svc)
      ])
unfolding merge_fields
merge_fields-services base incoming name {b} {i} {bs} {is} hb hi hbs his = (
  merge_resource b i,
  merge_entries bs is,
  rw (hb, hi)
      (get-put "resource" "resource" (obj (merge_resource b i)) (merge_shallow base incoming)),
  get_services-merge_resource b i hbs his,
  get-merge_entries name bs is,
)

-- Where a service is an object on both sides, it is one in the result, and a field of it that the
-- submission leaves out keeps its stored value, while one that it holds takes the submitted value.
pub merge_fields-service_field :
    (base incoming : Fields) (name k : String) {b i bs is s t : Fields}
    → get "resource" base ≡ some (obj b)
    → get "resource" incoming ≡ some (obj i)
    → get "Services" b ≡ some (obj bs)
    → get "Services" i ≡ some (obj is)
    → get name bs ≡ some (obj s)
    → get name is ≡ some (obj t)
    → (inner services svc : Fields) × (get "resource" (merge_fields resource base incoming)
        ≡ some (obj inner))
      × (get "Services" inner ≡ some (obj services))
      × (get name services ≡ some (obj svc))
      × (get k svc ≡ (if has k t then get k t else get k s))
merge_fields-service_field base incoming name k {b} {i} {bs} {is} {s} {t} hb hi hbs his hs ht =
    let (inner, services, e, f, g) = merge_fields-services base incoming name hb hi hbs his in
    (inner, services, merge_shallow s t, e, f, rw (ht, hs) at g, get-merge_shallow k s t)
