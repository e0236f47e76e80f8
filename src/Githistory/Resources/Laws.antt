-- ===== src/Githistory/Resources/Laws.antt =====
-- The changes that a commit is decomposed into lead from the old resources to the new ones.
use mathlib.Core.Path.{subst}
use topology_v.Base.{
  ◌||◌, String, true, false, not, ◌&&◌, ◌≡◌, refl, sym, ap, ◌∙◌, Option, none, some, List, [], ◌∷◌,
  ◌++◌, str_eq, eq_iff, arith, Bool-cases, inl, inr, if◌then◌else◌,
}
use topology_v.Models.{delete}
use topology_v.Json.{Json}
use topology_v.External.{External}
use topology_v.Payloads.{Resource}
use topology_v.Githistory.Resources.{
  EntityChange, Encoding, Resources, resource_at, is_key, old_change, old_changes, new_changes,
  decompose_resources,
}

-- The abstract view of a resource group: the state that is on record for each name.
abbrev pub View : Type 0
View = String → Option Json

abbrev pub set_view : String → Option Json → View → View
set_view k v f j = if str_eq k j then v else f j

-- What a change does to the view: a delete by its old name, a create or an update by its new one.
abbrev pub replay_one : EntityChange → View → View
replay_one c f = elim c.operation [
  | delete ↦ set_view c.old_name none f
  | _ ↦ set_view c.new_name c.after f
]

abbrev pub replay : List EntityChange → View → View
replay [] f = f
replay (c ∷ cs) f = replay cs (replay_one c f)

-- The payloads of the resources of a group.
abbrev pub view : Encoding → String → Resources → View
view enc group [] k = none
view enc group ((j, r) ∷ m) k =
    let rest = view enc group m k in
    if str_eq j k then some (enc.resource_payload group j r) else rest

-- The keys of a Go map.
abbrev pub IsMap : Resources → Type 0
IsMap [] = Unit {0}
IsMap ((j, r) ∷ m) = (is_key j m ≡ false) × IsMap m

-- Equal resources have equal payloads.
abbrev pub SamePayload : Encoding → Type 0
SamePayload enc =
    (a b : Resource) (group name : String)
    → enc.same_resource a b ≡ true
    → enc.resource_payload group name a ≡ enc.resource_payload group name b

replay-append :
    (cs ds : List EntityChange) (f : View) → replay (cs ++ ds) f ≡ replay ds (replay cs f)
replay-append [] ds f = refl
replay-append (c ∷ cs) ds f = replay-append cs ds (replay_one c f)

view_missing :
    (enc : Encoding) (group : String) (m : Resources) (k : String)
    → is_key k m ≡ false
    → view enc group m k ≡ none
view_missing enc group [] k h = refl
view_missing enc group ((j, r) ∷ m) k h = ground (arith, view_missing enc group m k)

resource_at-view :
    (enc : Encoding) (group : String) (m : Resources) (k : String)
    → view enc group m k
      ≡ elim (resource_at k m) [ none ↦ none | some r ↦ some (enc.resource_payload group k r) ]
resource_at-view enc group [] k = refl
resource_at-view enc group ((j, r) ∷ m) k =
    ground (arith, eq_iff j k, resource_at-view enc group m k)

-- A name that the second loop creates is not one that it was to leave alone.
new_apart :
    (r : Resource) (j k : String) (old m : Resources)
    → is_key j old ≡ false
    → (is_key k old || not (is_key k ((j, r) ∷ m))) ≡ true
    → str_eq j k ≡ false
new_apart r j k old m t h = elim (Bool-cases (str_eq j k)) [
  | inr a ↦ a
  | inl a ↦ absurd (ground (arith, a, h, subst (λ x. is_key x old ≡ false) ((eq_iff j k).0 a) t))
]

module _ (ext : External) (enc : Encoding) (old_group new_group : String) where
  -- A round of the first loop leaves every other name alone.
  old_change_other :
      (name : String) (r : Resource) (o : Option Resource) (f : View) (k : String)
      → str_eq name k ≡ false
      → replay (old_change ext enc old_group new_group name r o) f k ≡ f k
  old_change_other name r none f k h = rw h refl
  old_change_other name r (some new) f k h = ground (arith, h)

  -- At its own name it leaves the new state, where the view had the old one.
  old_change_self :
      SamePayload enc
      → (name : String) (r : Resource) (o : Option Resource) (f : View)
      → f name ≡ some (enc.resource_payload old_group name r)
      → replay (old_change ext enc old_group new_group name r o) f name
        ≡ elim o [ none ↦ none | some x ↦ some (enc.resource_payload new_group name x) ]
  old_change_self same name r none f h = rw ((eq_iff name name).1 refl) refl
  old_change_self same name r (some new) f h =
      elim (Bool-cases (enc.same_resource r new && str_eq old_group new_group)) [
        | inr t ↦ rw (t, (eq_iff name name).1 refl) refl
        | inl t ↦
            let equal : enc.resource_payload old_group name r
                ≡ enc.resource_payload old_group name new =
              same r new old_group name (ground (arith, t)) in
            let group : old_group ≡ new_group =
              (eq_iff old_group new_group).0 (ground (arith, t)) in
            rw t (h ∙ (ap some equal ∙ ap (λ x. some (enc.resource_payload x name new)) group))
      ]

  old_changes_other :
      (new m : Resources) (f : View) (k : String)
      → is_key k m ≡ false
      → replay (old_changes ext enc old_group new_group new m) f k ≡ f k
  unfolding old_changes
  old_changes_other new [] f k h = refl
  old_changes_other new ((j, r) ∷ m) f k h =
      let first = old_change ext enc old_group new_group j r (resource_at j new) in
      let rest = old_changes ext enc old_group new_group new m in
      ap (λ v. v k) (replay-append first rest f)
      ∙ (old_changes_other new m (replay first f) k (ground (arith, h))
          ∙ old_change_other j r (resource_at j new) f k (ground (arith, h)))

  -- The first loop brings the names that it passes to their new states.
  old_changes_self :
      SamePayload enc
      → (new m : Resources) (f : View) (k : String) → IsMap m
      → is_key k m ≡ true
      → f k ≡ view enc old_group m k
      → replay (old_changes ext enc old_group new_group new m) f k ≡ view enc new_group new k
  unfolding old_changes
  old_changes_self same new [] f k h i e = cc
  old_changes_self same new ((j, r) ∷ m) f k (h, hs) i e =
      let first = old_change ext enc old_group new_group j r (resource_at j new) in
      let rest = old_changes ext enc old_group new_group new m in
      elim (Bool-cases (str_eq j k)) [
        | inl t ↦
            let at_k : j ≡ k = (eq_iff j k).0 t in
            let was : f j ≡ some (enc.resource_payload old_group j r) =
              ap f at_k ∙ (e ∙ rw t refl) in
            ap (λ v. v k) (replay-append first rest f)
            ∙ (old_changes_other new m (replay first f) k (subst (λ x. is_key x m ≡ false) at_k h)
                ∙ (ap (replay first f) (sym at_k)
                    ∙ (old_change_self same j r (resource_at j new) f was
                        ∙ (sym (resource_at-view enc new_group new j)
                            ∙ ap (view enc new_group new) at_k))))
        | inr t ↦
            ap (λ v. v k) (replay-append first rest f)
            ∙ old_changes_self same new m (replay first f) k hs (rw t at i)
                (old_change_other j r (resource_at j new) f k t ∙ rw t at e)
      ]

  -- The second loop leaves alone what the first one has seen, and what is not among the new.
  new_changes_other :
      (old m : Resources) (f : View) (k : String)
      → (is_key k old || not (is_key k m)) ≡ true
      → replay (new_changes ext enc old_group new_group old m) f k ≡ f k
  unfolding new_changes
  new_changes_other old [] f k h = refl
  new_changes_other old ((j, r) ∷ m) f k h = elim (Bool-cases (is_key j old)) [
    | inl t ↦ rw t (new_changes_other old m f k (ground (arith, h)))
    | inr t ↦
        let apart : str_eq j k ≡ false = new_apart r j k old m t h in
        rw t (
          new_changes_other old m (set_view j (some (enc.resource_payload new_group j r)) f) k
            (ground (arith, h, apart))
          ∙ rw apart refl)
  ]

  new_changes_self :
      (old m : Resources) (f : View) (k : String)
      → IsMap m
      → is_key k old ≡ false
      → is_key k m ≡ true
      → replay (new_changes ext enc old_group new_group old m) f k ≡ view enc new_group m k
  unfolding new_changes
  new_changes_self old [] f k h o i = cc
  new_changes_self old ((j, r) ∷ m) f k (h, hs) o i = elim (Bool-cases (str_eq j k)) [
    | inl t ↦
        let at_k : j ≡ k = (eq_iff j k).0 t in
        let unseen : is_key j old ≡ false = ap (λ x. is_key x old) at_k ∙ o in
        let last : (is_key k old || not (is_key k m)) ≡ true =
          ground (arith, o, subst (λ x. is_key x m ≡ false) at_k h) in
        rw (unseen, t)
          (new_changes_other old m (set_view j (some (enc.resource_payload new_group j r)) f) k last
            ∙ rw t refl)
    | inr t ↦ elim (Bool-cases (is_key j old)) [
      | inl seen ↦ rw (seen, t) (new_changes_self old m f k hs o (rw t at i))
      | inr seen ↦
          rw (seen, t)
            (new_changes_self old m (set_view j (some (enc.resource_payload new_group j r)) f) k hs
              o (rw t at i))
    ]
  ]

  -- The changes of a commit, replayed on what was on record for the old resources of a group, leave
  -- what is on record for the new ones, under every name: whatever the order in which the maps are
  -- walked, whether or not the group was renamed, and whatever resources were added, changed or
  -- deleted; where the keys of a map are distinct, and equal resources have equal
  -- payloads.
  pub decompose_resources-replay :
      SamePayload enc
      → (old new : Resources) → IsMap old
      → IsMap new
      → (k : String)
      → replay (decompose_resources ext enc old_group new_group old new) (view enc old_group old) k
        ≡ view enc new_group new k
  unfolding decompose_resources
  decompose_resources-replay same old new h g k =
      let first = old_changes ext enc old_group new_group new old in
      let second = new_changes ext enc old_group new_group old new in
      let start = view enc old_group old in
      ap (λ v. v k) (replay-append first second start) ∙ elim (Bool-cases (is_key k old)) [
        | inl t ↦
            new_changes_other old new (replay first start) k (rw t refl)
            ∙ old_changes_self same new old start k h t refl
        | inr t ↦ elim (Bool-cases (is_key k new)) [
          | inl n ↦ new_changes_self old new (replay first start) k g t n
          | inr n ↦
              new_changes_other old new (replay first start) k (rw (t, n) refl)
              ∙ (old_changes_other new old start k t
                  ∙ (view_missing enc old_group old k t ∙ sym (view_missing enc new_group new k n)))
        ]
      ]
