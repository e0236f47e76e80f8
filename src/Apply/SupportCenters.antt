-- ===== src/Apply/SupportCenters.antt =====
-- A rename of a support center (applySupportCenterProposal of internal/handlers/support_centers.go).
use topology_v.Base.{
  ℕ, String, Bool, false, not, ◌&&◌, Option, List, [], ◌∷◌, map, ◌≡◌, refl, ap, ◌∙◌, arith, str_eq,
  select, update_where, is_none, if◌then◌else◌,
}
use topology_v.Base.Results.{ok, >>=-eq-ok}
use topology_v.Json.{Json}
use topology_v.Table.{Row}
use topology_v.Db.{Database, GroupBody}
use topology_v.Payloads.{SupportCenterProposal}
use topology_v.Queries.Catalogue.{
  uses_support_center, groups_using_support_center, repoint_resource_group_support_center,
  update_support_center_fields,
}
use topology_v.Apply.Change.{Change}
use topology_v.Apply.Resources.{json_or_nil}
use topology_v.Apply.Catalogue.{update_support_center}

repointed :
    (old new : String) (f : Row ℕ GroupBody → Row ℕ GroupBody) (gs : List (Row ℕ GroupBody))
    → ((g : Row ℕ GroupBody) → (f g).body.support_center ≡ new)
    → str_eq new old ≡ false
    → select (uses_support_center old) (update_where (uses_support_center old) f gs) ≡ []
repointed old new f [] k n = refl
repointed old new f (g ∷ gs) k n = ground (arith, k g, n, repointed old new f gs k n)

-- A group as it is after the rename: one that is live and uses the old name uses the new one, as of
-- the time of the request, and is otherwise the same; any other is untouched.
abbrev pub taken_along : String → String → ℕ → Row ℕ GroupBody → Row ℕ GroupBody
taken_along old new now g =
    if is_none g.deleted_at && not (str_eq old "") && str_eq g.body.support_center old
    then record g { body = record (g.body) { support_center = new }; updated_at = now }
    else g

update_where-map :
    {A : Type 0} (p : A → Bool) (f : A → A) (xs : List A)
    → update_where p f xs ≡ map (λ x. if p x then f x else x) xs
update_where-map p f [] = refl
update_where-map p f (x ∷ xs) = ap (λ ys. (if p x then f x else x) ∷ ys) (update_where-map p f xs)

-- The row of the support center is all that changes before the groups.
update_fields-same :
    (target name long community description : String) (extra : Option Json) (db mid : Database)
    → update_support_center_fields target name long community description extra db ≡ ok mid
    → (mid.resource_groups ≡ db.resource_groups) × (mid.now ≡ db.now)
unfolding update_support_center_fields
update_fields-same target name long community description extra db mid e =
    (ground (arith, e), ground (arith, e))

-- A rename of a support center takes along every live resource group that uses it: these use the new
-- name afterwards, none the old one, and nothing else of any group changes but the time of its
-- change. (A group without a support center uses none.)
pub update_support_center-renamed :
    (p : Change) (sp : SupportCenterProposal) (db db' : Database)
    → update_support_center p sp db ≡ ok db'
    → str_eq sp.name p.target_name ≡ false
    → (db'.resource_groups ≡ map (taken_along p.target_name sp.name db.now) db.resource_groups)
      × (groups_using_support_center p.target_name db' ≡ [])
unfolding update_support_center groups_using_support_center repoint_resource_group_support_center
update_support_center-renamed p sp db db' e n =
    let (mid, u, e1) =
      >>=-eq-ok
        (update_support_center_fields p.target_name sp.name sp.long_name sp.community sp.description
          (json_or_nil sp.extra) db)
        _ e in
    let (groups, time) = update_fields-same p.target_name _ _ _ _ _ db mid u in
    let q : db' ≡ repoint_resource_group_support_center p.target_name sp.name mid =
      ground (arith, e1, n) in
    let f : ℕ → Row ℕ GroupBody → Row ℕ GroupBody =
      λ now g. record g { body = record (g.body) { support_center = sp.name }; updated_at = now } in
    (
      ap (λ d. d.resource_groups) q
          ∙ update_where-map (uses_support_center p.target_name) (f mid.now) mid.resource_groups
          ∙ ap (λ gs. map (taken_along p.target_name sp.name mid.now) gs) groups
          ∙ ap (λ t. map (taken_along p.target_name sp.name t) db.resource_groups) time,
      rw q (repointed p.target_name sp.name (f mid.now) mid.resource_groups (λ g. refl) n),
    )
