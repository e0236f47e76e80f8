-- ===== src/Apply/VoAncestors.antt =====
-- The cycle check of checkVODoc (internal/handlers/vos.go) against the relation that it guards.
use topology_v.Base.{
  zero, suc, String, refl, [], eq_iff, true, false, some, List, ◌∷◌, ◌≡◌, arith, str_eq, ℕ, not,
  Bool-cases, inl, inr,
}
use topology_v.Base.Results.{ok, guard, need, >>=-eq-ok, guard-eq-ok, need-eq-ok}
use topology_v.Json.{Fields}
use topology_v.External.{External}
use topology_v.Errors.{bad_parent}
use topology_v.Db.{Database, VoRow}
use topology_v.Queries.Catalogue.{get_vo}
use topology_v.Apply.Vos.{
  clear, cycle, out_of_fuel, Walk, walk_up, walk_fuel, is_clear, is_member, parent_name,
  check_new_parent,
}

-- The name is above the VO: the VO's document names it as the parent, or it is above the live VO
-- that the document names.
pub data Above (ext : External) (db : Database) : VoRow → String → Type 0 where
  parent :
      {v : VoRow} (doc : Fields)
      → ext.vo_document v.raw ≡ some doc
      → str_eq (parent_name doc) "" ≡ false
      → Above ext db v (parent_name doc)
  ancestor :
      {v w : VoRow} {n : String} (doc : Fields)
      → ext.vo_document v.raw ≡ some doc
      → str_eq (parent_name doc) "" ≡ false
      → get_vo (parent_name doc) db ≡ some w
      → Above ext db w n
      → Above ext db v n

-- A walk that ends at the top has met none of the names that it was to avoid.
walk_up-avoids :
    (ext : External) (db : Database) (fuel : ℕ) (seen : List String) (cur : VoRow) (n : String)
    → walk_up ext db fuel seen cur ≡ clear
    → is_member n seen ≡ true
    → Above ext db cur n
    → ⊥
unfolding walk_up
walk_up-avoids ext db zero seen cur n e m a = absurd cc
walk_up-avoids ext db (suc fuel) seen cur n e m (parent doc d t) =
    absurd (ground (arith, e, d, t, m))
walk_up-avoids ext db (suc fuel) seen cur n e m (ancestor {w = w} doc d t g a) =
    elim (Bool-cases (is_member (parent_name doc) seen)) [
      | inl s ↦ absurd (ground (arith, e, d, t, s))
      | inr s ↦
          walk_up-avoids ext db fuel (parent_name doc ∷ seen) w n (rw (walk_up, d, t, s, g) at e)
            (ground (arith, m)) a
    ]

clear-eq : (w : Walk) → is_clear w ≡ true → w ≡ clear
clear-eq clear h = refl
clear-eq cycle h = cc
clear-eq out_of_fuel h = cc

-- A new parent that checkVODoc accepts for a VO is a live VO, is not the VO itself, and has
-- neither the VO nor itself above it: the edit closes no loop.
pub check_new_parent-acyclic :
    (ext : External) (db : Database) (name : String) (doc prev out : Fields)
    → check_new_parent ext db name doc prev ≡ ok out
    → (v : VoRow) × (get_vo (parent_name doc) db ≡ some v)
      × (str_eq (parent_name doc) name ≡ false)
      × (¬ Above ext db v name)
      × (¬ Above ext db v (parent_name doc))
check_new_parent-acyclic ext db name doc prev out e =
    let (_, n, e1) =
      >>=-eq-ok (guard (not (str_eq (parent_name doc) name)) (bad_parent (parent_name doc))) _ e in
    let (v, g, e2) =
      >>=-eq-ok (need (get_vo (parent_name doc) db) (bad_parent (parent_name doc))) _ e1 in
    let seen = parent_name doc ∷ name ∷ [] in
    let walk = walk_up ext db (walk_fuel db) seen v in
    let (_, c, _) = >>=-eq-ok (guard (is_clear walk) (bad_parent (parent_name doc))) _ e2 in
    let w = clear-eq walk (guard-eq-ok _ _ c) in
    (
      v,
      need-eq-ok _ _ g,
      ground (arith, guard-eq-ok _ _ n),
      walk_up-avoids ext db (walk_fuel db) seen v name w
          (ground (arith, (eq_iff name name).1 refl)),
      walk_up-avoids ext db (walk_fuel db) seen v (parent_name doc) w
          (ground (arith, (eq_iff (parent_name doc) (parent_name doc)).1 refl)),
    )
