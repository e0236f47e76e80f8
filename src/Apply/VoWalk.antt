-- ===== src/Apply/VoWalk.antt =====
-- The walk up the parents in checkVODoc (internal/handlers/vos.go) ends.
use topology_v.Base.{
  ℕ, zero, suc, ◌≤◌, ◌<◌, String, false, some, List, [], ◌∷◌, ◌≡◌, ◌≢◌, arith, str_eq, eq_iff,
  find?, length, Bool-cases, Option-cases, inl, inr, if◌then◌else◌,
}
use topology_v.External.{External}
use topology_v.Db.{Database, VoRow}
use topology_v.Queries.Catalogue.{get_vo, is_vo}
use topology_v.Apply.Vos.{out_of_fuel, walk_up, walk_fuel, is_member, parent_name}

-- The rows whose name the walk has not seen.
unseen : List String → List VoRow → ℕ
unseen seen [] = 0
unseen seen (v ∷ vs) = let rest = unseen seen vs in if is_member v.name seen then rest else suc rest

unseen-le : (seen : List String) (vs : List VoRow) → unseen seen vs ≤ length vs
unfolding unseen
unseen-le seen [] = omega arith
unseen-le seen (v ∷ vs) = ground (arith, unseen-le seen vs)

unseen_mono :
    (n : String) (seen : List String) (vs : List VoRow) → unseen (n ∷ seen) vs ≤ unseen seen vs
unfolding unseen
unseen_mono n seen [] = omega arith
unseen_mono n seen (v ∷ vs) = ground (arith, unseen_mono n seen vs)

-- A row of a name that is new to the walk is seen from then on.
unseen-less :
    (n : String) (seen : List String) (vs : List VoRow) (w : VoRow)
    → find? (is_vo n) vs ≡ some w
    → is_member n seen ≡ false
    → unseen (n ∷ seen) vs < unseen seen vs
unfolding unseen
unseen-less n seen [] w h k = absurd cc
unseen-less n seen (v ∷ vs) w h k = elim (Bool-cases (str_eq v.name n)) [
  | inl t ↦
      let e : v.name ≡ n = (eq_iff v.name n).0 t in ground (arith, unseen_mono n seen vs, e, k)
  | inr t ↦
      let g : find? (is_vo n) vs ≡ some w = ground (arith, t, h) in
      ground (arith, unseen-less n seen vs w g k, t)
]

walk_up-ends :
    (ext : External) (db : Database) (fuel : ℕ) (seen : List String) (cur : VoRow)
    → unseen seen db.vos < fuel
    → walk_up ext db fuel seen cur ≢ out_of_fuel
unfolding walk_up get_vo
walk_up-ends ext db zero seen cur h = absurd (ground arith)
walk_up-ends ext db (suc fuel) seen cur h = elim (Option-cases (ext.vo_document cur.raw)) [
  | inl d ↦ λ e. absurd (ground arith)
  | inr (doc, d) ↦ elim (Bool-cases (str_eq (parent_name doc) "")) [
    | inl t ↦ λ e. absurd (ground arith)
    | inr t ↦ elim (Bool-cases (is_member (parent_name doc) seen)) [
      | inl m ↦ λ e. absurd (ground arith)
      | inr m ↦ elim (Option-cases (get_vo (parent_name doc) db)) [
        | inl g ↦ λ e. absurd (ground arith)
        | inr (up, g) ↦
            rw (walk_up, d, t, m, g)
              (walk_up-ends ext db fuel (parent_name doc ∷ seen) up
                (ground (arith, unseen-less (parent_name doc) seen db.vos up g m)))
      ]
    ]
  ]
]

-- The walk up the parents of a VO always ends, at the top or at a cycle, whatever the stored
-- documents say: the fuel of one round for each VO, and one to end, is enough.
pub walk_fuel-enough :
    (ext : External) (db : Database) (seen : List String) (cur : VoRow)
    → walk_up ext db (walk_fuel db) seen cur ≢ out_of_fuel
walk_fuel-enough ext db seen cur =
    walk_up-ends ext db (walk_fuel db) seen cur (ground (arith, unseen-le seen db.vos))
