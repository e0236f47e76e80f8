-- ===== src/Models/Roles.antt =====
-- internal/models/auth.go: role ranks, the effective role, and who may read contact data; with
-- isManagerOrAdmin of internal/handlers/proposals.go and the test of RequireRole in
-- internal/handlers/middleware.go, which rest on them.
use topology_v.Base.{
  ℕ, ◌≤◌, Bool, true, false, ◌||◌, ◌≡◌, refl, ◌⊎◌, inl, inr, List, [], ◌∷◌, arith, ltb, any,
  if◌then◌else◌, Bool-cases,
}
use mathlib.Core.List.{Memᴰ}
use topology_v.Models.{Role, administrator, manager, user, contact_reader}

-- roleRank: a role that the map does not hold has rank 0.
abbrev pub role_rank : Role → ℕ
role_rank administrator = 3
role_rank manager = 2
role_rank user = 1
role_rank _ = 0

abbrev pub is_administrator : Role → Bool
is_administrator administrator = true
is_administrator _ = false

abbrev pub is_manager : Role → Bool
is_manager manager = true
is_manager _ = false

abbrev is_contact_reader : Role → Bool
is_contact_reader contact_reader = true
is_contact_reader _ = false

-- HasContactReader.
unfoldable pub has_contact_reader : List Role → Bool
has_contact_reader [] = false
has_contact_reader (r ∷ rs) =
    let rest = has_contact_reader rs in
    if is_contact_reader r || is_manager r || is_administrator r then true else rest

-- The loop of EffectiveRole, over `best` and `bestRank`.
effective_from : Role → ℕ → List Role → Role
effective_from best best_rank [] = best
effective_from best best_rank (r ∷ rs) =
    let higher = effective_from r (role_rank r) rs in
    let same = effective_from best best_rank rs in
    if ltb best_rank (role_rank r) then higher else same

unfoldable pub effective_role : List Role → Role
unfolding effective_from
effective_role rs = effective_from user 0 rs

-- isManagerOrAdmin.
unfoldable pub is_manager_or_admin : List Role → Bool
unfolding effective_role
is_manager_or_admin rs = let role = effective_role rs in is_manager role || is_administrator role

-- The role check of RequireRole: an administrator passes, and the effective role may be listed.
unfoldable pub require_role : (Role → Bool) → List Role → Bool
unfolding effective_role
require_role allowed rs = is_administrator (effective_role rs) || allowed (effective_role rs)

-- What the loop holds between two rounds: the best role with its rank, or the start.
abbrev Reached : Role → ℕ → Type 0
Reached best n = (n ≤ role_rank best) × ((best ≡ user) ⊎ (n ≡ role_rank best))

-- A role outranks no role that the loop has passed.
effective_from_best :
    (best : Role) (n : ℕ) (rs : List Role)
    → Reached best n
    → n ≤ role_rank (effective_from best n rs)
unfolding effective_from
effective_from_best best n [] h = h.0
effective_from_best best n (r ∷ rs) h = ground (
  arith,
  effective_from_best best n rs h,
  effective_from_best r (role_rank r) rs (omega arith, inr refl),
)

effective_from_bound :
    (best : Role) (n : ℕ) (rs : List Role) {r : Role}
    → Reached best n
    → Memᴰ r rs
    → role_rank r ≤ role_rank (effective_from best n rs)
unfolding effective_from
effective_from_bound best n [] h m = elim m [ ]
effective_from_bound best n (x ∷ rs) {r} h (Memᴰ.head e) = ground (
  arith,
  effective_from_best best n rs h,
  effective_from_best x (role_rank x) rs (omega arith, inr refl),
)
effective_from_bound best n (x ∷ rs) {r} h (Memᴰ.tail m) = ground (
  arith,
  effective_from_bound best n rs h m,
  effective_from_bound x (role_rank x) rs (omega arith, inr refl) m,
)

effective_from-mem :
    (best : Role) (n : ℕ) (rs : List Role)
    → (effective_from best n rs ≡ best) ⊎ Memᴰ (effective_from best n rs) rs
unfolding effective_from
effective_from-mem best n [] = inl refl
effective_from-mem best n (r ∷ rs) = elim (Bool-cases (ltb n (role_rank r))) [
  | inl e ↦ rw e (elim (effective_from-mem r (role_rank r) rs) [
    | inl same ↦ inr (Memᴰ.head same)
    | inr m ↦ inr (Memᴰ.tail m)
  ])
  | inr e ↦
      rw e (elim (effective_from-mem best n rs) [ inl same ↦ inl same | inr m ↦ inr (Memᴰ.tail m) ])
]

-- The effective role is one of the roles or the plain user, and no role of the set outranks it.
pub effective_role_highest :
    (rs : List Role) (r : Role)
    → Memᴰ r rs
    → ((effective_role rs ≡ user) ⊎ Memᴰ (effective_role rs) rs)
      × (role_rank r ≤ role_rank (effective_role rs))
unfolding effective_role
effective_role_highest rs r m =
    (effective_from-mem user 0 rs, effective_from_bound user 0 rs (omega arith, inl refl) m)

privileged_from :
    (best : Role) (n : ℕ) (rs : List Role)
    → Reached best n
    → (is_administrator (effective_from best n rs)
        ≡ (is_administrator best || any is_administrator rs))
      × ((is_manager (effective_from best n rs) || is_administrator (effective_from best n rs)) ≡ (
          (is_manager best || is_administrator best)
          || any (λ r. is_manager r || is_administrator r) rs))
unfolding effective_from
privileged_from best n [] h = ground arith
privileged_from best n (r ∷ rs) h =
    ground (
      arith,
      privileged_from best n rs h,
      privileged_from r (role_rank r) rs (omega arith, inr refl),
    )

-- A session counts as manager or administrator exactly when one of its roles is one of the two,
-- whatever the order of the roles and whatever other roles it holds; and the gate that RequireRole
-- puts up for those two roles lets the same sessions pass, and so does the one for managers alone,
-- since administrators always pass. A gate that lists no role passes exactly the administrators.
pub privileged_iff :
    (rs : List Role)
    → (is_manager_or_admin rs ≡ any (λ r. is_manager r || is_administrator r) rs)
      × (require_role (λ r. is_manager r || is_administrator r) rs
          ≡ any (λ r. is_manager r || is_administrator r) rs)
      × (require_role is_manager rs ≡ any (λ r. is_manager r || is_administrator r) rs)
      × (require_role (λ r. false) rs ≡ any is_administrator rs)
unfolding is_manager_or_admin require_role effective_role
privileged_iff rs = ground (arith, privileged_from user 0 rs (omega arith, inl refl))
