-- ===== src/Base/Lists.antt =====
-- Lists measured by native numbers, tests over lists, and rows changed where a test holds.
use Prim.Native.Nat.{ℕ, suc, ◌+◌}
use mathlib.Core.Path.{◌≡◌, refl}
use mathlib.Core.Logic.{inl, inr}
use mathlib.Core.Bool.{Bool, true, false, ◌||◌}
use mathlib.Core.Option.{Option, none, some}
use mathlib.Core.List.{List, [], ◌∷◌, ◌++◌, Memᴰ}
use native.Mathlib.Omega.{arith}
use topology_v.Base.Tests.{if◌then◌else◌, Bool-cases}

module _ {ℓ} {A : Type ℓ} where
  abbrev pub length : List A → ℕ
  length [] = 0
  length (x ∷ xs) = suc (length xs)

  abbrev pub is_empty : List A → Bool
  is_empty [] = true
  is_empty (x ∷ xs) = false

  -- SELECT EXISTS over the rows that pass the test.
  abbrev pub any : (A → Bool) → List A → Bool
  any p [] = false
  any p (x ∷ xs) = p x || any p xs

  -- QueryRow: the first row that passes the test.
  abbrev pub find? : (A → Bool) → List A → Option A
  find? p [] = none
  find? p (x ∷ xs) = let rest = find? p xs in if p x then some x else rest

  -- UPDATE … SET f WHERE p.
  abbrev pub update_where : (A → Bool) → (A → A) → List A → List A
  update_where p f [] = []
  update_where p f (x ∷ xs) = (if p x then f x else x) ∷ update_where p f xs

  -- SELECT … WHERE p.
  abbrev pub select : (A → Bool) → List A → List A
  select p [] = []
  select p (x ∷ xs) = let rest = select p xs in if p x then x ∷ rest else rest

  pub length-append : (xs ys : List A) → length (xs ++ ys) ≡ length xs + length ys
  length-append [] ys = omega arith
  length-append (x ∷ xs) ys = omega (arith, length-append xs ys)

  pub any-append : (p : A → Bool) (xs ys : List A) → any p (xs ++ ys) ≡ (any p xs || any p ys)
  any-append p [] ys = refl
  any-append p (x ∷ xs) ys = ground (arith, any-append p xs ys)

  -- A row that is found passes the test, and is one of the rows.
  pub find?-passes : (p : A → Bool) (xs : List A) {x : A} → find? p xs ≡ some x → p x ≡ true
  find?-passes p [] h = cc
  find?-passes p (y ∷ xs) {x} h = ground (arith, find?-passes p xs {x = x})

  pub find?-Memᴰ : (p : A → Bool) (xs : List A) {x : A} → find? p xs ≡ some x → Memᴰ x xs
  find?-Memᴰ p [] h = absurd cc
  find?-Memᴰ p (y ∷ xs) {x} h = elim (Bool-cases (p y)) [
    | inl t ↦ let e : x ≡ y = ground (arith, t, h) in Memᴰ.head e
    | inr t ↦ Memᴰ.tail (find?-Memᴰ p xs (rw t at h))
  ]

  -- What every row that passes `p` also passes is found by `any`.
  pub find?-any :
      (p q : A → Bool) (xs : List A) {x : A} → find? p xs ≡ some x → q x ≡ true → any q xs ≡ true
  find?-any p q [] h k = cc
  find?-any p q (y ∷ xs) {x} h k = ground (arith, find?-any p q xs {x = x})

module _ {ℓ κ} {A : Type ℓ} (P : A → Type κ) where
  abbrev pub All : List A → Type κ
  All [] = Unit
  All (x ∷ xs) = P x × All xs

  pub All-append : (xs ys : List A) → All xs → All ys → All (xs ++ ys)
  All-append [] ys h k = k
  All-append (x ∷ xs) ys h k = (h.0, All-append xs ys h.1 k)
