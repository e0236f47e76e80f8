-- ===== src/Base/Results.antt =====
-- Go's `error` results: a value or the error, chained by `do`.
use mathlib.Core.Path.{◌≡◌, refl}
use mathlib.Core.Bool.{Bool, true, false}
use mathlib.Core.Option.{Option, none, some}
use mathlib.Core.Logic.{◌⊎◌, inl, inr}
use topology_v.Base.Tests.{if◌then◌else◌}

pub data Outcome {ℓ κ} (E : Type ℓ) (A : Type κ) : Type (ℓ ⊔ κ) where
  ok : A → Outcome E A
  err : E → Outcome E A

-- `if !b { return e }`.
abbrev pub guard {κ} : {E : Type κ} → Bool → E → Outcome E (Unit {0})
guard false why = err why
guard true _ = ok tt

-- A lookup whose missing row is the error `e`.
abbrev pub need {ℓ κ} : {E : Type ℓ} {A : Type κ} → Option A → E → Outcome E A
need none e = err e
need (some a) e = ok a

-- A step, and what it goes on with; the first error ends the chain.
infixl 5 ◌>>=◌
abbrev pub ◌>>=◌ {κ ℓ μ} :
    {E : Type κ} {X : Type ℓ} {Y : Type μ} → Outcome E X → (X → Outcome E Y) → Outcome E Y
err why >>= next = err why
ok x >>= next = next x

-- What a chain that succeeds went through.
pub >>=-eq-ok {κ ℓ μ} :
    {E : Type κ} {X : Type ℓ} {Y : Type μ} (step : Outcome E X) (next : X → Outcome E Y) {y : Y}
    → (step >>= next) ≡ ok y
    → (x : X) × (step ≡ ok x) × (next x ≡ ok y)
>>=-eq-ok (err why) next e = cc
>>=-eq-ok (ok x) next e = (x, refl, e)

-- A check, and what it goes on with.
infixl 5 ◌>>◌
abbrev pub ◌>>◌ {κ μ} : {E : Type κ} {Y : Type μ} → Outcome E (Unit {0}) → Outcome E Y → Outcome E Y
check >> next = check >>= λ _. next

pub need-eq-ok {ℓ κ} :
    {E : Type ℓ} {A : Type κ} (o : Option A) (e : E) {a : A} → need o e ≡ ok a → o ≡ some a
need-eq-ok none e h = cc
need-eq-ok (some x) e h = cc

pub guard-eq-ok {ℓ} : {E : Type ℓ} (b : Bool) (e : E) {a : Unit {0}} → guard b e ≡ ok a → b ≡ true
guard-eq-ok true e h = refl
guard-eq-ok false e h = cc

pub if-eq-ok {ℓ κ μ} :
    {E : Type ℓ} {A : Type κ} {P : Type μ} (b : Bool) (x y : Outcome E A) {a : A}
    → (if b then x else y) ≡ ok a
    → (x ≡ ok a → P)
    → (y ≡ ok a → P)
    → P
if-eq-ok true x y h f g = f h
if-eq-ok false x y h f g = g h

pub ok-eq {ℓ κ} :
    {E : Type ℓ} {A : Type κ} (r : Outcome E A) {a b : A} → r ≡ ok a → r ≡ ok b → b ≡ a
ok-eq r h k = cc

-- An error is no value.
pub never {ℓ κ μ} :
    {E : Type ℓ} {A : Type κ} {P : Type μ} (r : Outcome E A) (e : E) (a : A)
    → r ≡ err e
    → r ≡ ok a
    → P
never r e a h k = absurd cc

pub Outcome-cases {ℓ κ} :
    {E : Type ℓ} {A : Type κ} (r : Outcome E A) → ((e : E) × (r ≡ err e)) ⊎ ((a : A) × (r ≡ ok a))
Outcome-cases (ok a) = inr (a, refl)
Outcome-cases (err e) = inl (e, refl)

pub ok_inj {ℓ κ} : {E : Type ℓ} {A : Type κ} {a b : A} → ◌≡◌ {A = Outcome E A} (ok a) (ok b) → a ≡ b
ok_inj h = cc
