-- ===== src/Prelude/Fallible.antt =====
-- A Go function that returns a value and an error: one of the two is there.
use mathlib.Core.Path.{◌≡◌, refl, subst}
use mathlib.Core.Bool.{Bool, true, false}
use whyopen.Prelude.Tests.{if◌then◌else◌}

pub data Fallible {ℓ κ} (E : Type κ) (A : Type ℓ) : Type (ℓ ⊔ κ) where
  failed : E → Fallible E A
  returned : A → Fallible E A

-- The value, if there is one.
abbrev pub Returns {ℓ κ μ} : {E : Type κ} {A : Type ℓ} → (A → Type μ) → Fallible E A → Type μ
Returns P (failed e) = Unit
Returns P (returned a) = P a

pub Returns-returned {ℓ κ μ} :
    {E : Type κ} {A : Type ℓ} (P : A → Type μ) (m : Fallible E A) (a : A)
    → Returns P m
    → m ≡ returned a
    → P a
Returns-returned P (failed e) a h k = cc
Returns-returned P (returned b) a h k = subst P (cc) h

infixl 5 ◌>>=◌
abbrev pub ◌>>=◌ {ℓ κ μ} :
    {E : Type μ} {A : Type ℓ} {B : Type κ} → Fallible E A → (A → Fallible E B) → Fallible E B
failed e >>= f = failed e
returned a >>= f = f a

-- `fmt.Errorf` around the error of a call.
abbrev pub wrap {ℓ κ μ} :
    {E : Type κ} {F : Type μ} {A : Type ℓ} → (E → F) → Fallible E A → Fallible F A
wrap g (failed e) = failed (g e)
wrap g (returned a) = returned a

pub Returns-bind {ℓ κ μ ν ρ} :
    {E : Type μ} {A : Type ℓ} {B : Type κ} (P : B → Type ν) (m : Fallible E A)
    (f : A → Fallible E B) (Q : A → Type ρ)
    → Returns Q m
    → ((a : A) → Q a → Returns P (f a))
    → Returns P (m >>= f)
Returns-bind P (failed e) f Q h k = tt
Returns-bind P (returned a) f Q h k = k a h

pub Returns-wrap {ℓ κ μ ν} :
    {E : Type κ} {F : Type μ} {A : Type ℓ} (P : A → Type ν) (g : E → F) (m : Fallible E A)
    → Returns P m
    → Returns P (wrap g m)
Returns-wrap P g (failed e) h = tt
Returns-wrap P g (returned a) h = h

pub Returns-both {ℓ κ μ ν} :
    {E : Type κ} {A : Type ℓ} (P : A → Type μ) (Q : A → Type ν) (m : Fallible E A)
    → Returns P m
    → Returns Q m
    → Returns (λ a. P a × Q a) m
Returns-both P Q (failed e) h k = tt
Returns-both P Q (returned a) h k = (h, k)

pub Returns-map {ℓ κ μ ν} :
    {E : Type κ} {A : Type ℓ} (P : A → Type μ) (Q : A → Type ν) (m : Fallible E A)
    → ((a : A) → P a → Q a)
    → Returns P m
    → Returns Q m
Returns-map P Q (failed e) f h = tt
Returns-map P Q (returned a) f h = f a h

pub Returns-self {ℓ κ} :
    {E : Type κ} {A : Type ℓ} (m : Fallible E A) → Returns (λ a. m ≡ returned a) m
Returns-self (failed e) = tt
Returns-self (returned a) = refl

pub Returns-always {ℓ κ} : {E : Type κ} {A : Type ℓ} (m : Fallible E A) → Returns (λ a. Unit {0}) m
Returns-always (failed e) = tt
Returns-always (returned a) = tt

-- A guard: `if c { return err }`.
pub Returns-guard {ℓ κ} :
    {E : Type ℓ} (P : Type κ) (c : Bool) (e : E)
    → (c ≡ false → P)
    → Returns (λ u. P) (if c then failed e else returned (tt {0}))
Returns-guard P true e h = tt
Returns-guard P false e h = h refl
