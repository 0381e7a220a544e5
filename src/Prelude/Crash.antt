-- ===== src/Prelude/Crash.antt =====
-- A Go computation that may panic: `panic` stands for a nil pointer dereference.
use mathlib.Core.Path.{◌≡◌, refl, subst, ap, ◌∙◌}
use mathlib.Core.Logic.{◌≢◌, ◌⊎◌, inl, inr}
use mathlib.Core.Option.{Option, none, some}

pub data Go {ℓ} (A : Type ℓ) : Type ℓ where
  panic : Go A
  ok : A → Go A

infixl 5 ◌>>=◌
abbrev pub ◌>>=◌ {ℓ κ} : {A : Type ℓ} {B : Type κ} → Go A → (A → Go B) → Go B
panic >>= f = panic
ok a >>= f = f a

-- `*p`: a nil pointer panics.
abbrev pub deref {ℓ} : {A : Type ℓ} → Option A → Go A
deref none = panic
deref (some a) = ok a

-- A sequence panics only where one of its parts does.
pub >>=-ne-panic {ℓ κ} :
    {A : Type ℓ} {B : Type κ} (m : Go A) (f : A → Go B)
    → m ≢ panic
    → ((a : A) → m ≡ ok a → f a ≢ panic)
    → (m >>= f) ≢ panic
>>=-ne-panic panic f h k = absurd (h refl)
>>=-ne-panic (ok a) f h k = k a refl

-- Inversion of a sequence that returned.
pub >>=-eq-ok {ℓ κ} :
    {A : Type ℓ} {B : Type κ} (m : Go A) (f : A → Go B) {b : B}
    → (m >>= f) ≡ ok b
    → (a : A) × (m ≡ ok a) × (f a ≡ ok b)
>>=-eq-ok panic f h = cc
>>=-eq-ok (ok a) f h = (a, refl, h)

pub Go-cases {ℓ} : {A : Type ℓ} (m : Go A) → (m ≡ panic) ⊎ ((a : A) × (m ≡ ok a))
Go-cases panic = inl refl
Go-cases (ok a) = inr (a, refl)

-- What holds of the result, if the computation returns.
abbrev pub Ensures {ℓ κ} : {A : Type ℓ} → (A → Type κ) → Go A → Type κ
Ensures P panic = Unit
Ensures P (ok a) = P a

pub Ensures-bind {ℓ κ μ ν} :
    {A : Type ℓ} {B : Type κ} (Q : A → Type μ) (P : B → Type ν) (m : Go A) (f : A → Go B)
    → Ensures Q m
    → ((a : A) → Q a → Ensures P (f a))
    → Ensures P (m >>= f)
Ensures-bind Q P panic f h k = tt
Ensures-bind Q P (ok a) f h k = k a h

pub Ensures-always {ℓ} : {A : Type ℓ} (m : Go A) → Ensures (λ a. Unit {0}) m
Ensures-always panic = tt
Ensures-always (ok a) = tt

pub Ensures-ok {ℓ κ} :
    {A : Type ℓ} (P : A → Type κ) (m : Go A) {a : A} → Ensures P m → m ≡ ok a → P a
Ensures-ok P panic h e = cc
Ensures-ok P (ok b) h e = subst P (cc) h

pub Ensures-self {ℓ} : {A : Type ℓ} (m : Go A) → Ensures (λ a. m ≡ ok a) m
Ensures-self panic = tt
Ensures-self (ok a) = refl

pub Ensures-map {ℓ κ μ} :
    {A : Type ℓ} {P : A → Type κ} {Q : A → Type μ}
    → ((a : A) → P a → Q a)
    → (m : Go A) → Ensures P m
    → Ensures Q m
Ensures-map f panic h = tt
Ensures-map f (ok a) h = f a h

pub Ensures-both {ℓ κ μ} :
    {A : Type ℓ} (P : A → Type κ) (Q : A → Type μ) (m : Go A)
    → Ensures P m
    → Ensures Q m
    → Ensures (λ a. P a × Q a) m
Ensures-both P Q panic h k = tt
Ensures-both P Q (ok a) h k = (h, k)

-- The computation returns, and this holds of its result.
abbrev pub Gives {ℓ κ} : {A : Type ℓ} → (A → Type κ) → Go A → Type (ℓ ⊔ κ)
Gives {A} P m = (a : A) × (m ≡ ok a) × P a

pub Gives-bind {ℓ κ μ ν} :
    {A : Type ℓ} {B : Type κ} (Q : A → Type μ) (P : B → Type ν) (m : Go A) (f : A → Go B)
    → Gives Q m
    → ((a : A) → Q a → Gives P (f a))
    → Gives P (m >>= f)
Gives-bind Q P m f (a, e, q) k = let (b, e', p) = k a q in (b, ap (λ n. n >>= f) e ∙ e', p)
