-- ===== src/Prelude/Result.antt =====
-- The outcome of a Go function: a value, a returned error, or a panic.
use mathlib.Core.Bool.{Bool, true, false}
use mathlib.Core.Path.{◌≡◌, refl}
use image_builder.Prelude.Tests.{if◌then◌else◌}

pub data Result {ℓ κ} (E : Type κ) (A : Type ℓ) : Type (ℓ ⊔ κ) where
  ok : A → Result E A
  err : E → Result E A
  panic : Result E A

infixl 5 ◌>>=◌ ◌>>◌
abbrev pub ◌>>=◌ {ℓ κ μ} :
    {E : Type μ} {A : Type ℓ} {B : Type κ} → Result E A → (A → Result E B) → Result E B
ok value >>= next = next value
err error >>= next = err error
panic >>= next = panic

abbrev pub ◌>>◌ {κ μ} : {E : Type μ} {B : Type κ} → Result E (Unit {0}) → Result E B → Result E B
m >> k = m >>= λ _. k

-- `fmt.Errorf("...: %w", err)`: the error is wrapped, a value and a panic pass.
abbrev pub wrap {ℓ κ} : {E : Type κ} {A : Type ℓ} → (E → E) → Result E A → Result E A
wrap f (ok a) = ok a
wrap f (err e) = err (f e)
wrap f panic = panic

-- A predicate holds of the value, if one is returned.
abbrev pub IfOk {ℓ κ μ} : {E : Type μ} {A : Type ℓ} → (A → Type κ) → Result E A → Type κ
IfOk P (ok a) = P a
IfOk P (err e) = Unit
IfOk P panic = Unit

pub IfOk-bind {ℓ κ μ ν ρ} :
    {E : Type μ} {A : Type ℓ} {B : Type ν} (P : A → Type κ) (Q : B → Type ρ) (m : Result E A)
    (f : A → Result E B)
    → IfOk P m
    → ((a : A) → P a → IfOk Q (f a))
    → IfOk Q (m >>= f)
IfOk-bind P Q (ok a) f h k = k a h
IfOk-bind P Q (err e) f h k = tt
IfOk-bind P Q panic f h k = tt

pub IfOk-wrap {ℓ κ μ} :
    {E : Type μ} {A : Type ℓ} (P : A → Type κ) (g : E → E) (m : Result E A)
    → IfOk P m
    → IfOk P (wrap g m)
IfOk-wrap P g (ok a) h = h
IfOk-wrap P g (err e) h = tt
IfOk-wrap P g panic h = tt

pub IfOk-map {ℓ κ μ ν} :
    {E : Type μ} {A : Type ℓ} (P : A → Type κ) (Q : A → Type ν) (m : Result E A)
    → IfOk P m
    → ((a : A) → P a → Q a)
    → IfOk Q m
IfOk-map P Q (ok a) h k = k a h
IfOk-map P Q (err e) h k = tt
IfOk-map P Q panic h k = tt

-- What is said of the value can say that it is returned.
pub IfOk-self {ℓ κ μ} :
    {E : Type μ} {A : Type ℓ} (P : A → Type κ) (m : Result E A)
    → IfOk P m
    → IfOk (λ a. (m ≡ ok a) × P a) m
IfOk-self P (ok a) h = (refl, h)
IfOk-self P (err e) h = tt
IfOk-self P panic h = tt

pub IfOk-total {ℓ κ μ} :
    {E : Type μ} {A : Type ℓ} (P : A → Type κ) (m : Result E A) → ((a : A) → P a) → IfOk P m
IfOk-total P (ok a) h = h a
IfOk-total P (err e) h = tt
IfOk-total P panic h = tt

pub IfOk-if {ℓ κ μ} :
    {E : Type μ} {A : Type ℓ} (P : A → Type κ) (b : Bool) (m n : Result E A)
    → (b ≡ true → IfOk P m)
    → IfOk P n
    → IfOk P (if b then m else n)
IfOk-if P true m n h k = h refl
IfOk-if P false m n h k = k
