-- ===== src/Base/Errors.antt =====
-- A Go function that returns `(value, error)`: the value, or the error with nothing else.
use mathlib.Core.Path.{◌≡◌, refl, subst}
use mathlib.Core.Bool.{Bool, true, false}
use mathlib.Core.Logic.{◌⊎◌, inl, inr}

pub data Outcome {ℓ} (E : Type 0) (A : Type ℓ) : Type ℓ where
  ok : A → Outcome E A
  err : E → Outcome E A

-- `if !test { return x }`
abbrev pub guard : {E : Type 0} → Bool → E → Outcome E (Unit {0})
guard false x = err x
guard true x = ok tt

-- The next step runs on the value; an error is returned at once.
abbrev pub ◌>>=◌ {ℓ κ} :
    {E : Type 0} {A : Type ℓ} {B : Type κ} (step : Outcome E A) (next : A → Outcome E B)
    → Outcome E B
err x >>= next = err x
ok value >>= next = next value

-- The next step after a guard.
abbrev pub ◌>>◌ {ℓ} :
    {E : Type 0} {B : Type ℓ} (step : Outcome E (Unit {0})) (next : Outcome E B) → Outcome E B
step >> next = step >>= (λ (_ : Unit {0}). next)

infixl 5 ◌>>=◌ ◌>>◌
-- What holds of the value, or of the error.
abbrev pub Post {ℓ κ} :
    {E : Type 0} {A : Type ℓ} → (A → Type κ) → (E → Type κ) → Outcome E A → Type κ
Post P Q (ok a) = P a
Post P Q (err e) = Q e

module _ {ℓ μ κ} {E : Type 0} {A : Type ℓ} {B : Type μ} (P : A → Type κ) (P' : B → Type κ)
    (Q : E → Type κ) where
  pub Post-bind :
      (m : Outcome E A) (f : A → Outcome E B)
      → Post P Q m
      → ((a : A) → P a → Post P' Q (f a))
      → Post P' Q (m >>= f)
  Post-bind (ok a) f h k = k a h
  Post-bind (err e) f h k = h

-- A guard that is passed leaves its test.
pub Post-guard {κ} :
    {E : Type 0} {B : Type κ} (P : B → Type 0) (Q : E → Type 0) (b : Bool) (e : E) (m : Outcome E B)
    → Q e
    → (b ≡ true → Post P Q m)
    → Post P Q (guard b e >> m)
Post-guard P Q true e m h k = k refl
Post-guard P Q false e m h k = h

pub Post-ok {ℓ} :
    {E : Type 0} {A : Type ℓ} (P : A → Type 0) (Q : E → Type 0) (m : Outcome E A) {a : A}
    → Post P Q m
    → m ≡ ok a
    → P a
Post-ok P Q m h e = subst (λ n. Post P Q n) e h

pub Post-err {ℓ} :
    {E : Type 0} {A : Type ℓ} (P : A → Type 0) (Q : E → Type 0) (m : Outcome E A) {x : E}
    → Post P Q m
    → m ≡ err x
    → Q x
Post-err P Q m h e = subst (λ n. Post P Q n) e h

pub Post-both {ℓ} :
    {E : Type 0} {A : Type ℓ} (P P' : A → Type 0) (Q R : E → Type 0) (m : Outcome E A)
    → Post P Q m
    → Post P' R m
    → Post (λ a. P a × P' a) Q m
Post-both P P' Q R (ok a) h k = (h, k)
Post-both P P' Q R (err e) h k = h

-- What is said of the value may be that it is the value.
pub Post-self {ℓ} :
    {E : Type 0} {A : Type ℓ} (m : Outcome E A) → Post (λ a. m ≡ ok a) (λ _. Unit {ℓ}) m
Post-self (ok a) = refl
Post-self (err e) = tt

-- To split on a computed outcome and keep the equation.
pub Outcome-cases {ℓ} :
    {E : Type 0} {A : Type ℓ} (m : Outcome E A) → ((a : A) × (m ≡ ok a)) ⊎ ((e : E) × (m ≡ err e))
Outcome-cases (ok a) = inl (a, refl)
Outcome-cases (err e) = inr (e, refl)

module _ {ℓ κ} {E : Type 0} {A : Type ℓ} {B : Type κ} where
  -- Where two steps give a value, the first has given one, and the second gives the value from it.
  pub >>=-eq-ok :
      (first : Outcome E A) (next : A → Outcome E B) {end : B}
      → (first >>= next) ≡ ok end
      → (value : A) × (first ≡ ok value) × (next value ≡ ok end)
  >>=-eq-ok (err x) next h = cc
  >>=-eq-ok (ok value) next h = (value, refl, h)
