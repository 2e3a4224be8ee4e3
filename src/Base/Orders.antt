-- ===== src/Base/Orders.antt =====
-- Lists in another order: what a sum and a property of every element do not see.
use Prim.Native.Nat.{ℕ, zero, suc}
use mathlib.Core.Path.{◌≡◌, refl, ◌∙◌, subst, ap}
use mathlib.Core.List.{List, [], ◌∷◌, Memᴰ, Permᴰ, map}
use native.Mathlib.Omega.{arith}
use stratum_stats.Base.Lists.{sum_by, length, All, take}

module _ {ℓ} {A : Type ℓ} where
  pub sum_by-perm : (f : A → ℕ) {xs ys : List A} → Permᴰ xs ys → sum_by f xs ≡ sum_by f ys
  sum_by-perm f Permᴰ.nil = refl
  sum_by-perm f (Permᴰ.cons e p) = omega (arith, ap f e, sum_by-perm f p)
  sum_by-perm f (Permᴰ.swap e d) = omega (arith, ap f e, ap f d)
  sum_by-perm f (Permᴰ.trans p q) = sum_by-perm f p ∙ sum_by-perm f q

  pub length-perm : {xs ys : List A} → Permᴰ xs ys → length xs ≡ length ys
  length-perm Permᴰ.nil = refl
  length-perm (Permᴰ.cons e p) = ap suc (length-perm p)
  length-perm (Permᴰ.swap e d) = refl
  length-perm (Permᴰ.trans p q) = length-perm p ∙ length-perm q

  module _ {κ} (P : A → Type κ) where
    pub All-perm : {xs ys : List A} → Permᴰ xs ys → All P xs → All P ys
    All-perm Permᴰ.nil h = h
    All-perm (Permᴰ.cons e p) h = (subst P e h.0, All-perm p h.1)
    All-perm (Permᴰ.swap e d) h = (subst P d h.1.0, (subst P e h.0, h.1.1))
    All-perm (Permᴰ.trans p q) h = All-perm q (All-perm p h)

    pub All-take : (n : ℕ) (xs : List A) → All P xs → All P (take n xs)
    All-take zero xs h = tt
    All-take (suc n) [] h = tt
    All-take (suc n) (x ∷ xs) h = (h.0, All-take n xs h.1)

  pub sum_by-map {κ} :
      {B : Type κ} (f : B → ℕ) (g : A → B) (xs : List A)
      → sum_by f (map g xs) ≡ sum_by (λ x. f (g x)) xs
  sum_by-map f g [] = refl
  sum_by-map f g (x ∷ xs) = omega (arith, sum_by-map f g xs)

  pub All-map {κ μ} :
      {B : Type κ} (P : B → Type μ) (g : A → B) (xs : List A)
      → All (λ x. P (g x)) xs
      → All P (map g xs)
  All-map P g [] h = tt
  All-map P g (x ∷ xs) h = (h.0, All-map P g xs h.1)

-- What is in a list is in a longer one.
pub All-weaken {ℓ} :
    {A : Type ℓ} (x : A) (xs ys : List A) → All (λ y. Memᴰ y ys) xs → All (λ y. Memᴰ y (x ∷ ys)) xs
All-weaken x [] ys h = tt
All-weaken x (z ∷ xs) ys h = (Memᴰ.tail h.0, All-weaken x xs ys h.1)

pub All-mem {ℓ} : {A : Type ℓ} (xs : List A) → All (λ y. Memᴰ y xs) xs
All-mem [] = tt
All-mem (x ∷ xs) = (Memᴰ.head refl, All-weaken x xs xs (All-mem xs))
