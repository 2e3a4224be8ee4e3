-- ===== src/Base/Sorts.antt =====
-- Stable sorting by a strict order, as `sort.SliceStable` does it, and the natural numbers' sorts by it.

use mathlib.Core.Path.{◌≡◌, refl, sym}
use mathlib.Core.Bool.{Bool, true, false}
use mathlib.Core.List.{List, [], ◌∷◌, Permᴰ}
use mathlib.Core.List.Permᴰ
use stratum_stats.Base.Tests.{if◌then◌else◌}
use stratum_stats.Base.Lists.{length}
use stratum_stats.Base.Orders.{length-perm}

module _ {ℓ} {A : Type ℓ} (less : A → A → Bool) where
  -- before the first element that is not less than it
  abbrev pub insert_by : A → List A → List A
  insert_by x [] = x ∷ []
  insert_by x (y ∷ ys) = let rest = insert_by x ys in if less y x then y ∷ rest else x ∷ (y ∷ ys)

  abbrev pub sort_by : List A → List A
  sort_by [] = []
  sort_by (x ∷ xs) = insert_by x (sort_by xs)

  pub insert_by-Permᴰ : (x : A) (ys : List A) → Permᴰ (x ∷ ys) (insert_by x ys)
  insert_by-Permᴰ x [] = Permᴰ.refl _
  insert_by-Permᴰ x (y ∷ ys) = go (less y x) (insert_by-Permᴰ x ys)
    where
      go :
          (b : Bool)
          → Permᴰ (x ∷ ys) (insert_by x ys)
          → Permᴰ (x ∷ y ∷ ys) (if b then y ∷ insert_by x ys else x ∷ y ∷ ys)
      go true p = Permᴰ.trans (Permᴰ.swap refl refl) (Permᴰ.cons refl p)
      go false p = Permᴰ.refl _

  pub sort_by-Permᴰ : (xs : List A) → Permᴰ xs (sort_by xs)
  sort_by-Permᴰ [] = Permᴰ.nil
  sort_by-Permᴰ (x ∷ xs) =
      Permᴰ.trans (Permᴰ.cons refl (sort_by-Permᴰ xs)) (insert_by-Permᴰ x (sort_by xs))

  pub length-sort_by : (xs : List A) → length (sort_by xs) ≡ length xs
  length-sort_by xs = sym (length-perm (sort_by-Permᴰ xs))
