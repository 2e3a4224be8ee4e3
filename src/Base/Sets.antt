-- ===== src/Base/Sets.antt =====
-- Go's maps into `bool` that only ever hold `true`: a set, as the list of its elements.
use Prim.Native.Nat.{suc, ◌≤◌}
use mathlib.Core.Path.{◌≡◌, refl}
use mathlib.Core.Bool.{Bool, true, false}
use mathlib.Core.List.{List, [], ◌∷◌}
use native.Mathlib.Omega.{arith}
use stratum_stats.Base.Tests.{if◌then◌else◌}
use stratum_stats.Base.Lists.{length}
use stratum_stats.Base.Assoc.{Eq}

module _ {ℓ} {K : Type ℓ} ⦃e : Eq K⦄ where
  -- set[k]
  abbrev pub has : K → List K → Bool
  has k [] = false
  has k (j ∷ js) = if e.same j k then true else has k js

  -- set[k] = true
  abbrev pub include : K → List K → List K
  include k [] = k ∷ []
  include k (j ∷ js) = if e.same j k then j ∷ js else j ∷ include k js

  pub has-include :
      (k j : K) (s : List K) → has j (include k s) ≡ (if e.same k j then true else has j s)
  has-include k j [] = refl
  has-include k j (i ∷ s) =
      ground (arith, has-include k j s, e.same_iff i k, e.same_iff i j, e.same_iff k j)

  pub length-include :
      (k : K) (s : List K) → length (include k s) ≡ (if has k s then length s else suc (length s))
  length-include k [] = refl
  length-include k (i ∷ s) = ground (arith, length-include k s)

  -- No element stands in the list twice.
  abbrev pub NoRepeats : List K → Type 0
  NoRepeats [] = Unit
  NoRepeats (k ∷ s) = (has k s ≡ false) × NoRepeats s

  -- Every element of the first list stands in the second.
  abbrev pub IsIn : List K → List K → Type 0
  IsIn [] t = Unit
  IsIn (k ∷ s) t = (has k t ≡ true) × IsIn s t

  pub include-NoRepeats : (k : K) (s : List K) → NoRepeats s → NoRepeats (include k s)
  include-NoRepeats k [] h = (refl, tt)
  include-NoRepeats k (j ∷ s) h =
      ground (arith, include-NoRepeats k s, has-include k j s, e.same_iff j k, e.same_iff k j)

  remove : K → List K → List K
  remove k [] = []
  remove k (j ∷ s) = let rest = remove k s in if e.same j k then rest else j ∷ rest

  has-remove : (k j : K) (s : List K) → has j (remove k s) ≡ (if e.same k j then false else has j s)
  unfolding remove
  has-remove k j [] = ground arith
  has-remove k j (i ∷ s) =
      ground (arith, has-remove k j s, e.same_iff i k, e.same_iff i j, e.same_iff k j)

  length-remove_le : (k : K) (s : List K) → length (remove k s) ≤ length s
  unfolding remove
  length-remove_le k [] = ground arith
  length-remove_le k (j ∷ s) = ground (arith, length-remove_le k s)

  length-remove : (k : K) (s : List K) → has k s ≡ true → suc (length (remove k s)) ≤ length s
  unfolding remove
  length-remove k [] h = ground arith
  length-remove k (j ∷ s) h = ground (arith, length-remove k s, length-remove_le k s)

  remove-IsIn : (k : K) (s t : List K) → has k s ≡ false → IsIn s t → IsIn s (remove k t)
  remove-IsIn k [] t n h = tt
  remove-IsIn k (j ∷ s) t n h =
      ground (arith, remove-IsIn k s t, has-remove k j t, e.same_iff j k, e.same_iff k j)

  -- A set within another is not larger.
  pub NoRepeats-length : (s t : List K) → NoRepeats s → IsIn s t → length s ≤ length t
  NoRepeats-length [] t n h = ground arith
  NoRepeats-length (k ∷ s) t n h = ground (
    arith,
    NoRepeats-length s (remove k t) n.1 (remove-IsIn k s t n.0 h.1),
    length-remove k t h.0,
  )

  pub has-IsIn : (k : K) (s t : List K) → IsIn s t → has k s ≡ true → has k t ≡ true
  has-IsIn k [] t h p = ground (arith, p)
  has-IsIn k (j ∷ s) t h p = ground (arith, has-IsIn k s t, e.same_iff j k)

  pub include-IsIn : (k : K) (s t : List K) → IsIn s t → has k t ≡ true → IsIn (include k s) t
  include-IsIn k [] t h p = (p, tt)
  include-IsIn k (j ∷ s) t h p = ground (arith, include-IsIn k s t)

  pub IsIn-include : (k : K) (s t : List K) → IsIn s t → IsIn s (include k t)
  IsIn-include k [] t h = tt
  IsIn-include k (j ∷ s) t h = ground (arith, IsIn-include k s t, has-include k j t)
