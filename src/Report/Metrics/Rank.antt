-- ===== src/Report/Metrics/Rank.antt =====
-- Which of the values percentile of internal/report/report.go selects.
use mathlib.Core.List.{Memᴰ}
use stratum_stats.Base.{
  ℕ, zero, suc, ◌+◌, ◌≤◌, ◌<◌, ◌≡◌, refl, ℤ, pos, negsuc, Bool, true, false, not, List, [], ◌∷◌,
  length, if◌then◌else◌, get_or, Float, arith, All, All-perm, All-mem, sum_by, sum_by-perm,
  insert_by, insert_by-Permᴰ, sort_by, sort_by-Permᴰ, length-sort_by, min, max, ◌==◌, Bool-cases,
  inl, inr,
}
use stratum_stats.Report.Metrics.{percentile, clamp_index, sort_floats, float_less}
use stratum_stats.Report.Metrics.Percentiles.{get_or-All, clamp_index_lt}

-- How many of the values pass a test.
abbrev pub how_many : {A : Type 0} → (A → Bool) → List A → ℕ
how_many f = sum_by (λ x. if f x then 1 else 0)

-- A strict order for which `not less y x` is transitive.
pub record IsOrder {A : Type 0} (less : A → A → Bool) : Type 0 where
  pub asym : (x y : A) → less x y ≡ true → less y x ≡ false
  pub trans : (x y z : A) → less y x ≡ false → less z y ≡ false → less z x ≡ false

-- The nearest rank, from 1 to n.
abbrev pub rank_within : ℤ → ℕ → ℕ
rank_within (negsuc k) n = 1
rank_within (pos k) n = max 1 (min k n)

module _ {A : Type 0} (less : A → A → Bool) (order : IsOrder less) where
  IsSorted : List A → Type 0
  IsSorted [] = true ≡ true
  IsSorted (x ∷ xs) = All (λ y. less y x ≡ false) xs × IsSorted xs

  irreflexive : (x : A) → less x x ≡ false
  irreflexive x = elim (Bool-cases (less x x)) [ inl b ↦ order.asym x x b | inr b ↦ b ]

  over_rest :
      (x y : A) (zs : List A)
      → less y x ≡ false
      → All (λ z. less z y ≡ false) zs
      → All (λ z. less z x ≡ false) zs
  over_rest x y [] h above = tt
  over_rest x y (z ∷ zs) h above = (order.trans x y z h above.0, over_rest x y zs h above.1)

  insert_by-IsSorted : (x : A) (ys : List A) → IsSorted ys → IsSorted (insert_by less x ys)
  unfolding IsSorted
  insert_by-IsSorted x [] h = (tt, refl)
  insert_by-IsSorted x (y ∷ ys) h = elim (Bool-cases (less y x)) [
    | inl b ↦ rw b (
      All-perm (λ z. less z y ≡ false) (insert_by-Permᴰ less x ys) (order.asym y x b, h.0),
      insert_by-IsSorted x ys h.1,
    )
    | inr b ↦ rw b ((b, over_rest x y ys b h.0), h)
  ]

  sort_by-IsSorted : (xs : List A) → IsSorted (sort_by less xs)
  unfolding IsSorted
  sort_by-IsSorted [] = refl
  sort_by-IsSorted (x ∷ xs) = insert_by-IsSorted x (sort_by less xs) (sort_by-IsSorted xs)

  none_below :
      (x : A) (ys : List A) → All (λ y. less y x ≡ false) ys → how_many (λ y. less y x) ys ≡ 0
  none_below x [] h = refl
  none_below x (y ∷ ys) h = rw h.0 (omega (arith, none_below x ys h.1))

  -- The value at an index of a sorted list.
  get_or-ranks :
      (xs : List A) (i : ℕ) (d : A)
      → IsSorted xs
      → i < length xs
      → (how_many (λ x. less x (get_or xs i d)) xs ≤ i)
        × (i < how_many (λ x. not (less (get_or xs i d) x)) xs)
  unfolding IsSorted
  get_or-ranks [] i d h bound = ground (arith, bound)
  get_or-ranks (x ∷ xs) zero d h bound =
      (rw (irreflexive x, none_below x xs h.0) (omega arith), rw (irreflexive x) (omega arith))
  get_or-ranks (x ∷ xs) (suc i) d h bound =
      let v = get_or xs i d in
      let inside : i < length xs = omega (arith, bound) in
      let (below, above) = get_or-ranks xs i d h.1 inside in
      let over : less v x ≡ false = get_or-All (λ y. less y x ≡ false) xs i d inside h.0 in
      (ground (arith, below), rw over (omega (arith, above)))

rank-clamp_index :
    (fl : Float) (c : ℤ) (n : ℕ) → (n == 0) ≡ false → clamp_index fl c n + 1 ≡ rank_within c n
unfolding clamp_index
rank-clamp_index fl (pos k) n h = ground arith
rank-clamp_index fl (negsuc k) n h = refl

module _ (fl : Float) where
  open fl use {F}

  -- Where the numbers are ordered as sort.Float64s needs it, the percentile p of n values, one or more, is one of them; with
  -- r the nearest whole number from 1 to n to the ceiling of p * n, fewer than r values are below it, and at least r values
  -- are not above it.
  pub percentile-sort_floats :
      (values : List F) (p : F)
      → IsOrder (float_less fl)
      → (length values == 0) ≡ false
      → let v = percentile fl (sort_floats fl values) p in
        let r = rank_within (fl.ceil (fl.mul p (fl.of_ℕ (length values)))) (length values) in
        Memᴰ v values
        × (how_many (λ x. float_less fl x v) values < r)
        × (r ≤ how_many (λ x. not (float_less fl v x)) values)
  unfolding percentile
  percentile-sort_floats values p order h =
      let less = float_less fl in
      let sorted = sort_floats fl values in
      let same : length sorted ≡ length values = length-sort_by less values in
      let c = fl.ceil (fl.mul p (fl.of_ℕ (length values))) in
      let i = clamp_index fl c (length values) in
      let inside : i < length sorted = rw same (clamp_index_lt fl c (length values) h) in
      let v = get_or sorted i (fl.of_ℕ 0) in
      let (below, above) =
        get_or-ranks less order sorted i (fl.of_ℕ 0) (sort_by-IsSorted less order values) inside in
      let perm = sort_by-Permᴰ less values in
      let rank = rank-clamp_index fl c (length values) h in
      rw (same, h)
        (
          get_or-All (λ x. Memᴰ x values) sorted i (fl.of_ℕ 0) inside
              (All-perm (λ x. Memᴰ x values) perm (All-mem values)),
          omega (arith, below, rank, sum_by-perm (λ x. if less x v then 1 else 0) perm),
          omega (arith, above, rank, sum_by-perm (λ x. if not (less v x) then 1 else 0) perm),
        )
