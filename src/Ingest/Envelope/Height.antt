-- ===== src/Ingest/Envelope/Height.antt =====
-- mostObservedHeight of internal/ingest/ingest.go ranges over a map, whose order Go leaves open: what
-- it selects does not depend on that order.
use mathlib.Core.List.{Memᴰ}
use stratum_stats.Base.{
  ℕ, ◌<◌, ◌≤◌, ◌≡◌, refl, ap, ◌∙◌, subst, ◌⊎◌, inl, inr, List, [], ◌∷◌, Permᴰ, All, All-perm, arith,
  Bool-cases, ltb, ◌==◌, ◌&&◌, ◌||◌,
}
use stratum_stats.Ingest.Envelope.{more_observed, most_observed_from, most_observed_height}

-- A height is positive, and so is its count.
abbrev pub IsCounted : ℕ × ℕ → Type 0
IsCounted c = (0 < c.0) × (0 < c.1)

-- The selection so far: nothing yet, or a height with its count.
unfoldable IsSelection : ℕ × ℕ → Type 0
IsSelection s = ((s.0 ≡ 0) × (s.1 ≡ 0)) ⊎ IsCounted s

more_observed-IsSelection :
    (s c : ℕ × ℕ) → IsSelection s → IsCounted c → IsSelection (more_observed s c)
unfolding IsSelection more_observed
more_observed-IsSelection (h, n) (k, m) p q = ground arith

-- A selection that no count of the list beats.
abbrev pub IsUnbeatenBy : ℕ × ℕ → ℕ × ℕ → Type 0
IsUnbeatenBy s c = (c.1 < s.1) ⊎ ((c.1 ≡ s.1) × (s.0 ≤ c.0))

zero-beaten : (x : ℕ × ℕ) → IsCounted x → IsUnbeatenBy (0, 0) x → ⊥
zero-beaten (h, n) p u = ground arith

more_observed-le : (s c : ℕ × ℕ) → IsSelection s → IsCounted c → IsUnbeatenBy (more_observed s c) c
unfolding IsSelection more_observed
more_observed-le (h, n) (k, m) p q = ground arith

more_observed-swap :
    (s c d : ℕ × ℕ)
    → IsSelection s
    → IsCounted c
    → IsCounted d
    → more_observed (more_observed s c) d ≡ more_observed (more_observed s d) c
unfolding IsSelection more_observed
more_observed-swap (h, n) (k, m) (i, j) p q r = ground arith

most_observed_from-perm :
    (s : ℕ × ℕ) {xs ys : List (ℕ × ℕ)}
    → Permᴰ xs ys
    → IsSelection s
    → All IsCounted xs
    → most_observed_from s xs ≡ most_observed_from s ys
unfolding most_observed_from
most_observed_from-perm s Permᴰ.nil i h = refl
most_observed_from-perm s (Permᴰ.cons {a} {b} {l₁} {l₂} e p) i h =
    most_observed_from-perm (more_observed s a) p (more_observed-IsSelection s a i h.0) h.1
    ∙ ap (λ z. most_observed_from (more_observed s z) l₂) e
most_observed_from-perm s (Permᴰ.swap {a} {b} {a'} {b'} {l} e d) i h =
    ap (λ z. most_observed_from z l) (more_observed-swap s a b i h.0 h.1.0)
    ∙ (ap (λ z. most_observed_from (more_observed (more_observed s z) a) l) d
        ∙ ap (λ z. most_observed_from (more_observed (more_observed s a') z) l) e)
most_observed_from-perm s (Permᴰ.trans p q) i h =
    most_observed_from-perm s p i h ∙ most_observed_from-perm s q i (All-perm IsCounted p h)

-- For positive heights with positive counts, `most_observed_height` selects the same height from the counts in every
-- order.
pub most_observed_height-perm :
    {xs ys : List (ℕ × ℕ)}
    → Permᴰ xs ys
    → All IsCounted xs
    → most_observed_height xs ≡ most_observed_height ys
unfolding most_observed_height IsSelection
most_observed_height-perm p h =
    ap (λ (s : ℕ × ℕ). s.0) (most_observed_from-perm (0, 0) p (inl (refl, refl)) h)

-- The last selection is at least as good as an earlier one.
most_observed_from-unbeaten :
    (s : ℕ × ℕ) (xs : List (ℕ × ℕ)) (c : ℕ × ℕ)
    → IsSelection s
    → All IsCounted xs
    → IsUnbeatenBy s c
    → IsUnbeatenBy (most_observed_from s xs) c
unfolding most_observed_from IsSelection more_observed
most_observed_from-unbeaten s [] c i h u = u
most_observed_from-unbeaten s (x ∷ xs) c i h u =
    most_observed_from-unbeaten (more_observed s x) xs c (more_observed-IsSelection s x i h.0) h.1
      (ground arith)

most_observed_from-best :
    (s : ℕ × ℕ) (xs : List (ℕ × ℕ))
    → IsSelection s
    → All IsCounted xs
    → All (IsUnbeatenBy (most_observed_from s xs)) xs
unfolding most_observed_from
most_observed_from-best s [] i h = tt
most_observed_from-best s (x ∷ xs) i h = (
  most_observed_from-unbeaten (more_observed s x) xs x (more_observed-IsSelection s x i h.0) h.1
      (more_observed-le s x i h.0),
  most_observed_from-best (more_observed s x) xs (more_observed-IsSelection s x i h.0) h.1,
)

more_observed-cases : (s c : ℕ × ℕ) → (more_observed s c ≡ s) ⊎ (more_observed s c ≡ c)
unfolding more_observed
more_observed-cases (h, n) (k, m) =
    elim (Bool-cases (ltb n m || ((m == n) && ((h == 0) || ltb k h)))) [
      | inl t ↦ inr (rw t refl)
      | inr f ↦ inl (rw f refl)
    ]

most_observed_from-mem :
    (s : ℕ × ℕ) (xs : List (ℕ × ℕ))
    → (most_observed_from s xs ≡ s) ⊎ Memᴰ (most_observed_from s xs) xs
unfolding most_observed_from
most_observed_from-mem s [] = inl refl
most_observed_from-mem s (x ∷ xs) = elim (most_observed_from-mem (more_observed s x) xs) [
  | inr m ↦ inr (Memᴰ.tail m)
  | inl e ↦ elim (more_observed-cases s x) [
    | inl old ↦ inl (e ∙ old)
    | inr new ↦ inr (Memᴰ.head (e ∙ new))
  ]
]

-- For a list of positive heights with positive counts that is not empty, the height that `most_observed_height`
-- selects is in the list, with a count that no other exceeds, and no lower height has that count.
pub most_observed_height-IsMost :
    (x : ℕ × ℕ) (xs : List (ℕ × ℕ))
    → All IsCounted (x ∷ xs)
    → (n : ℕ) × Memᴰ (most_observed_height (x ∷ xs), n) (x ∷ xs)
      × All (IsUnbeatenBy (most_observed_height (x ∷ xs), n)) (x ∷ xs)
unfolding most_observed_height IsSelection
most_observed_height-IsMost x xs h =
    let all = x ∷ xs in
    let best = most_observed_from-best (0, 0) all (inl (refl, refl)) h in
    (
      (most_observed_from (0, 0) all).1,
      elim (most_observed_from-mem (0, 0) all) [
        | inr m ↦ m
        | inl e ↦ absurd (zero-beaten x h.0 (subst (λ z. IsUnbeatenBy z x) e best.0))
      ],
      best,
    )
