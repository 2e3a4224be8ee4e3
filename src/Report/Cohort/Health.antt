-- ===== src/Report/Cohort/Health.antt =====
-- What it takes for a regional cohort of internal/report/report.go to be left out.
use stratum_stats.Base.{
  or_later, ◌≤◌, ◌≡◌, refl, Bool, true, false, ◌&&◌, ◌||◌, not, Bytes, eqb, eqb_iff, List, [], ◌∷◌,
  Option, none, some, length, find, insert, erase, bytes_eq, has, include, arith, All, has-include,
  Bool-cases, inl, inr, subst, sym, NoRepeats, include-NoRepeats,
}
use stratum_stats.Model.{Time, Pool, Observation, source_remote_scheduled}
use stratum_stats.Report.Keys.{observation_key}
use stratum_stats.Report.Accumulator.{Accumulator, is_scoreable_block}
use stratum_stats.Report.Cohort.{
  regional_cohort_min_pools, RegionalCohortHealth, health_of, record_health, pools_of, is_unhealthy,
  excluded_from, is_at, at_health, cohorts_from, unhealthy_regional_cohorts,
}

pools_of-NoRepeats :
    (missed : List (Bytes × Bytes)) (pools : List Bytes)
    → NoRepeats pools
    → NoRepeats (pools_of pools missed)
unfolding pools_of
pools_of-NoRepeats [] pools h = h
pools_of-NoRepeats (m ∷ missed) pools h =
    pools_of-NoRepeats missed (include m.1 pools) (include-NoRepeats m.1 pools h)

module _ (m : Bytes → Bool) where
  abbrev Holds : Bytes → Type 0
  Holds p = m p ≡ true

  -- every pool that is recorded for a missed endpoint has the property
  abbrev MissedHolds : List (Bytes × Bytes) → Type 0
  MissedHolds [] = Unit
  MissedHolds ((e, p) ∷ missed) = Holds p × MissedHolds missed

  include-Holds : (x : Bytes) (xs : List Bytes) → Holds x → All Holds xs → All Holds (include x xs)
  include-Holds x [] hx h = (hx, tt)
  include-Holds x (y ∷ ys) hx h = ground (arith, include-Holds x ys hx)

  pools_of-Holds :
      (missed : List (Bytes × Bytes)) (pools : List Bytes)
      → MissedHolds missed
      → All Holds pools
      → All Holds (pools_of pools missed)
  unfolding pools_of
  pools_of-Holds [] pools hm h = h
  pools_of-Holds ((e, p) ∷ missed) pools hm h =
      pools_of-Holds missed (include p pools) hm.1 (include-Holds p pools hm.0 h)

  erase-MissedHolds :
      (e : Bytes) (missed : List (Bytes × Bytes))
      → MissedHolds missed
      → MissedHolds (erase e missed)
  erase-MissedHolds e [] h = tt
  erase-MissedHolds e ((d, p) ∷ missed) h = ground (arith, erase-MissedHolds e missed)

  insert-MissedHolds :
      (e p : Bytes) (missed : List (Bytes × Bytes))
      → Holds p
      → MissedHolds missed
      → MissedHolds (insert e p missed)
  insert-MissedHolds e p [] hp h = (hp, tt)
  insert-MissedHolds e p ((d, q) ∷ missed) hp h = ground (arith, insert-MissedHolds e p missed hp)

  record_health-MissedHolds :
      (e p : Bytes) (arrived : Bool) (h : RegionalCohortHealth)
      → (arrived ≡ false → Holds p)
      → MissedHolds h.missed
      → MissedHolds (record_health e p arrived h).missed
  unfolding record_health
  record_health-MissedHolds e p true h hp hm = erase-MissedHolds e h.missed hm
  record_health-MissedHolds e p false h hp hm = insert-MissedHolds e p h.missed (hp refl) hm

-- every cohort's missed endpoints are of pools with the cohort's property
abbrev CohortsHold : (Bytes → Bytes → Bool) → List (Bytes × RegionalCohortHealth) → Type 0
CohortsHold m [] = Unit
CohortsHold m ((key, h) ∷ cohorts) = MissedHolds (m key) h.missed × CohortsHold m cohorts

find-CohortsHold :
    (m : Bytes → Bytes → Bool) (key : Bytes) (cohorts : List (Bytes × RegionalCohortHealth))
    → CohortsHold m cohorts
    → MissedHolds (m key) (health_of (find key cohorts)).missed
find-CohortsHold m key [] h = tt
find-CohortsHold m key ((k, c) ∷ cohorts) h = elim (Bool-cases (eqb k key)) [
  | inl same ↦ rw same (subst (λ x. MissedHolds (m x) c.missed) ((eqb_iff k key).0 same) h.0)
  | inr other ↦ rw other (find-CohortsHold m key cohorts h.1)
]

insert-CohortsHold :
    (m : Bytes → Bytes → Bool) (key : Bytes) (c : RegionalCohortHealth)
    (cohorts : List (Bytes × RegionalCohortHealth))
    → MissedHolds (m key) c.missed
    → CohortsHold m cohorts
    → CohortsHold m (insert key c cohorts)
insert-CohortsHold m key c [] hc h = (hc, tt)
insert-CohortsHold m key c ((k, d) ∷ cohorts) hc h = elim (Bool-cases (eqb k key)) [
  | inl same ↦
      rw same (subst (λ x. MissedHolds (m x) c.missed) (sym ((eqb_iff k key).0 same)) hc, h.1)
  | inr other ↦ rw other (h.0, insert-CohortsHold m key c cohorts hc h.1)
]

-- at least five different pools with a property
abbrev pub FivePools : (Bytes → Bool) → Type 0
FivePools m =
    (ps : List Bytes) × (regional_cohort_min_pools ≤ length ps)
    × NoRepeats ps
    × All (λ p. m p ≡ true) ps

is_unhealthy-FivePools :
    (m : Bytes → Bool) (h : RegionalCohortHealth)
    → MissedHolds m h.missed
    → is_unhealthy h ≡ true
    → FivePools m
unfolding is_unhealthy
is_unhealthy-FivePools m h hm unhealthy = (
  pools_of [] h.missed,
  ground arith,
  pools_of-NoRepeats h.missed [] tt,
  pools_of-Holds m h.missed [] hm tt,
)

-- an excluded cohort is one of the cohorts, or was excluded before
excluded_from-FivePools :
    (m : Bytes → Bytes → Bool) (key : Bytes) (cohorts : List (Bytes × RegionalCohortHealth))
    (excluded : List Bytes)
    → CohortsHold m cohorts
    → (has key excluded ≡ true → FivePools (m key))
    → has key (excluded_from excluded cohorts) ≡ true
    → FivePools (m key)
unfolding excluded_from
excluded_from-FivePools m key [] excluded hm before h = before h
excluded_from-FivePools m key ((k, c) ∷ cohorts) excluded hm before h =
    elim (Bool-cases (is_unhealthy c)) [
      | inl unhealthy ↦
          excluded_from-FivePools m key cohorts (include k excluded) hm.1
            (λ now. elim (Bool-cases (eqb k key)) [
              | inl same ↦
                  subst (λ x. FivePools (m x)) ((eqb_iff k key).0 same)
                    (is_unhealthy-FivePools (m k) c hm.0 unhealthy)
              | inr other ↦ before (rw (has-include k key excluded, other) at now)
            ])
            (rw unhealthy at h)
      | inr healthy ↦ excluded_from-FivePools m key cohorts excluded hm.1 before (rw healthy at h)
    ]

module _ {F : Type 0} where
  -- An observation of the cohort that says that an endpoint of the pool missed the block.
  abbrev pub is_miss : Bytes → Bytes → Observation F → Bool
  is_miss key pool_id o =
      eqb (observation_key o) key
      && (eqb o.pool_id pool_id && (not o.arrived && eqb o.source source_remote_scheduled))

  -- whether a pool has a miss in a cohort
  abbrev pub has_miss : List (Observation F) → Bytes → Bytes → Bool
  has_miss [] key pool_id = false
  has_miss (o ∷ os) key pool_id = is_miss key pool_id o || has_miss os key pool_id

  -- what a list of observations may add to the cohorts
  abbrev Recorded : (Bytes → Bytes → Bool) → List (Observation F) → Type 0
  Recorded m [] = Unit
  Recorded m (o ∷ os) =
      (o.arrived ≡ false
        → eqb o.source source_remote_scheduled ≡ true
        → m (observation_key o) o.pool_id ≡ true)
      × Recorded m os

  at_health-CohortsHold :
      (m : Bytes → Bytes → Bool) (o : Observation F) (a : Option (Bytes × Accumulator F))
      (cohorts : List (Bytes × RegionalCohortHealth))
      → (o.arrived ≡ false → m (observation_key o) o.pool_id ≡ true)
      → CohortsHold m cohorts
      → CohortsHold m (at_health o a cohorts)
  at_health-CohortsHold m o none cohorts ho h = h
  at_health-CohortsHold m o (some (key, a)) cohorts ho h =
      insert-CohortsHold m (observation_key o) _ cohorts
        (record_health-MissedHolds (m (observation_key o)) _ o.pool_id o.arrived
          (health_of (find (observation_key o) cohorts)) ho
          (find-CohortsHold m (observation_key o) cohorts h))
        h

  module _ (acc : List (Bytes × Accumulator F)) (pools : List (Bytes × Pool))
      (completed : List Bytes) (windows : List (Bytes × Time)) where
    cohorts_from-CohortsHold :
        (m : Bytes → Bytes → Bool) (os : List (Observation F))
        (cohorts : List (Bytes × RegionalCohortHealth))
        → Recorded m os
        → CohortsHold m cohorts
        → CohortsHold m (cohorts_from acc pools completed windows cohorts os)
    unfolding cohorts_from
    cohorts_from-CohortsHold m [] cohorts r h = h
    cohorts_from-CohortsHold m (o ∷ os) cohorts r h =
        let counted =
          is_scoreable_block completed o
          && is_at o.observed_at (find (observation_key o) windows) in
        elim (Bool-cases (eqb o.source source_remote_scheduled)) [
          | inl scheduled ↦ rw scheduled elim (Bool-cases counted) [
            | inl counts ↦ rw counts (
                cohorts_from-CohortsHold m os _ r.1
                  (at_health-CohortsHold m o _ cohorts (λ missed. r.0 missed scheduled) h))
            | inr ignored ↦ rw ignored (cohorts_from-CohortsHold m os cohorts r.1 h)
          ]
          | inr other ↦ rw other (cohorts_from-CohortsHold m os cohorts r.1 h)
        ]

    Recorded-has_miss :
        (m : Bytes → Bytes → Bool) (os : List (Observation F))
        → ((key p : Bytes) → has_miss os key p ≡ true → m key p ≡ true)
        → Recorded m os
    Recorded-has_miss m [] f = tt
    Recorded-has_miss m (o ∷ os) f = (
      λ missed scheduled. f (observation_key o) o.pool_id (
          rw
            (
              (eqb_iff (observation_key o) (observation_key o)).1 refl,
              (eqb_iff o.pool_id o.pool_id).1 refl,
              missed,
              scheduled,
            )
            refl),
      Recorded-has_miss m os
          (λ key p later. f key p (or_later (is_miss key p o) (has_miss os key p) later)),
    )

    -- A cohort is left out as unhealthy only if at least five different pools have a scheduled observation of it that did
    -- not arrive, whatever else was observed.
    pub unhealthy_regional_cohorts-FivePools :
        (os : List (Observation F)) (key : Bytes)
        → has key (unhealthy_regional_cohorts os acc pools completed windows) ≡ true
        → FivePools (has_miss os key)
    unfolding unhealthy_regional_cohorts
    unhealthy_regional_cohorts-FivePools os key h =
        excluded_from-FivePools (has_miss os) key _ []
          (cohorts_from-CohortsHold (has_miss os) os []
            (Recorded-has_miss (has_miss os) os (λ k p q. q)) tt)
          (λ no. ground (arith, no)) h
