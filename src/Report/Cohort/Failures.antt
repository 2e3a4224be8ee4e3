-- ===== src/Report/Cohort/Failures.antt =====
-- Which cohorts of internal/report/report.go are left out once a block has failed in several regions.
use stratum_stats.Base.{
  ◌≡◌, refl, ap, ◌∙◌, Bool, true, false, ◌&&◌, ◌||◌, Bytes, eqb, eqb_iff, List, [], ◌∷◌, Option,
  none, some, length, if◌then◌else◌, find, insert, bytes_eq, leb, ◌==◌, has, include, arith,
  find-insert, has-include, Bool-cases, ==_iff, sym, inl, inr,
}
use stratum_stats.Model.{Observation}
use stratum_stats.Report.Keys.{observation_key, observation_key_parts}
use stratum_stats.Report.Cohort.{
  add_failed_vantage, failed_vantages_from, failed_blocks_from, multi_region_failed_blocks,
  exclude_blocks, expand_multi_region_observer_failures,
}

-- The different vantages of the excluded cohorts of a block.
abbrev pub vantages_of : Bytes → List Bytes → List Bytes → List Bytes
vantages_of block_id vantages [] = vantages
vantages_of block_id vantages (key ∷ keys) =
    let parts = observation_key_parts key in
    vantages_of block_id (if eqb parts.1 block_id then include parts.0 vantages else vantages) keys

-- A block that is excluded in two vantages or more.
abbrev pub has_failed : List Bytes → Bytes → Bool
has_failed excluded block_id = leb 2 (length (vantages_of block_id [] excluded))

abbrev vantages_in : Option (List Bytes) → List Bytes
vantages_in none = []
vantages_in (some vs) = vs

-- One binding for each block.
abbrev IsMap : List (Bytes × List Bytes) → Type 0
IsMap [] = Unit
IsMap ((k, v) ∷ m) = (find k m ≡ none) × IsMap m

insert-IsMap :
    (k : Bytes) (v : List Bytes) (m : List (Bytes × List Bytes)) → IsMap m → IsMap (insert k v m)
insert-IsMap k v [] h = (refl, tt)
insert-IsMap k v ((j, w) ∷ m) h =
    ground (arith, insert-IsMap k v m, find-insert k j v m, eqb_iff j k, eqb_iff k j)

failed_vantages_from-IsMap :
    (keys : List Bytes) (m : List (Bytes × List Bytes))
    → IsMap m
    → IsMap (failed_vantages_from m keys)
unfolding failed_vantages_from add_failed_vantage
failed_vantages_from-IsMap [] m h = h
failed_vantages_from-IsMap (key ∷ keys) m h =
    failed_vantages_from-IsMap keys (add_failed_vantage (observation_key_parts key) m)
      (insert-IsMap _ _ m h)

add_failed_vantage-vantages :
    (b : Bytes) (p : Bytes × Bytes) (m : List (Bytes × List Bytes))
    → vantages_in (find b (add_failed_vantage p m))
      ≡ (if eqb p.1 b then include p.0 (vantages_in (find b m)) else vantages_in (find b m))
unfolding add_failed_vantage
add_failed_vantage-vantages b p m =
    let vs : List Bytes = elim (find p.1 m) [ none ↦ p.0 ∷ [] | some vs ↦ include p.0 vs ] in
    elim (Bool-cases (eqb p.1 b)) [
      | inl same ↦
          rw (find-insert p.1 b vs m, same, sym ((eqb_iff p.1 b).0 same)) (added p.0 (find p.1 m))
      | inr other ↦ rw (find-insert p.1 b vs m, other) refl
    ]
  where
    added :
        (vantage : Bytes) (o : Option (List Bytes))
        → vantages_in (some (elim o [ none ↦ vantage ∷ [] | some vs ↦ include vantage vs ]))
          ≡ include vantage (vantages_in o)
    added vantage none = refl
    added vantage (some vs) = refl

failed_vantages_from-vantages :
    (b : Bytes) (keys : List Bytes) (m : List (Bytes × List Bytes))
    → vantages_in (find b (failed_vantages_from m keys))
      ≡ vantages_of b (vantages_in (find b m)) keys
unfolding failed_vantages_from
failed_vantages_from-vantages b [] m = refl
failed_vantages_from-vantages b (key ∷ keys) m =
    failed_vantages_from-vantages b keys (add_failed_vantage (observation_key_parts key) m)
    ∙ ap (λ vs. vantages_of b vs keys) (add_failed_vantage-vantages b (observation_key_parts key) m)

has-failed_blocks_from :
    (b : Bytes) (blocks : List Bytes) (m : List (Bytes × List Bytes))
    → IsMap m
    → has b (failed_blocks_from blocks m)
      ≡ (has b blocks || leb 2 (length (vantages_in (find b m))))
unfolding failed_blocks_from
has-failed_blocks_from b blocks [] h = ground arith
has-failed_blocks_from b blocks ((k, vs) ∷ m) h = ground (
  arith,
  has-failed_blocks_from b blocks m h.1,
  has-failed_blocks_from b (include k blocks) m h.1,
  has-include k b blocks,
  eqb_iff k b,
)

has-multi_region_failed_blocks :
    (b : Bytes) (excluded : List Bytes)
    → has b (multi_region_failed_blocks excluded) ≡ has_failed excluded b
unfolding multi_region_failed_blocks
has-multi_region_failed_blocks b excluded =
    has-failed_blocks_from b [] _ (failed_vantages_from-IsMap excluded [] tt)
    ∙ ap (λ vs. leb 2 (length vs)) (failed_vantages_from-vantages b excluded [])

or_false : (b : Bool) → (b || false) ≡ b
or_false true = refl
or_false false = refl

module _ {F : Type 0} where
  -- An observation of the given cohort whose block has the property.
  abbrev pub any_cohort : (Bytes → Bool) → Bytes → List (Observation F) → Bool
  any_cohort p key [] = false
  any_cohort p key (o ∷ os) = (p o.block_id && eqb (observation_key o) key) || any_cohort p key os

  has-exclude_blocks :
      (failed excluded : List Bytes) (key : Bytes) (os : List (Observation F))
      → has key (exclude_blocks failed excluded os)
        ≡ (has key excluded || any_cohort (λ b. has b failed) key os)
  unfolding exclude_blocks
  has-exclude_blocks failed excluded key [] = ground arith
  has-exclude_blocks failed excluded key (o ∷ os) = ground (
    arith,
    has-exclude_blocks failed excluded key os,
    has-exclude_blocks failed (include (observation_key o) excluded) key os,
    has-include (observation_key o) key excluded,
  )

  any_cohort-none :
      (failed : List Bytes) (key : Bytes) (os : List (Observation F))
      → length failed ≡ 0
      → any_cohort (λ b. has b failed) key os ≡ false
  any_cohort-none [] key [] h = refl
  any_cohort-none [] key (o ∷ os) h = any_cohort-none [] key os h
  any_cohort-none (f ∷ fs) key os h = ground arith

  any_cohort-same :
      (p q : Bytes → Bool) (key : Bytes) (os : List (Observation F))
      → ((b : Bytes) → p b ≡ q b)
      → any_cohort p key os ≡ any_cohort q key os
  any_cohort-same p q key [] same = refl
  any_cohort-same p q key (o ∷ os) same = rw (same o.block_id, any_cohort-same p q key os same) refl

  -- The cohorts that are left out are those that were unhealthy, and those of an observation of a block that was
  -- unhealthy in two vantages or more; so a failure in one region stays there.
  pub has-expand_multi_region_observer_failures :
      (os : List (Observation F)) (excluded : List Bytes) (key : Bytes)
      → has key (expand_multi_region_observer_failures os excluded)
        ≡ (has key excluded || any_cohort (has_failed excluded) key os)
  unfolding expand_multi_region_observer_failures
  has-expand_multi_region_observer_failures os excluded key =
      let failed = multi_region_failed_blocks excluded in
      let same = has-multi_region_failed_blocks in
      elim (Bool-cases (length failed == 0)) [
        | inl z ↦
            rw
              (
                z,
                any_cohort-same (has_failed excluded) (λ b. has b failed) key os
                    (λ b. sym (same b excluded)),
                any_cohort-none failed key os ((==_iff (length failed) 0).0 z),
              )
              (sym (or_false (has key excluded)))
        | inr z ↦ rw (z) (
            has-exclude_blocks failed excluded key os
            ∙ ap (λ x. has key excluded || x)
                (any_cohort-same (λ b. has b failed) (has_failed excluded) key os
                  (λ b. same b excluded)))
      ]
