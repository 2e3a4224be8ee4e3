-- ===== src/Report/Prepare/Unique.antt =====
-- What uniqueObservations leaves of a list.
use stratum_stats.Base.{
  ◌≡◌, refl, Bool, true, false, ◌||◌, Bytes, eqb, eqb_iff, is_empty, List, [], ◌∷◌, has, bytes_eq,
  arith, ◌⊎◌,
}
use stratum_stats.Model.{Observation}
use stratum_stats.Report.Prepare.{unique_from, unique_observations}

module _ {F : Type 0} where
  -- No id of the list is among those that are given, and none stands in it twice; the empty id may.
  abbrev pub IsDistinct : List Bytes → List (Observation F) → Type 0
  IsDistinct seen [] = Unit
  IsDistinct seen (o ∷ os) =
      ((is_empty o.observation_id ≡ true) × IsDistinct seen os)
      ⊎ ((is_empty o.observation_id ≡ false)
          × (has o.observation_id seen ≡ false)
          × IsDistinct (o.observation_id ∷ seen) os)

  unique_from-IsDistinct :
      (seen : List Bytes) (os : List (Observation F)) → IsDistinct seen (unique_from seen os)
  unfolding unique_from
  unique_from-IsDistinct seen [] = tt
  unique_from-IsDistinct seen (o ∷ os) =
      ground
        (arith, unique_from-IsDistinct seen os, unique_from-IsDistinct (o.observation_id ∷ seen) os)

  -- A list without a repeated id is left as it is.
  IsDistinct-unique_from :
      (seen : List Bytes) (os : List (Observation F))
      → IsDistinct seen os
      → unique_from seen os ≡ os
  unfolding unique_from
  IsDistinct-unique_from seen [] h = refl
  IsDistinct-unique_from seen (o ∷ os) h =
      ground
        (arith, IsDistinct-unique_from seen os, IsDistinct-unique_from (o.observation_id ∷ seen) os)

  -- The ids that are not empty are pairwise different in what `unique_observations` returns, and what has this property
  -- is returned as it is; so a second pass changes nothing.
  pub unique_observations-IsDistinct :
      (os : List (Observation F))
      → IsDistinct [] (unique_observations os)
        × (unique_observations (unique_observations os) ≡ unique_observations os)
  unfolding unique_observations
  unique_observations-IsDistinct os = (
    unique_from-IsDistinct [] os,
    IsDistinct-unique_from [] (unique_from [] os) (unique_from-IsDistinct [] os),
  )

  -- An id that the list has is among those seen before or in the result.
  abbrev pub has_id : Bytes → List (Observation F) → Bool
  has_id id [] = false
  has_id id (o ∷ os) = eqb o.observation_id id || has_id id os

  unique_from-has_id :
      (id : Bytes) (seen : List Bytes) (os : List (Observation F))
      → is_empty id ≡ false
      → (has id seen || has_id id (unique_from seen os)) ≡ (has id seen || has_id id os)
  unfolding unique_from
  unique_from-has_id id seen [] n = refl
  unique_from-has_id id seen (o ∷ os) n = ground (
    arith,
    unique_from-has_id id seen os n,
    unique_from-has_id id (o.observation_id ∷ seen) os n,
    eqb_iff o.observation_id id,
  )

  -- No id is lost: an id that is not empty stands in what `unique_observations` returns exactly if it stands in the list.
  pub unique_observations-has_id :
      (id : Bytes) (os : List (Observation F))
      → is_empty id ≡ false
      → has_id id (unique_observations os) ≡ has_id id os
  unfolding unique_observations
  unique_observations-has_id id os n = unique_from-has_id id [] os n
