-- ===== src/Report/Metrics/Percentiles.antt =====
-- What the percentiles and the histories of internal/report/report.go are made of: indices and limits.
use stratum_stats.Base.{
  ℕ, suc, ◌<◌, ◌-◌, ◌≡◌, refl, ℤ, pos, negsuc, Bool, true, false, ◌==◌, List, [], ◌∷◌, length,
  if◌then◌else◌, get_or, Float, arith, All, sort_by, length-sort_by, ltb, min, map, drop,
  length-drop, ◌∙◌, ap, ◌&&◌, zero,
}
use stratum_stats.Report.Accumulator.{MetricSample}
use stratum_stats.Report.Metrics.{clamp_index, recent_metric_history, is_older, history_point}

pub get_or-All :
    {A : Type 0} (P : A → Type 0) (xs : List A) (i : ℕ) (d : A)
    → i < length xs
    → All P xs
    → P (get_or xs i d)
get_or-All P [] i d bound h = ground arith
get_or-All P (x ∷ xs) zero d bound h = h.0
get_or-All P (x ∷ xs) (suc i) d bound h = get_or-All P xs i d (ground arith) h.1

module _ (fl : Float) where
  open fl use {F}

  pub clamp_index_lt : (c : ℤ) (n : ℕ) → (n == 0) ≡ false → clamp_index fl c n < n
  unfolding clamp_index
  clamp_index_lt (pos k) n h = ground arith
  clamp_index_lt (negsuc k) n h = ground arith

  length-map : {A B : Type 0} (f : A → B) (xs : List A) → length (map f xs) ≡ length xs
  length-map f [] = refl
  length-map f (x ∷ xs) = ap suc (length-map f xs)

  -- A history with a limit has as many points as there are samples, but at most the limit.
  pub length-recent_metric_history :
      (samples : List (MetricSample F)) (places limit : ℕ)
      → 0 < limit
      → length (recent_metric_history fl samples places limit) ≡ min limit (length samples)
  unfolding recent_metric_history
  length-recent_metric_history samples places limit h =
      let sorted = sort_by is_older samples in
      length-map (history_point fl places) (
        if ltb 0 limit && ltb limit (length sorted)
        then drop (length sorted - limit) sorted
        else sorted)
      ∙ cut (ltb 0 limit && ltb limit (length sorted)) refl
    where
      cut :
          (b : Bool)
          → b ≡ (ltb 0 limit && ltb limit (length (sort_by is_older samples)))
          → length (
              if b
              then drop (length (sort_by is_older samples) - limit) (sort_by is_older samples)
              else sort_by is_older samples)
            ≡ min limit (length samples)
      cut true e = omega (
        arith,
        length-drop (length (sort_by is_older samples) - limit) (sort_by is_older samples),
        length-sort_by is_older samples,
      )
      cut false e = ground (arith, length-sort_by is_older samples, e)
