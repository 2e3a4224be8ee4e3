-- ===== src/Report/Metrics.antt =====
-- The statistics of internal/report/report.go: percentiles, rounding, availability, histories and counts. What
-- Go visits in an order of a map is visited here in the order of the association list.
pub mod Percentiles
pub mod Rank
use stratum_stats.Base.{
  ℕ, suc, ◌+◌, ◌-◌, ◌*◌, ℤ, pos, negsuc, Bool, true, false, ◌&&◌, ◌||◌, not, ◌==◌, Bytes, List, [],
  ◌∷◌, ◌++◌, Option, none, some, length, if◌then◌else◌, find, insert, bytes_eq, ltb, leb, drop,
  get_or, include, Float, sort_by, map, keep, min,
}
use stratum_stats.Model.{Time}
use stratum_stats.Model.Reports.{MetricHistoryPoint}
use stratum_stats.Report.Keys.{observation_key_parts}
use stratum_stats.Report.Accumulator.{MetricSample, within_latency_window}

-- by time, and at the same time by the order of the observations
abbrev pub is_older : {F : Type 0} → MetricSample F → MetricSample F → Bool
is_older s t = if s.at == t.at then ltb s.order t.order else ltb s.at t.at

-- the map `byBlock`
unfoldable pub by_block_from :
    {F : Type 0}
    → List (Bytes × List (MetricSample F))
    → List (MetricSample F)
    → List (Bytes × List (MetricSample F))
by_block_from blocks [] = blocks
by_block_from blocks (s ∷ samples) =
    by_block_from
      (insert s.block_id
        (elim (find s.block_id blocks) [ none ↦ s ∷ [] | some regional ↦ regional ++ (s ∷ []) ])
        blocks)
      samples

-- the oldest of a block's samples, from `regional[0]` on
unfoldable pub oldest_sample :
    {F : Type 0} → MetricSample F → List (MetricSample F) → MetricSample F
oldest_sample canonical [] = canonical
oldest_sample canonical (s ∷ samples) =
    oldest_sample
      (if ltb s.at canonical.at || (s.at == canonical.at && ltb s.order canonical.order)
        then s
        else canonical)
      samples

abbrev pub block_ids_from : List Bytes → List Bytes → List Bytes
block_ids_from ids [] = ids
block_ids_from ids (key ∷ keys) = block_ids_from (include (observation_key_parts key).1 ids) keys

abbrev pub keys_of : {V : Type 0} → List (Bytes × V) → List Bytes
keys_of [] = []
keys_of ((k, v) ∷ m) = k ∷ keys_of m

-- uniqueBlockCounts
unfoldable pub unique_block_counts :
    {F : Type 0} → List Bytes → List (Bytes × MetricSample F) → ℕ × ℕ
unique_block_counts blocks offsets =
    (length (block_ids_from [] blocks), length (block_ids_from [] (keys_of offsets)))

-- the entries of blockTimes within the window
unfoldable pub recent_keys : Time → List (Bytes × Time) → List Bytes
unfolding within_latency_window
recent_keys now [] = []
recent_keys now ((key, observed_at) ∷ times) =
    let rest = recent_keys now times in
    if within_latency_window observed_at now then key ∷ rest else rest

-- recentWinEligibleBlocks
unfoldable pub recent_win_eligible_blocks : List (Bytes × Time) → Time → Bool → ℕ
unfolding recent_keys
recent_win_eligible_blocks times now combine_vantages =
    if not combine_vantages
    then length (recent_keys now times)
    else length (block_ids_from [] (recent_keys now times))

-- the local type `counts` of combinedVantageAvailability
pub record Counts : Type 0 where
  pub eligible : ℕ
  pub delivered : ℕ

abbrev counts_of : Option Counts → Counts
counts_of none = record { eligible = 0; delivered = 0 }
counts_of (some c) = c

unfoldable pub count_eligible : List (Bytes × Counts) → List Bytes → List (Bytes × Counts)
count_eligible counts [] = counts
count_eligible counts (key ∷ keys) =
    let vantage = (observation_key_parts key).0 in
    let c = counts_of (find vantage counts) in
    count_eligible (insert vantage (record c { eligible = c.eligible + 1 }) counts) keys

unfoldable pub count_delivered : List (Bytes × Counts) → List Bytes → List (Bytes × Counts)
count_delivered counts [] = counts
count_delivered counts (key ∷ keys) =
    let vantage = (observation_key_parts key).0 in
    let c = counts_of (find vantage counts) in
    count_delivered (insert vantage (record c { delivered = c.delivered + 1 }) counts) keys

module _ (fl : Float) where
  open fl use {F, of_ℕ, add, sub, mul, div}

  -- `<` of sort.Float64s, which puts NaN first
  unfoldable pub float_less : F → F → Bool
  float_less x y = fl.ltb x y || (not (fl.eq x x) && fl.eq y y)

  abbrev pub sort_floats : List F → List F
  sort_floats = sort_by float_less

  -- the index of percentile, within 0 and n - 1
  unfoldable pub clamp_index : ℤ → ℕ → ℕ
  clamp_index (negsuc k) n = 0
  clamp_index (pos k) n = if leb n (k - 1) then n - 1 else k - 1

  unfoldable pub percentile : List F → F → F
  unfolding clamp_index
  percentile sorted p =
      if length sorted == 0
      then of_ℕ 0
      else get_or sorted (clamp_index (fl.ceil (mul p (of_ℕ (length sorted)))) (length sorted))
          (of_ℕ 0)

  unfoldable pub round : F → ℕ → F
  round v places = let m = fl.pow10 places in div (fl.nearest (mul v m)) m

  unfoldable pub clamp : F → F → F → F
  clamp value minimum maximum = fl.max minimum (fl.min maximum value)

  -- availabilityForChecks
  unfoldable pub availability_for_checks : List Bytes → List (Bytes × MetricSample F) → F
  availability_for_checks blocks offsets =
      if length blocks == 0
      then of_ℕ 0
      else let arrivals = length offsets in
        let bounded = if ltb (length blocks) arrivals then length blocks else arrivals in
        div (mul (of_ℕ 100) (of_ℕ bounded)) (of_ℕ (length blocks))

  -- the loop over the vantages: the sum of their availabilities, and how many there are
  unfoldable pub measured_from : F → ℕ → List (Bytes × Counts) → F × ℕ
  measured_from total measured [] = (total, measured)
  measured_from total measured ((vantage, c) ∷ counts) =
      let delivered = if ltb c.eligible c.delivered then c.eligible else c.delivered in
      let skipped = c.eligible == 0 in
      measured_from
        (if skipped
          then total
          else add total (div (mul (of_ℕ 100) (of_ℕ delivered)) (of_ℕ c.eligible)))
        (if skipped then measured else measured + 1) counts

  -- combinedVantageAvailability
  unfoldable pub combined_vantage_availability : List Bytes → List (Bytes × MetricSample F) → F
  unfolding measured_from count_eligible count_delivered
  combined_vantage_availability blocks offsets =
      let counts = count_delivered (count_eligible [] blocks) (keys_of offsets) in
      if length counts == 0
      then of_ℕ 0
      else let (total, measured) = measured_from (of_ℕ 0) 0 counts in
        if measured == 0 then of_ℕ 0 else div total (of_ℕ measured)

  -- the sample that stands for a block in several vantages
  unfoldable pub block_median : Bytes → List (MetricSample F) → List (MetricSample F)
  unfolding percentile oldest_sample
  block_median block_id [] = []
  block_median block_id (s ∷ samples) =
      let value =
        percentile (sort_floats (map (λ t. t.value) (s ∷ samples))) (div (of_ℕ 5) (of_ℕ 10)) in
      let canonical = oldest_sample s (s ∷ samples) in
      record canonical { value = value; win = fl.eq value (of_ℕ 0); block_id = block_id } ∷ []

  unfoldable pub block_medians : List (Bytes × List (MetricSample F)) → List (MetricSample F)
  unfolding block_median
  block_medians [] = []
  block_medians ((block_id, samples) ∷ blocks) =
      block_median block_id samples ++ block_medians blocks

  -- medianLatencyByBlock
  unfoldable pub median_latency_by_block : List (MetricSample F) → List (MetricSample F)
  unfolding block_medians by_block_from
  median_latency_by_block samples = block_medians (by_block_from [] samples)

  abbrev pub history_point : ℕ → MetricSample F → MetricHistoryPoint F
  history_point places s = record { observed_at = s.at; value = round s.value places; win = s.win }

  -- recentMetricHistory; a limit of 0 is none
  unfoldable pub recent_metric_history : List (MetricSample F) → ℕ → ℕ → List (MetricHistoryPoint F)
  recent_metric_history samples places limit =
      let sorted = sort_by is_older samples in
      let recent =
        if ltb 0 limit && ltb limit (length sorted)
        then drop (length sorted - limit) sorted
        else sorted in
      map (history_point places) recent

  -- estimatedMiningLoss
  unfoldable pub estimated_mining_loss : Option F → F → ℕ → Option F
  unfolding clamp round
  estimated_mining_loss none availability blocks = none
  estimated_mining_loss (some latency) availability blocks =
      if blocks == 0
      then none
      else let latency_loss = mul (div latency (of_ℕ 600000)) (of_ℕ 100) in
        let available = clamp (div availability (of_ℕ 100)) (of_ℕ 0) (of_ℕ 1) in
        some (round (add (mul (sub (of_ℕ 1) available) (of_ℕ 100)) (mul available latency_loss)) 4)
