-- ===== src/Web/Status.antt =====
-- buildVantageStatuses of internal/web/regional.go, and the vantages that the dashboard offers.
pub mod Current
use stratum_stats.Base.{
  ℕ, ◌+◌, ◌-◌, ◌*◌, ℤ, pos, eq_ℕ, leb_ℕ, Bool, true, false, ◌&&◌, ◌||◌, not, ◌==◌, Bytes, bytes,
  eqb, is_empty, List, [], ◌∷◌, ◌++◌, Option, none, some, length, if◌then◌else◌, find, insert,
  bytes_eq, ltb, has, include,
}
use stratum_stats.Model.{
  Time, second, Observation, EndpointBlockSample, EndpointSetup, ProtocolSample,
  source_remote_scheduled, record_type_protocol, record_type_probe_run, record_type_block_sample,
}
use stratum_stats.Model.Region.{ProductionRegion, enabled_regions}

-- vantageStaleAfter
abbrev pub vantage_stale_after : ℕ
vantage_stale_after = 12 * 3600 * second

abbrev pub vantage_names : List (Bytes × Bytes)
vantage_names =
    (bytes "us-east", bytes "US East")
    ∷ (bytes "europe", bytes "Europe")
    ∷ (bytes "us-west", bytes "US West")
    ∷ (bytes "japan", bytes "Japan")
    ∷ (bytes "singapore", bytes "Southeast Asia")
    ∷ []

abbrev text_of : Option Bytes → Bytes
text_of none = []
text_of (some t) = t

-- productionVantageConfiguration; between name and city stands a middle dot, in UTF-8
unfoldable pub labels_from : List (Bytes × Bytes) → List ProductionRegion → List (Bytes × Bytes)
labels_from labels [] = labels
labels_from labels (r ∷ regions) =
    labels_from
      (insert r.vantage (text_of (find r.vantage vantage_names) ++ (32 ∷ 194 ∷ 183 ∷ 32 ∷ r.city))
        labels)
      regions

unfoldable pub order_of : List ProductionRegion → List Bytes
order_of [] = []
order_of (r ∷ regions) = r.vantage ∷ order_of regions

-- vantageLabels and vantageOrder
unfoldable pub vantage_labels : List (Bytes × Bytes)
unfolding labels_from enabled_regions
vantage_labels = labels_from ((bytes "unknown", bytes "Local") ∷ []) enabled_regions

unfoldable pub vantage_order : List Bytes
unfolding order_of enabled_regions
vantage_order = order_of enabled_regions

pub record VantageStatus : Type 0 where
  pub id : Bytes
  pub label : Bytes
  pub measurement_mode : Bytes
  pub last_successful_run_at : Option Time
  pub last_observation_at : Option Time
  pub config_revision : Bytes
  pub config_current : Bool
  pub blocks : ℕ
  pub protocol_attempts : ℕ
  pub dropped_observations : ℤ
  pub incomplete : Bool
  pub stale : Bool

-- the entries of a vantage in the maps `statuses`, `blocks` and `latestRuns`
pub record VantageProgress : Type 0 where
  pub status : VantageStatus
  pub block_ids : List Bytes
  pub latest_run : Time

unfoldable pub new_progress : Bytes → VantageProgress
unfolding vantage_labels
new_progress vantage = record {
  status = record {
    id = vantage;
    label = text_of (find vantage vantage_labels);
    measurement_mode = bytes "scheduled";
    last_successful_run_at = none;
    last_observation_at = none;
    config_revision = [];
    config_current = false;
    blocks = 0;
    protocol_attempts = 0;
    dropped_observations = pos 0;
    incomplete = false;
    stale = true;
  };
  block_ids = [];
  latest_run = 0;
}

unfoldable pub progress_from : List Bytes → List (Bytes × VantageProgress)
unfolding new_progress
progress_from [] = []
progress_from (v ∷ vantages) = insert v (new_progress v) (progress_from vantages)

-- the later of a time and the one that is there
abbrev pub later_of : Time → Option Time → Option Time
later_of at none = some at
later_of at (some old) = if ltb old at then some at else some old

abbrev pub timed : {F : Type 0} → Option (ProtocolSample F) → ℕ
timed none = 0
timed (some s) = 1

abbrev pub setup_attempts : {F : Type 0} → Option (EndpointSetup F) → ℕ
setup_attempts none = 0
setup_attempts (some s) = timed s.connect + timed s.tls + timed s.subscribe + timed s.authorize

-- blockSetupAttempts
unfoldable pub block_setup_attempts : {F : Type 0} → List (EndpointBlockSample F) → ℕ
block_setup_attempts [] = 0
block_setup_attempts (s ∷ samples) = setup_attempts s.setup + block_setup_attempts samples

module _ {F : Type 0} where
  abbrev pub is_sample : Observation F → Bool
  is_sample o = eqb o.record_type record_type_block_sample

  abbrev pub is_run : Observation F → Bool
  is_run o = eqb o.record_type record_type_probe_run

  -- an atomic block sample, or a probe run that ended well
  unfoldable pub is_success : Observation F → Bool
  is_success o =
      is_sample o || (is_run o && (eqb o.run_status (bytes "ok") && eq_ℕ o.dropped_observations 0))

  unfoldable pub attempts_of : Observation F → ℕ
  unfolding block_setup_attempts
  attempts_of o =
      (if eqb o.record_type record_type_protocol then 1 else 0)
      + (if is_sample o then block_setup_attempts o.endpoint_samples else 0)

  -- what the newest run or sample of a vantage says of it
  unfoldable pub with_latest_run : Observation F → VantageProgress → VantageProgress
  with_latest_run o p =
      if (is_sample o || is_run o) && (p.latest_run == 0 || ltb p.latest_run o.observed_at)
      then record p {
        latest_run = o.observed_at;
        status = record p.status {
          config_revision = o.config_revision;
          dropped_observations = if is_run o then o.dropped_observations else pos 0;
          incomplete =
              is_run o
              && (not (eqb o.run_status (bytes "ok")) || not (leb_ℕ o.dropped_observations 0));
        };
      }
      else p

  -- one round of the loop, for a scheduled observation of the vantage
  unfoldable pub update_progress : Observation F → VantageProgress → VantageProgress
  unfolding with_latest_run is_success attempts_of
  update_progress o p =
      let status : VantageStatus = record p.status {
        last_observation_at = later_of o.observed_at p.status.last_observation_at;
        protocol_attempts = p.status.protocol_attempts + attempts_of o;
        last_successful_run_at =
            if is_success o
            then later_of o.observed_at p.status.last_successful_run_at
            else p.status.last_successful_run_at;
      } in
      let counted = (is_empty o.record_type && not (is_empty o.block_id)) || is_sample o in
      with_latest_run o (record p {
        status = status;
        block_ids = if counted then include o.block_id p.block_ids else p.block_ids;
      })

  abbrev pub update_at :
      Observation F
      → Option VantageProgress
      → List (Bytes × VantageProgress)
      → List (Bytes × VantageProgress)
  update_at o none progress = progress
  update_at o (some p) progress =
      if eqb o.source source_remote_scheduled
      then insert o.vantage (update_progress o p) progress
      else progress

  -- the loop over the observations, with the ids that it has seen
  unfoldable pub observe_all :
      List Bytes
      → List (Bytes × VantageProgress)
      → List (Observation F)
      → List (Bytes × VantageProgress)
  unfolding update_progress
  observe_all seen progress [] = progress
  observe_all seen progress (o ∷ os) =
      let id = o.observation_id in
      let skipped = not (is_empty id) && has id seen in
      observe_all (if is_empty id || skipped then seen else id ∷ seen)
        (if skipped then progress else update_at o (find o.vantage progress) progress) os

-- whether the last successful run is missing or too old
abbrev pub is_stale : Time → Option Time → Bool
is_stale now none = true
is_stale now (some at) = ltb vantage_stale_after (now - at)

-- the status of a vantage, after the loop
unfoldable pub finish_status : Time → Bytes → VantageProgress → VantageStatus
finish_status now revision p = record p.status {
  blocks = length p.block_ids;
  config_current = not (is_empty p.status.config_revision) && eqb p.status.config_revision revision;
  stale = is_stale now p.status.last_successful_run_at;
}

abbrev pub progress_of : Bytes → Option VantageProgress → VantageProgress
progress_of vantage none = new_progress vantage
progress_of vantage (some p) = p

unfoldable pub statuses_of :
    Time → Bytes → List (Bytes × VantageProgress) → List Bytes → List VantageStatus
unfolding finish_status
statuses_of now revision progress [] = []
statuses_of now revision progress (v ∷ vantages) =
    finish_status now revision (progress_of v (find v progress))
    ∷ statuses_of now revision progress vantages

-- buildVantageStatuses
unfoldable pub build_vantage_statuses :
    {F : Type 0} → List (Observation F) → Time → Bytes → List VantageStatus
unfolding statuses_of observe_all progress_from vantage_order
build_vantage_statuses os now revision =
    statuses_of now revision (observe_all [] (progress_from vantage_order) os) vantage_order

-- selectedVantageStatus
unfoldable pub selected_vantage_status : List VantageStatus → Bytes → Option VantageStatus
selected_vantage_status [] vantage = none
selected_vantage_status (s ∷ statuses) vantage =
    let rest = selected_vantage_status statuses vantage in
    if is_empty vantage then none else if eqb s.id vantage then some s else rest
