-- ===== src/Examples/Pages.antt =====
-- The theorems about the dashboard at concrete runs and reports.
use stratum_stats.Base.{
  ℕ, ◌%◌, ◌≤◌, ◌≡◌, refl, true, false, bytes, List, [], ◌∷◌, ◌++◌, none, some, length, ok, err, ◌⊎◌,
  map, All,
}
use stratum_stats.Model.{
  Pool, Observation, zero_observation, source_remote_scheduled, record_type_block_sample,
}
use stratum_stats.Model.Reports.{PoolReport}
use stratum_stats.Report.Accumulator.{new_accumulator, no_endpoint}
use stratum_stats.Report.Build.{empty_report}
use stratum_stats.Web.Scheduler.{
  Scheduler, new_scheduler, generations, request_refresh, start_refresh, RefreshEvent, requested,
  started, Run, begin, later, request, start,
}
use stratum_stats.Web.Scheduler.Seen.{unseen, IsOwn, Run-unseen, Run-idle}
use stratum_stats.Web.Cache.{Call, snapshot, records, invalidate, replies}
use stratum_stats.Web.Cache.Direct.{replies_direct, replies-direct}
use stratum_stats.Web.Page.{build_dashboard_page, displayed_pools, websites_from}
use stratum_stats.Web.Page.Lists.{count_of, count_in, ListsVerified, build_dashboard_page-lists}
use stratum_stats.Web.Status.{VantageStatus, vantage_order, build_vantage_statuses}
use stratum_stats.Web.Status.Current.{IsCurrent, build_vantage_statuses-IsCurrent}
use stratum_stats.Examples.Samples.{naturals}

-- a request, and the start of the refresh that it asks for
abbrev refresh_started : Scheduler
refresh_started = start_refresh 0 (request_refresh new_scheduler)

started-Run : Run (started ∷ requested ∷ []) refresh_started
unfolding request_refresh start_refresh
started-Run = later (later begin request) (start 0 refl)

Run-unseen_example :
    ((refresh_started.running ≡ true) × (length refresh_started.runners ≡ 1))
    ⊎ ((refresh_started.running ≡ false)
        × (refresh_started.runners ≡ [])
        × (unseen (started ∷ requested ∷ []) % generations ≡ 0))
Run-unseen_example = Run-unseen started-Run

Run-idle_example :
    (more : List RefreshEvent) × (t : Scheduler) × Run (more ++ (started ∷ requested ∷ [])) t
    × (t.running ≡ false)
    × (t.runners ≡ [])
    × All IsOwn more
    × (length more ≤ 3)
    × (unseen (more ++ (started ∷ requested ∷ [])) % generations ≡ 0)
Run-idle_example = Run-idle started-Run

abbrev calls : List (Call naturals ℕ)
calls =
    records 1 (err 7)
    ∷ snapshot (bytes "us-east") 2 (ok (zero_observation 0 ∷ []))
    ∷ snapshot (bytes "us-east") 3 (err 7)
    ∷ invalidate
    ∷ snapshot [] 4 (ok [])
    ∷ []

replies-direct_example :
    replies naturals ℕ calls (record { pools = []; prepared = none; snapshots = [] })
    ≡ replies_direct naturals ℕ [] calls none
replies-direct_example = replies-direct naturals ℕ [] calls

abbrev solo_pool : Pool
solo_pool = record {
  id = bytes "a";
  name = bytes "A";
  operator = [];
  website = bytes "https://a";
  category = bytes "solo";
  status = [];
  products = [];
  endpoints = [];
}

abbrev two_reports : List (PoolReport ℕ)
two_reports =
    let report = empty_report naturals (new_accumulator solo_pool no_endpoint) in
    report
    ∷ record report {
      median_ms = some 5;
      worker_address_status = bytes "always_observed";
      latest_pool_fee_pct = some 0;
    }
    ∷ []

build_dashboard_page-lists_example :
    let page =
      build_dashboard_page naturals two_reports
        (solo_pool ∷ [])
        (bytes "us-east")
        none
        (bytes "plain") in
    (count_in (λ r. true) page
      ≡ count_of
          (λ r. true)
          (displayed_pools naturals
            (websites_from [] (solo_pool ∷ []))
            (bytes "us-east")
            (bytes "plain")
            two_reports))
    × ListsVerified naturals page
build_dashboard_page-lists_example =
    build_dashboard_page-lists naturals (λ r. true) two_reports (solo_pool ∷ []) (bytes "us-east")
      none (bytes "plain")

abbrev sampled : List (Observation ℕ)
sampled =
    record (zero_observation 0) {
      source = source_remote_scheduled;
      record_type = record_type_block_sample;
      vantage = bytes "us-east";
      observed_at = 5;
    }
    ∷ []

build_vantage_statuses-IsCurrent_example :
    (map (λ (s : VantageStatus). s.id) (build_vantage_statuses sampled 9 (bytes "r"))
      ≡ vantage_order)
    × All (IsCurrent sampled 9) (build_vantage_statuses sampled 9 (bytes "r"))
build_vantage_statuses-IsCurrent_example = build_vantage_statuses-IsCurrent sampled 9 (bytes "r")
