-- ===== src/Web/Page.antt =====
-- buildDashboardPage of internal/web/dashboard.go: the lists of the dashboard. The status of the selected vantage comes as
-- the time of its last successful run, which is all that the page reads of it.
pub mod Lists
use stratum_stats.Base.{
  ℕ, suc, ◌+◌, ◌-◌, ◌*◌, ◌%◌, Bool, true, false, ◌&&◌, ◌||◌, not, ◌==◌, Bytes, bytes, eqb, lexb,
  is_empty, List, [], ◌∷◌, ◌++◌, Option, none, some, length, if◌then◌else◌, find, insert, bytes_eq,
  ltb, leb, min, Float, sort_by, map, decimal_ℕ, digits,
}
use Prim.Native.Nat.{bit_xor}
use mathlib.Core.List.{reverse}
use stratum_stats.Model.{Time, Pool}
use stratum_stats.Model.Reports.{PoolReport, MetricHistoryPoint}
use stratum_stats.Report.Keys.{endpoint_report_key}

-- poolHistoryLimit
abbrev pub pool_history_limit : ℕ
pool_history_limit = 144

pub record FeeChangePoint (F : Type 0) : Type 0 where
  pub point : MetricHistoryPoint F
  pub previous : F

pub record DashboardPool (F : Type 0) : Type 0 where
  pub report : PoolReport F
  pub website : Bytes
  pub row_id : Bytes
  pub sort_name : Bytes
  pub latency_class : Bytes
  pub mining_loss_class : Bytes
  pub unsafe_reason : Bytes
  pub wallet_evidence : Bytes
  pub is_solo_pool : Bool
  pub fee_sort_value : Option F
  pub combined_vantage : Bool
  pub latency_history_count : ℕ
  pub fee_change_history : List (FeeChangePoint F)

-- the lists of a page, with the time of its data
pub record DashboardPage (F : Type 0) : Type 0 where
  pub data_updated_at : Option Time
  pub free_pools : List (DashboardPool F)
  pub normal_pools : List (DashboardPool F)
  pub missing_wallet_pools : List (DashboardPool F)
  pub pending_wallet_pools : List (DashboardPool F)
  pub pplns_pools : List (DashboardPool F)
  pub other_pools : List (DashboardPool F)
  pub no_recent_data_pools : List (DashboardPool F)

abbrev pub empty_page : {F : Type 0} → DashboardPage F
empty_page = record {
  data_updated_at = none;
  free_pools = [];
  normal_pools = [];
  missing_wallet_pools = [];
  pending_wallet_pools = [];
  pplns_pools = [];
  other_pools = [];
  no_recent_data_pools = [];
}

-- 64-bit FNV-1a, of hash/fnv
unfoldable pub fnv : ℕ → Bytes → ℕ
fnv hash [] = hash
fnv hash (b ∷ bs) = fnv ((bit_xor hash b * 1099511628211) % 18446744073709551616) bs

-- `%x` of a 64-bit number
unfoldable pub hex_text : ℕ → Bytes
hex_text n =
    if n == 0
    then bytes "0"
    else reverse (map (λ d. if leb d 9 then 48 + d else 87 + d) (digits 16 16 n))

-- endpointRowID; what it hashes is the key of the report
unfoldable pub endpoint_row_id : {F : Type 0} → PoolReport F → Bytes
unfolding fnv hex_text
endpoint_row_id r =
    r.pool_id
    ++ (b'-'
        ∷ hex_text
            (fnv 14695981039346656037 (endpoint_report_key r.pool_id r.endpoint r.endpoint_tls)))

-- offersPPLNS
unfoldable pub offers_pplns : List Bytes → Bool
offers_pplns [] = false
offers_pplns (p ∷ products) =
    (eqb p (bytes "PPLNS") || eqb p (bytes "PPLNS sharechain")) || offers_pplns products

-- websiteByPoolID
unfoldable pub websites_from : List (Bytes × Bytes) → List Pool → List (Bytes × Bytes)
websites_from websites [] = websites
websites_from websites (p ∷ ps) = websites_from (insert p.id p.website websites) ps

abbrev pub website_of : Option Bytes → Bytes
website_of none = []
website_of (some w) = w

-- latestPoolUpdate
abbrev pub later_update : Time → Option Time → Time
later_update latest none = latest
later_update latest (some at) = if ltb latest at then at else latest

module _ {F : Type 0} where
  unfoldable pub latest_update_from : Time → List (DashboardPool F) → Time
  latest_update_from latest [] = latest
  latest_update_from latest (p ∷ pools) =
      latest_update_from (later_update latest p.report.last_observed_at) pools

  unfoldable pub latest_pool_update : List (DashboardPool F) → Option Time
  unfolding latest_update_from
  latest_pool_update pools =
      let latest = latest_update_from 0 pools in if latest == 0 then none else some latest

module _ (fl : Float) where
  open fl use {F, of_ℕ, div}

  -- the first threshold that a value does not pass
  unfoldable pub class_from : Bytes → ℕ → F → List F → Bytes
  class_from prefix index value [] = prefix ++ bytes "10"
  class_from prefix index value (threshold ∷ thresholds) =
      let rest = class_from prefix (index + 1) value thresholds in
      if fl.leb value threshold then prefix ++ decimal_ℕ (index + 1) else rest

  -- latencyClass
  unfoldable pub latency_class_of : Option F → Bytes
  unfolding class_from
  latency_class_of none = bytes "latency-none"
  latency_class_of (some value) =
      class_from (bytes "latency-") 0 value
        (map of_ℕ (100 ∷ 200 ∷ 300 ∷ 500 ∷ 750 ∷ 1000 ∷ 1500 ∷ 2500 ∷ 4000 ∷ []))

  -- miningLossClass, whose thresholds are hundredths here
  unfoldable pub mining_loss_class_of : Option F → Bytes
  unfolding class_from
  mining_loss_class_of none = bytes "loss-none"
  mining_loss_class_of (some value) =
      class_from (bytes "loss-") 0 value
        (map (λ n. div (of_ℕ n) (of_ℕ 100)) (10 ∷ 25 ∷ 50 ∷ 75 ∷ 100 ∷ 150 ∷ 250 ∷ 350 ∷ 500 ∷ []))

  -- the loop of buildFeeChangeHistory
  unfoldable pub fee_changes_from : F → List (MetricHistoryPoint F) → List (FeeChangePoint F)
  fee_changes_from previous [] = []
  fee_changes_from previous (p ∷ points) =
      let same = fl.eq p.value previous in
      let rest = fee_changes_from (if same then previous else p.value) points in
      if same then rest else record { point = p; previous = previous } ∷ rest

  -- buildFeeChangeHistory
  unfoldable pub fee_change_history_of : List (MetricHistoryPoint F) → List (FeeChangePoint F)
  unfolding fee_changes_from
  fee_change_history_of [] = []
  fee_change_history_of (p ∷ points) = fee_changes_from p.value points

  -- two optional numbers, a missing one last; `none` if they do not differ
  abbrev pub differs : Option F → Option F → Option Bool
  differs none none = none
  differs (some x) none = some true
  differs none (some y) = some false
  differs (some x) (some y) = if fl.eq x y then none else some (fl.ltb x y)

  abbrev pub or_by_name : DashboardPool F → DashboardPool F → Option Bool → Bool
  or_by_name l r (some before) = before
  or_by_name l r none = lexb l.sort_name r.sort_name

  -- the order of sortByTemplateLatency
  unfoldable pub is_faster : DashboardPool F → DashboardPool F → Bool
  is_faster l r = or_by_name l r (differs l.report.median_ms r.report.median_ms)

  abbrev pub on_equal_score : DashboardPool F → DashboardPool F → Bool
  on_equal_score l r = elim (differs l.report.median_ms r.report.median_ms) [
    | some before ↦ before
    | none ↦ or_by_name l r (differs l.report.p95_ms r.report.p95_ms)
  ]

  -- the order of sortByOverallScore
  unfoldable pub is_ranked_before : DashboardPool F → DashboardPool F → Bool
  is_ranked_before l r = elim l.report.overall_score [
    | none ↦ elim r.report.overall_score [ none ↦ lexb l.sort_name r.sort_name | some y ↦ false ]
    | some x ↦ elim r.report.overall_score [
      | none ↦ true
      | some y ↦ if fl.eq x y then on_equal_score l r else fl.ltb y x
    ]
  ]

  abbrev pub sort_by_overall_score : List (DashboardPool F) → List (DashboardPool F)
  sort_by_overall_score = sort_by is_ranked_before

  -- what the page shows of a report
  unfoldable pub dashboard_pool : List (Bytes × Bytes) → Bytes → PoolReport F → DashboardPool F
  unfolding latency_class_of mining_loss_class_of fee_change_history_of endpoint_row_id
  dashboard_pool websites vantage r = record {
    report = record r { template_latency_history = [] };
    website = website_of (find r.pool_id websites);
    row_id = endpoint_row_id r;
    sort_name = r.pool_name ++ (b' ' ∷ r.endpoint);
    latency_class = latency_class_of r.median_ms;
    mining_loss_class = mining_loss_class_of r.estimated_mining_loss_pct;
    unsafe_reason = [];
    wallet_evidence = [];
    is_solo_pool = eqb r.category (bytes "solo");
    fee_sort_value = if eqb r.category (bytes "solo") then r.latest_pool_fee_pct else none;
    combined_vantage = eqb vantage (bytes "us-all");
    latency_history_count = min (length r.template_latency_history) pool_history_limit;
    fee_change_history = fee_change_history_of r.pool_fee_history;
  }

-- the reason that is shown where the worker's wallet is missing from `samples` coinbases, or from some of them
abbrev pub missing_reason : Bytes → ℕ → Bytes
missing_reason found samples =
    bytes "worker wallet not found in "
    ++ (found ++ (decimal_ℕ samples ++ bytes " decoded coinbase payouts"))

abbrev pub missing_wallet :
    {F : Type 0} → Bytes → DashboardPool F → DashboardPage F → DashboardPage F
missing_wallet reason p page = record page {
  missing_wallet_pools =
      page.missing_wallet_pools
      ++ (record p { unsafe_reason = reason; wallet_evidence = bytes "missing" } ∷ []);
}

abbrev pub pending_wallet : {F : Type 0} → DashboardPool F → DashboardPage F → DashboardPage F
pending_wallet p page = record page {
  pending_wallet_pools =
      page.pending_wallet_pools
      ++ (record p {
        unsafe_reason = bytes "worker wallet payout not yet verified";
        wallet_evidence = bytes "pending";
      }
          ∷ []);
}

module _ (fl : Float) where
  open fl use {F, of_ℕ}

  abbrev pub is_free : Option F → Bool
  is_free none = false
  is_free (some fee) = fl.eq fee (of_ℕ 0)

  -- a solo pool whose coinbases always pay the worker
  abbrev pub list_verified : DashboardPool F → DashboardPage F → DashboardPage F
  list_verified p page =
      if is_free p.report.latest_pool_fee_pct
      then record page { free_pools = page.free_pools ++ (p ∷ []) }
      else record page { normal_pools = page.normal_pools ++ (p ∷ []) }

  -- a solo pool, by the status of the worker's address
  unfoldable pub list_solo : DashboardPool F → DashboardPage F → DashboardPage F
  list_solo p page =
      if eqb p.report.worker_address_status (bytes "always_observed")
      then list_verified p page
      else if eqb p.report.worker_address_status (bytes "not_observed")
      then missing_wallet (missing_reason [] p.report.coinbase_samples) p page
      else if eqb p.report.worker_address_status (bytes "varied")
      then missing_wallet (missing_reason (bytes "some of ") p.report.coinbase_samples) p page
      else pending_wallet p page

  abbrev pub list_shared : DashboardPool F → DashboardPage F → DashboardPage F
  list_shared p page =
      if offers_pplns p.report.products
      then record page { pplns_pools = page.pplns_pools ++ (p ∷ []) }
      else record page { other_pools = page.other_pools ++ (p ∷ []) }

  -- one round of the loop over the reports that are displayed
  unfoldable pub list_pool : DashboardPool F → DashboardPage F → DashboardPage F
  unfolding list_solo
  list_pool p page = elim p.report.median_ms [
    | none ↦ record page { no_recent_data_pools = page.no_recent_data_pools ++ (p ∷ []) }
    | some median ↦ if p.is_solo_pool then list_solo p page else list_shared p page
  ]

  unfoldable pub list_pools : DashboardPage F → List (DashboardPool F) → DashboardPage F
  unfolding list_pool
  list_pools page [] = page
  list_pools page (p ∷ pools) = list_pools (list_pool p page) pools

  -- the reports of the selected transport, as they are displayed
  unfoldable pub displayed_pools :
      List (Bytes × Bytes) → Bytes → Bytes → List (PoolReport F) → List (DashboardPool F)
  unfolding dashboard_pool
  displayed_pools websites vantage transport [] = []
  displayed_pools websites vantage transport (r ∷ reports) =
      let rest = displayed_pools websites vantage transport reports in
      let over_tls = eqb transport (bytes "tls") in
      if (r.endpoint_tls && over_tls) || (not r.endpoint_tls && not over_tls)
      then dashboard_pool fl websites vantage r ∷ rest
      else rest

  abbrev pub sorted_page : DashboardPage F → DashboardPage F
  sorted_page page = record page {
    free_pools = sort_by_overall_score fl page.free_pools;
    normal_pools = sort_by_overall_score fl page.normal_pools;
    missing_wallet_pools = sort_by_overall_score fl page.missing_wallet_pools;
    pending_wallet_pools = sort_by_overall_score fl page.pending_wallet_pools;
    pplns_pools = sort_by_overall_score fl page.pplns_pools;
    other_pools = sort_by_overall_score fl page.other_pools;
    no_recent_data_pools = sort_by (is_faster fl) page.no_recent_data_pools;
  }

  abbrev pub or_latest : Option Time → List (DashboardPool F) → Option Time
  or_latest (some run) pools = some run
  or_latest none pools = latest_pool_update pools

  -- buildDashboardPage
  unfoldable pub build_dashboard_page :
      List (PoolReport F) → List Pool → Bytes → Option Time → Bytes → DashboardPage F
  unfolding displayed_pools list_pools latest_pool_update is_ranked_before is_faster
  build_dashboard_page reports pools vantage last_run transport =
      let displayed = displayed_pools (websites_from [] pools) vantage transport reports in
      record (sorted_page (list_pools empty_page displayed)) {
        data_updated_at = or_latest last_run displayed;
      }
