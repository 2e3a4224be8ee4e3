-- ===== src/Web/Page/Lists.antt =====
-- Which list of the dashboard of internal/web/dashboard.go a report stands in.
use stratum_stats.Base.{
  ℕ, ◌+◌, ◌≡◌, refl, sym, Bool, true, false, Bytes, bytes, eqb, List, [], ◌∷◌, ◌++◌, Option, none,
  some, if◌then◌else◌, Float, arith, sum_by, sum_by-append, sum_by-perm, sort_by-Permᴰ, All,
  All-perm, Bool-cases, inl, inr, ◌⊎◌, subst, ap,
}
use stratum_stats.Model.{Time, Pool}
use stratum_stats.Model.Reports.{PoolReport}
use stratum_stats.Ingest.Envelope.{is_some}
use stratum_stats.Web.Page.{
  DashboardPool, DashboardPage, empty_page, missing_wallet, pending_wallet, missing_reason, is_free,
  list_verified, list_solo, list_shared, list_pool, list_pools, displayed_pools, websites_from,
  sorted_page, is_ranked_before, is_faster, build_dashboard_page, offers_pplns,
}

module _ {F : Type 0} (p : PoolReport F → Bool) where
  abbrev counted : DashboardPool F → ℕ
  counted d = if p d.report then 1 else 0

  -- how many of the pools have the property
  abbrev pub count_of : List (DashboardPool F) → ℕ
  count_of = sum_by counted

  -- how often a report with the property stands in a list of the page
  abbrev pub count_in : DashboardPage F → ℕ
  count_in page =
      count_of page.free_pools
      + count_of page.normal_pools
      + count_of page.missing_wallet_pools
      + count_of page.pending_wallet_pools
      + count_of page.pplns_pools
      + count_of page.other_pools
      + count_of page.no_recent_data_pools

  count_of-snoc :
      (ds : List (DashboardPool F)) (d : DashboardPool F)
      → count_of (ds ++ (d ∷ [])) ≡ count_of ds + counted d
  count_of-snoc ds d = omega (arith, sum_by-append counted ds (d ∷ []))

All-snoc :
    {A : Type 0} (P : A → Type 0) (xs : List A) (x : A) → All P xs → P x → All P (xs ++ (x ∷ []))
All-snoc P [] x h hx = (hx, tt)
All-snoc P (y ∷ ys) x h hx = (h.0, All-snoc P ys x h.1 hx)

module _ (fl : Float) where
  open fl use {F}

  -- A measured solo pool whose coinbases always pay the worker, and whose fee is zero, or is not.
  abbrev pub IsVerified : Bool → DashboardPool F → Type 0
  IsVerified free d =
      (is_some d.report.median_ms ≡ true)
      × (d.is_solo_pool ≡ true)
      × (eqb d.report.worker_address_status (bytes "always_observed") ≡ true)
      × (is_free fl d.report.latest_pool_fee_pct ≡ free)

  abbrev pub ListsVerified : DashboardPage F → Type 0
  ListsVerified page =
      All (IsVerified true) page.free_pools × All (IsVerified false) page.normal_pools

  -- a page that gains one pool
  abbrev Gains :
      (PoolReport F → Bool) → DashboardPool F → DashboardPage F → DashboardPage F → Type 0
  Gains p d before after =
      (count_in p after ≡ count_in p before + counted p d)
      × (ListsVerified before → ListsVerified after)

  module _ (p : PoolReport F → Bool) (d : DashboardPool F) (page : DashboardPage F) where
    missing_wallet-Gains : (reason : Bytes) → Gains p d page (missing_wallet reason d page)
    missing_wallet-Gains reason =
        (omega (arith, count_of-snoc p page.missing_wallet_pools _), λ h. h)

    pending_wallet-Gains : Gains p d page (pending_wallet d page)
    pending_wallet-Gains = (omega (arith, count_of-snoc p page.pending_wallet_pools _), λ h. h)

    list_verified-Gains :
        is_some d.report.median_ms ≡ true
        → d.is_solo_pool ≡ true
        → eqb d.report.worker_address_status (bytes "always_observed") ≡ true
        → Gains p d page (list_verified fl d page)
    list_verified-Gains measured solo always =
        elim (Bool-cases (is_free fl d.report.latest_pool_fee_pct)) [
          | inl free ↦ rw free (
            omega (arith, count_of-snoc p page.free_pools d),
            λ h. (
              All-snoc (IsVerified true) page.free_pools d h.0 (measured, solo, always, free),
              h.1,
            ),
          )
          | inr paid ↦ rw paid (
            omega (arith, count_of-snoc p page.normal_pools d),
            λ h. (
              h.0,
              All-snoc (IsVerified false) page.normal_pools d h.1 (measured, solo, always, paid),
            ),
          )
        ]

    list_shared-Gains : Gains p d page (list_shared fl d page)
    list_shared-Gains = elim (Bool-cases (offers_pplns d.report.products)) [
      | inl offers ↦ rw offers (omega (arith, count_of-snoc p page.pplns_pools d), λ h. h)
      | inr other ↦ rw other (omega (arith, count_of-snoc p page.other_pools d), λ h. h)
    ]

    list_solo-Gains :
        is_some d.report.median_ms ≡ true
        → d.is_solo_pool ≡ true
        → Gains p d page (list_solo fl d page)
    unfolding list_solo
    list_solo-Gains measured solo =
        elim (Bool-cases (eqb d.report.worker_address_status (bytes "always_observed"))) [
          | inl always ↦ rw always (list_verified-Gains measured solo always)
          | inr other ↦
              rw other
                elim (Bool-cases (eqb d.report.worker_address_status (bytes "not_observed"))) [
                  | inl missing ↦
                      rw missing
                        (missing_wallet-Gains (missing_reason [] d.report.coinbase_samples))
                  | inr maybe ↦
                      rw maybe
                        elim (Bool-cases (eqb d.report.worker_address_status (bytes "varied"))) [
                          | inl varied ↦ rw varied (
                              missing_wallet-Gains
                                (missing_reason (bytes "some of ") d.report.coinbase_samples))
                          | inr pending ↦ rw pending pending_wallet-Gains
                        ]
                ]
        ]

    list_pool-Gains : Gains p d page (list_pool fl d page)
    unfolding list_pool
    list_pool-Gains = go d.report.median_ms refl (Bool-cases d.is_solo_pool)
      where
        go :
            (m : Option F)
            → d.report.median_ms ≡ m
            → (d.is_solo_pool ≡ true) ⊎ (d.is_solo_pool ≡ false)
            → Gains p d page (elim m [
              | none ↦ record page { no_recent_data_pools = page.no_recent_data_pools ++ (d ∷ []) }
              | some median ↦ if d.is_solo_pool then list_solo fl d page else list_shared fl d page
            ])
        go none at solo = (omega (arith, count_of-snoc p page.no_recent_data_pools d), λ h. h)
        go (some median) at (inl solo) =
            subst (λ b. Gains p d page (if b then list_solo fl d page else list_shared fl d page))
              (sym solo) (list_solo-Gains (ap is_some at) solo)
        go (some median) at (inr other) =
            subst (λ b. Gains p d page (if b then list_solo fl d page else list_shared fl d page))
              (sym other) list_shared-Gains

  list_pools-Gains :
      (p : PoolReport F → Bool) (ds : List (DashboardPool F)) (page : DashboardPage F)
      → (count_in p (list_pools fl page ds) ≡ count_in p page + count_of p ds)
        × (ListsVerified page → ListsVerified (list_pools fl page ds))
  unfolding list_pools
  list_pools-Gains p [] page = (omega arith, λ h. h)
  list_pools-Gains p (d ∷ ds) page =
      let (count, verified) = list_pool-Gains p d page in
      let (counts, all_verified) = list_pools-Gains p ds (list_pool fl d page) in
      (omega (arith, count, counts), λ h. all_verified (verified h))

  sorted_page-count :
      (p : PoolReport F → Bool) (page : DashboardPage F)
      → count_in p (sorted_page fl page) ≡ count_in p page
  sorted_page-count p page =
      let by_score = λ (ds : List (DashboardPool F)).
        sum_by-perm (counted p) (sort_by-Permᴰ (is_ranked_before fl) ds) in
      omega (
        arith,
        by_score page.free_pools,
        by_score page.normal_pools,
        by_score page.missing_wallet_pools,
        by_score page.pending_wallet_pools,
        by_score page.pplns_pools,
        by_score page.other_pools,
        sum_by-perm (counted p) (sort_by-Permᴰ (is_faster fl) page.no_recent_data_pools),
      )

  -- Every displayed report stands in exactly one list of the page, whatever property it is counted by; and the free and the
  -- normal pools are measured solo pools whose coinbases always pay the worker, the free ones those with a fee of zero.
  pub build_dashboard_page-lists :
      (p : PoolReport F → Bool) (reports : List (PoolReport F)) (pools : List Pool)
      (vantage : Bytes) (last_run : Option Time) (transport : Bytes)
      → let page = build_dashboard_page fl reports pools vantage last_run transport in
        (count_in p page
          ≡ count_of p (displayed_pools fl (websites_from [] pools) vantage transport reports))
        × ListsVerified page
  unfolding build_dashboard_page
  build_dashboard_page-lists p reports pools vantage last_run transport =
      let displayed = displayed_pools fl (websites_from [] pools) vantage transport reports in
      let (counts, verified) = list_pools-Gains p displayed empty_page in
      let page = list_pools fl empty_page displayed in
      let (free, normal) = verified (tt, tt) in
      (
        omega (arith, sorted_page-count p page, counts),
        (
          All-perm (IsVerified true) (sort_by-Permᴰ (is_ranked_before fl) page.free_pools) free,
          All-perm (IsVerified false) (sort_by-Permᴰ (is_ranked_before fl) page.normal_pools)
              normal,
        ),
      )
