-- ===== src/Web/Cache.antt =====
-- snapshotCache of internal/web/regional.go. Each method runs under the mutex, so the calls follow one another; what
-- `load` returns is given with the call.
pub mod Direct
use stratum_stats.Base.{
  ℕ, Bool, true, false, Bytes, is_empty, List, [], ◌∷◌, Option, none, some, if◌then◌else◌, find,
  insert, bytes_eq, Float, Outcome, ok, err,
}
use stratum_stats.Model.{Time, Pool, Observation}
use stratum_stats.Model.Reports.{Snapshot}
use stratum_stats.Report.Compute.{PreparedReports, prepare_reports, compute_vantage}

module _ (fl : Float) (E : Type 0) where
  open fl use {F}

  pub record SnapshotCache : Type 0 where
    pub pools : List Pool
    pub prepared : Option (PreparedReports fl)
    pub snapshots : List (Bytes × Snapshot F)

  -- what a load returns
  abbrev pub Loaded : Type 0
  Loaded = Outcome E (List (Observation F))

  -- refresh, with the prepared reports that the callers go on to use
  unfoldable pub refresh :
      Loaded → Time → SnapshotCache → Outcome E (PreparedReports fl × SnapshotCache)
  refresh loaded now cache = elim cache.prepared [
    | some prepared ↦ ok (prepared, cache)
    | none ↦ elim loaded [
      | err e ↦ err e
      | ok observations ↦
          let prepared = prepare_reports fl cache.pools observations now in
          ok (prepared, record cache { prepared = some prepared; snapshots = [] })
    ]
  ]

  -- the snapshot of a vantage, computed
  abbrev pub compute_for : PreparedReports fl → Bytes → Snapshot F
  compute_for prepared vantage =
      if is_empty vantage then prepared.global else compute_vantage fl prepared vantage

  -- snapshot, behind the refresh
  unfoldable pub cached_snapshot :
      Bytes → PreparedReports fl → SnapshotCache → Snapshot F × SnapshotCache
  cached_snapshot vantage prepared cache = elim (find vantage cache.snapshots) [
    | some kept ↦ (kept, cache)
    | none ↦ (
      compute_for prepared vantage,
      record cache { snapshots = insert vantage (compute_for prepared vantage) cache.snapshots },
    )
  ]

  pub data Call : Type 0 where
    snapshot : Bytes → Time → Loaded → Call
    records : Time → Loaded → Call
    invalidate : Call

  pub data Reply : Type 0 where
    is_snapshot : Snapshot F → Reply
    is_records : List (Observation F) → Reply
    is_error : E → Reply
    is_done : Reply

  -- one call of a method; on an error the cache is left as it is
  unfoldable pub call : Call → SnapshotCache → Reply × SnapshotCache
  unfolding refresh cached_snapshot
  call (snapshot vantage now loaded) cache = elim (refresh loaded now cache) [
    | err e ↦ (is_error e, cache)
    | ok r ↦ let (found, after) = cached_snapshot vantage r.0 r.1 in (is_snapshot found, after)
  ]
  call (records now loaded) cache = elim (refresh loaded now cache) [
    | err e ↦ (is_error e, cache)
    | ok r ↦ (is_records r.0.observations, r.1)
  ]
  call invalidate cache = (is_done, record cache { prepared = none; snapshots = [] })

  -- the replies to a sequence of calls
  unfoldable pub replies : List Call → SnapshotCache → List Reply
  unfolding call
  replies [] cache = []
  replies (c ∷ calls) cache = (call c cache).0 ∷ replies calls (call c cache).1
