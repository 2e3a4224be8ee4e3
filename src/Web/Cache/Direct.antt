-- ===== src/Web/Cache/Direct.antt =====
-- The cache of internal/web/regional.go changes no answer.
use stratum_stats.Base.{
  ◌≡◌, refl, ap, ◌∙◌, Bytes, List, [], ◌∷◌, Option, none, some, find, insert, bytes_eq, Float,
  Outcome, ok, err, eqb, eqb_iff, Bool-cases, inl, inr, sym,
}
use mathlib.Core.Path.{ap₂}
use stratum_stats.Model.{Time, Pool}
use stratum_stats.Model.Reports.{Snapshot}
use stratum_stats.Report.Compute.{PreparedReports, prepare_reports}
use stratum_stats.Web.Cache.{
  SnapshotCache, Loaded, refresh, compute_for, cached_snapshot, Call, snapshot, records, invalidate,
  Reply, is_snapshot, is_records, is_error, is_done, call, replies,
}

module _ (fl : Float) (E : Type 0) where
  open fl use {F}

  -- What the pools and the prepared reports determine: every snapshot is computed anew.
  abbrev pub load_direct :
      List Pool → Loaded fl E → Time → Option (PreparedReports fl) → Outcome E (PreparedReports fl)
  load_direct pools loaded now (some prepared) = ok prepared
  load_direct pools (err e) now none = err e
  load_direct pools (ok observations) now none = ok (prepare_reports fl pools observations now)

  abbrev pub Answer : Type 0
  Answer = Reply fl E × Option (PreparedReports fl)

  -- the answer on a load
  abbrev pub on_load : (PreparedReports fl → Reply fl E) → Outcome E (PreparedReports fl) → Answer
  on_load answer (err e) = (is_error e, none)
  on_load answer (ok prepared) = (answer prepared, some prepared)

  -- one call without a cache of snapshots
  abbrev pub call_direct : List Pool → Call fl E → Option (PreparedReports fl) → Answer
  call_direct pools (snapshot vantage now loaded) state =
      on_load (λ p. is_snapshot (compute_for fl E p vantage)) (load_direct pools loaded now state)
  call_direct pools (records now loaded) state =
      on_load (λ p. is_records p.observations) (load_direct pools loaded now state)
  call_direct pools invalidate state = (is_done, none)

  abbrev pub replies_direct :
      List Pool → List (Call fl E) → Option (PreparedReports fl) → List (Reply fl E)
  replies_direct pools [] state = []
  replies_direct pools (c ∷ calls) state =
      let (reply, after) = call_direct pools c state in reply ∷ replies_direct pools calls after

  -- Every snapshot that is kept is the one that would be computed, and there is none without prepared reports.
  abbrev AllFresh : PreparedReports fl → List (Bytes × Snapshot F) → Type 0
  AllFresh p [] = Unit
  AllFresh p ((vantage, s) ∷ snapshots) = (s ≡ compute_for fl E p vantage) × AllFresh p snapshots

  abbrev IsFresh : Option (PreparedReports fl) → List (Bytes × Snapshot F) → Type 0
  IsFresh none snapshots = snapshots ≡ []
  IsFresh (some p) snapshots = AllFresh p snapshots

  abbrev from_some : Snapshot F → Option (Snapshot F) → Snapshot F
  from_some d none = d
  from_some d (some s) = s

  find-AllFresh :
      (p : PreparedReports fl) (vantage : Bytes) (snapshots : List (Bytes × Snapshot F))
      {s : Snapshot F}
      → AllFresh p snapshots
      → find vantage snapshots ≡ some s
      → s ≡ compute_for fl E p vantage
  find-AllFresh p vantage [] h e = cc
  find-AllFresh p vantage ((v, t) ∷ snapshots) {s = s} h e = elim (Bool-cases (eqb v vantage)) [
    | inl same ↦
        ap (from_some t) (sym (rw same at e))
        ∙ h.0
        ∙ ap (compute_for fl E p) ((eqb_iff v vantage).0 same)
    | inr other ↦ find-AllFresh p vantage snapshots h.1 (rw other at e)
  ]

  insert-AllFresh :
      (p : PreparedReports fl) (vantage : Bytes) (snapshots : List (Bytes × Snapshot F))
      → AllFresh p snapshots
      → AllFresh p (insert vantage (compute_for fl E p vantage) snapshots)
  insert-AllFresh p vantage [] h = (refl, tt)
  insert-AllFresh p vantage ((v, t) ∷ snapshots) h = elim (Bool-cases (eqb v vantage)) [
    | inl same ↦ rw same (ap (compute_for fl E p) (sym ((eqb_iff v vantage).0 same)), h.1)
    | inr other ↦ rw other (h.0, insert-AllFresh p vantage snapshots h.1)
  ]

  -- a reply and the cache after it, as against the answer
  abbrev Agrees : List Pool → Reply fl E × SnapshotCache fl E → Answer → Type 0
  Agrees pools r answer =
      (r.0 ≡ answer.0)
      × (r.1.pools ≡ pools)
      × (r.1.prepared ≡ answer.1)
      × IsFresh answer.1 r.1.snapshots

  cached_snapshot-Agrees :
      (vantage : Bytes) (p : PreparedReports fl) (cache : SnapshotCache fl E)
      → cache.prepared ≡ some p
      → AllFresh p cache.snapshots
      → let r = cached_snapshot fl E vantage p cache in
        (r.0 ≡ compute_for fl E p vantage)
        × (r.1.pools ≡ cache.pools)
        × (r.1.prepared ≡ some p)
        × AllFresh p r.1.snapshots
  unfolding cached_snapshot
  cached_snapshot-Agrees vantage p cache same h = go (find vantage cache.snapshots) refl
    where
      go :
          (o : Option (Snapshot F))
          → find vantage cache.snapshots ≡ o
          → let r : Snapshot F × SnapshotCache fl E = elim o [
            | some kept ↦ (kept, cache)
            | none ↦ (
              compute_for fl E p vantage,
              record cache {
                snapshots = insert vantage (compute_for fl E p vantage) cache.snapshots;
              },
            )
          ] in
            (r.0 ≡ compute_for fl E p vantage)
            × (r.1.pools ≡ cache.pools)
            × (r.1.prepared ≡ some p)
            × AllFresh p r.1.snapshots
      go none missing = (refl, refl, same, insert-AllFresh p vantage cache.snapshots h)
      go (some s) found = (find-AllFresh p vantage cache.snapshots h found, refl, same, h)

  call-Agrees :
      (c : Call fl E) (cache : SnapshotCache fl E) (pools : List Pool)
      (state : Option (PreparedReports fl))
      → cache.pools ≡ pools
      → cache.prepared ≡ state
      → IsFresh state cache.snapshots
      → Agrees pools (call fl E c cache) (call_direct pools c state)
  unfolding call refresh cached_snapshot
  call-Agrees (snapshot vantage now loaded) cache pools (some p) same_pools same h =
      let (found, kept, prepared, fresh) =
        cached_snapshot-Agrees vantage p (record cache { prepared = some p }) refl h in
      rw same (ap is_snapshot found, kept ∙ same_pools, prepared, fresh)
  call-Agrees (snapshot vantage now (err e)) cache pools none same_pools same h =
      rw same (refl, same_pools, refl, h)
  call-Agrees (snapshot vantage now (ok os)) cache pools none same_pools same h =
      rw (same, same_pools) (refl, refl, refl, (refl, tt))
  call-Agrees (records now loaded) cache pools (some p) same_pools same h =
      rw same (refl, same_pools, refl, h)
  call-Agrees (records now (err e)) cache pools none same_pools same h =
      rw same (refl, same_pools, refl, h)
  call-Agrees (records now (ok os)) cache pools none same_pools same h =
      rw (same, same_pools) (refl, refl, refl, tt)
  call-Agrees invalidate cache pools state same_pools same h = (refl, same_pools, refl, refl)

  replies-direct_from :
      (calls : List (Call fl E)) (cache : SnapshotCache fl E) (pools : List Pool)
      (state : Option (PreparedReports fl))
      → cache.pools ≡ pools
      → cache.prepared ≡ state
      → IsFresh state cache.snapshots
      → replies fl E calls cache ≡ replies_direct pools calls state
  unfolding replies
  replies-direct_from [] cache pools state same_pools same h = refl
  replies-direct_from (c ∷ calls) cache pools state same_pools same h =
      let (reply, kept, prepared, fresh) = call-Agrees c cache pools state same_pools same h in
      ap₂ (λ x xs. x ∷ xs) reply
        (replies-direct_from calls (call fl E c cache).1 pools (call_direct pools c state).1 kept
          prepared fresh)

  -- From an empty cache, every sequence of calls, with whatever the loads return, has the replies that it would have if every
  -- snapshot were computed anew from the reports prepared at the first load since the last invalidation.
  pub replies-direct :
      (pools : List Pool) (calls : List (Call fl E))
      → replies fl E calls (record { pools = pools; prepared = none; snapshots = [] })
        ≡ replies_direct pools calls none
  replies-direct pools calls = replies-direct_from calls _ pools none refl refl refl
