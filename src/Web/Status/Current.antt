-- ===== src/Web/Status/Current.antt =====
-- What it takes for a vantage of internal/web/regional.go not to be stale.
use stratum_stats.Base.{
  or_later, or_first, ◌-◌, ◌≤◌, ◌≡◌, refl, Bool, true, false, ◌&&◌, ◌||◌, not, ◌==◌, Bytes, eqb,
  eqb_iff, is_empty, List, [], ◌∷◌, Option, none, some, if◌then◌else◌, find, bytes_eq, ltb, has,
  arith, AllEntries, IsFound, insert-AllEntries, find-AllEntries, All, map, Bool-cases, inl, inr,
  ◌⊎◌, ==_iff,
}
use mathlib.Core.Path.{ap₂}
use stratum_stats.Model.{Time, Observation, source_remote_scheduled}
use stratum_stats.Web.Status.{
  vantage_stale_after, VantageStatus, VantageProgress, new_progress, progress_from, later_of,
  is_success, is_sample, is_run, with_latest_run, update_progress, update_at, observe_all, is_stale,
  finish_status, progress_of, statuses_of, vantage_order, build_vantage_statuses,
}

-- Each entry is of its vantage, and its last success is a good one.
abbrev IsOf : (Bytes → Time → Bool) → Bytes → VantageProgress → Type 0
IsOf good vantage p =
    (p.status.id ≡ vantage) × IsFound (λ at. good vantage at ≡ true) p.status.last_successful_run_at

new_progress-IsOf :
    (good : Bytes → Time → Bool) (vantage : Bytes) → IsOf good vantage (new_progress vantage)
unfolding new_progress
new_progress-IsOf good vantage = (refl, tt)

progress_from-AllEntries :
    (good : Bytes → Time → Bool) (vantages : List Bytes)
    → AllEntries (IsOf good) (progress_from vantages)
unfolding progress_from
progress_from-AllEntries good [] = tt
progress_from-AllEntries good (v ∷ vantages) =
    insert-AllEntries (IsOf good) v (new_progress v) (progress_from vantages)
      (new_progress-IsOf good v) (progress_from-AllEntries good vantages)

later_of-IsFound :
    (P : Time → Type 0) (at : Time) (old : Option Time)
    → P at
    → IsFound P old
    → IsFound P (later_of at old)
later_of-IsFound P at none h k = h
later_of-IsFound P at (some old) h k = go (ltb old at)
  where
    go : (b : Bool) → IsFound P (if b then some at else some old)
    go true = h
    go false = k

module _ {F : Type 0} where
  with_latest_run-IsOf :
      (good : Bytes → Time → Bool) (vantage : Bytes) (o : Observation F) (p : VantageProgress)
      → IsOf good vantage p
      → IsOf good vantage (with_latest_run o p)
  unfolding with_latest_run
  with_latest_run-IsOf good vantage o p h =
      elim (Bool-cases
        ((is_sample o || is_run o) && (p.latest_run == 0 || ltb p.latest_run o.observed_at))) [
          | inl newer ↦ rw newer h
          | inr older ↦ rw older h
        ]

  update_progress-IsOf :
      (good : Bytes → Time → Bool) (vantage : Bytes) (o : Observation F) (p : VantageProgress)
      → (is_success o ≡ true → good vantage o.observed_at ≡ true)
      → IsOf good vantage p
      → IsOf good vantage (update_progress o p)
  unfolding update_progress
  update_progress-IsOf good vantage o p ho h =
      with_latest_run-IsOf good vantage o _ (h.0, go (is_success o) refl)
    where
      go :
          (b : Bool)
          → is_success o ≡ b
          → IsFound
              (λ at. good vantage at ≡ true)
              (if b
                then later_of o.observed_at p.status.last_successful_run_at
                else p.status.last_successful_run_at)
      go true success =
          later_of-IsFound (λ at. good vantage at ≡ true) o.observed_at
            p.status.last_successful_run_at (ho success) h.1
      go false other = h.1

  -- A scheduled success of a vantage, at a time.
  abbrev pub is_success_at : Bytes → Time → Observation F → Bool
  is_success_at vantage at o =
      eqb o.vantage vantage
      && (eqb o.source source_remote_scheduled && (is_success o && o.observed_at == at))

  -- whether the vantage has one
  abbrev pub has_success : List (Observation F) → Bytes → Time → Bool
  has_success [] vantage at = false
  has_success (o ∷ os) vantage at = is_success_at vantage at o || has_success os vantage at

  update_at-AllEntries :
      (good : Bytes → Time → Bool) (o : Observation F) (found : Option VantageProgress)
      (progress : List (Bytes × VantageProgress))
      → (is_success_at o.vantage o.observed_at o ≡ true → good o.vantage o.observed_at ≡ true)
      → IsFound (IsOf good o.vantage) found
      → AllEntries (IsOf good) progress
      → AllEntries (IsOf good) (update_at o found progress)
  update_at-AllEntries good o none progress ho hp h = h
  update_at-AllEntries good o (some p) progress ho hp h =
      elim (Bool-cases (eqb o.source source_remote_scheduled)) [
        | inl scheduled ↦ rw scheduled (
            insert-AllEntries (IsOf good) o.vantage (update_progress o p) progress
              (update_progress-IsOf good o.vantage o p
                (λ success. ho (
                  rw
                    (
                      (eqb_iff o.vantage o.vantage).1 refl,
                      scheduled,
                      success,
                      (==_iff o.observed_at o.observed_at).1 refl,
                    )
                    refl))
                hp)
              h)
        | inr other ↦ rw other h
      ]

  observe_all-AllEntries :
      (good : Bytes → Time → Bool) (os : List (Observation F)) (seen : List Bytes)
      (progress : List (Bytes × VantageProgress))
      → ((vantage : Bytes) (at : Time) → has_success os vantage at ≡ true → good vantage at ≡ true)
      → AllEntries (IsOf good) progress
      → AllEntries (IsOf good) (observe_all seen progress os)
  unfolding observe_all
  observe_all-AllEntries good [] seen progress inside h = h
  observe_all-AllEntries good (o ∷ os) seen progress inside h =
      let id = o.observation_id in
      let skipped = not (is_empty id) && has id seen in
      observe_all-AllEntries good os (if is_empty id || skipped then seen else id ∷ seen)
        (if skipped then progress else update_at o (find o.vantage progress) progress)
        (λ vantage at later.
          inside vantage at
            (or_later (is_success_at vantage at o) (has_success os vantage at) later))
        (go skipped)
    where
      go :
          (b : Bool)
          → AllEntries
              (IsOf good)
              (if b then progress else update_at o (find o.vantage progress) progress)
      go true = h
      go false =
          update_at-AllEntries good o (find o.vantage progress) progress
            (λ success. inside o.vantage o.observed_at (
              or_first (is_success_at o.vantage o.observed_at o)
                (has_success os o.vantage o.observed_at) success))
            (find-AllEntries (IsOf good) o.vantage progress h) h

  -- A status is stale, or there is a scheduled success of its vantage, at most twelve hours before now.
  abbrev pub IsCurrent : List (Observation F) → Time → VantageStatus → Type 0
  IsCurrent os now s =
      (s.stale ≡ true)
      ⊎ ((at : Time) × (has_success os s.id at ≡ true) × (now - at ≤ vantage_stale_after))

  finish_status-IsCurrent :
      (os : List (Observation F)) (now : Time) (revision vantage : Bytes) (p : VantageProgress)
      → IsOf (has_success os) vantage p
      → ((finish_status now revision p).id ≡ vantage)
        × IsCurrent os now (finish_status now revision p)
  unfolding finish_status
  finish_status-IsCurrent os now revision vantage p h =
      (h.0, go p.status.last_successful_run_at h.1)
    where
      go :
          (last : Option Time)
          → IsFound (λ at. has_success os vantage at ≡ true) last
          → (is_stale now last ≡ true)
            ⊎ ((at : Time) × (has_success os p.status.id at ≡ true)
                × (now - at ≤ vantage_stale_after))
      go none k = inl refl
      go (some at) k = elim (Bool-cases (ltb vantage_stale_after (now - at))) [
        | inl old ↦ inl old
        | inr fresh ↦ inr (at, rw h.0 k, ground (arith, fresh))
      ]

  statuses_of-IsCurrent :
      (os : List (Observation F)) (now : Time) (revision : Bytes)
      (progress : List (Bytes × VantageProgress)) (vantages : List Bytes)
      → AllEntries (IsOf (has_success os)) progress
      → (map (λ (s : VantageStatus). s.id) (statuses_of now revision progress vantages) ≡ vantages)
        × All (IsCurrent os now) (statuses_of now revision progress vantages)
  unfolding statuses_of
  statuses_of-IsCurrent os now revision progress [] h = (refl, tt)
  statuses_of-IsCurrent os now revision progress (v ∷ vantages) h =
      let (same, current) =
        finish_status-IsCurrent os now revision v (progress_of v (find v progress))
          (found (find v progress) (find-AllEntries (IsOf (has_success os)) v progress h)) in
      let (ids, rest) = statuses_of-IsCurrent os now revision progress vantages h in
      (ap₂ (λ x xs. x ∷ xs) same ids, (current, rest))
    where
      found :
          (o : Option VantageProgress)
          → IsFound (IsOf (has_success os) v) o
          → IsOf (has_success os) v (progress_of v o)
      found none k = new_progress-IsOf (has_success os) v
      found (some p) k = k

  -- There is one status for each production vantage, in their order, and each is stale, or there is a scheduled block
  -- sample or successful run of its vantage among the observations, at most twelve hours before now.
  pub build_vantage_statuses-IsCurrent :
      (os : List (Observation F)) (now : Time) (revision : Bytes)
      → (map (λ (s : VantageStatus). s.id) (build_vantage_statuses os now revision) ≡ vantage_order)
        × All (IsCurrent os now) (build_vantage_statuses os now revision)
  unfolding build_vantage_statuses
  build_vantage_statuses-IsCurrent os now revision =
      statuses_of-IsCurrent os now revision (observe_all [] (progress_from vantage_order) os)
        vantage_order
        (observe_all-AllEntries (has_success os) os [] (progress_from vantage_order) (λ v at h. h)
          (progress_from-AllEntries (has_success os) vantage_order))
