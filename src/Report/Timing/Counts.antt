-- ===== src/Report/Timing/Counts.antt =====
-- The counts of internal/report/protocol.go add up.
use stratum_stats.Base.{
  ◌+◌, ◌≤◌, ◌≡◌, refl, Bool, true, false, ◌&&◌, Bytes, eqb, [], ◌∷◌, ◌++◌, Option, none, some,
  length, find, bytes_eq, Float, arith, length-append, AllValues, IsFound, insert-AllValues,
  find-AllValues, if◌then◌else◌,
}
use stratum_stats.Model.{
  Observation, protocol_tls_handshake, protocol_status_ok, protocol_status_rejected,
  protocol_status_unsupported, protocol_status_timeout,
}
use stratum_stats.Model.Reports.{TimingStats}
use stratum_stats.Report.Accumulator.{Accumulator, TimingAccumulator}
use stratum_stats.Report.Timing.{
  timings_of, add_timing, add_duration, add_protocol_observation, timing_stats,
  protocol_error_tls_certificate_invalid,
}

-- Every attempt has one outcome, and an invalid certificate is an error.
abbrev pub IsCounted : {F : Type 0} → TimingAccumulator F → Type 0
IsCounted t =
    (t.attempts ≡ length t.durations + t.rejected + t.unsupported + t.timeouts + t.errors)
    × (t.certificate_errors ≤ t.errors)

-- The same of the statistics.
abbrev pub IsAccounted : {F : Type 0} → TimingStats F → Type 0
IsAccounted s =
    (s.attempts ≡ s.successes + s.rejected + s.unsupported + s.timeouts + s.errors)
    × (s.certificate_errors ≤ s.errors)

module _ (fl : Float) where
  open fl use {F}

  -- an attempt that has no outcome yet
  abbrev WithAttempt : TimingAccumulator F → Type 0
  WithAttempt t =
      (t.attempts ≡ length t.durations + t.rejected + t.unsupported + t.timeouts + t.errors + 1)
      × (t.certificate_errors ≤ t.errors)

  add_duration-IsCounted :
      (d : Option F) (t : TimingAccumulator F) → WithAttempt t → IsCounted (add_duration fl d t)
  add_duration-IsCounted none t h = ground arith
  add_duration-IsCounted (some d) t h = go (fl.leb (fl.of_ℕ 0) d)
    where
      go :
          (b : Bool)
          → IsCounted (
              if b
              then record t { durations = t.durations ++ (d ∷ []) }
              else record t { errors = t.errors + 1 })
      go true = ground (arith, length-append t.durations (d ∷ []))
      go false = ground arith

  switch-IsCounted :
      (d : Option F) (u : TimingAccumulator F)
      → WithAttempt u
      → (ok rejected unsupported timeout certificate : Bool)
      → IsCounted (
          if ok
          then add_duration fl d u
          else if rejected
          then record u { rejected = u.rejected + 1 }
          else if unsupported
          then record u { unsupported = u.unsupported + 1 }
          else if timeout
          then record u { timeouts = u.timeouts + 1 }
          else record u {
            errors = u.errors + 1;
            certificate_errors =
                if certificate then u.certificate_errors + 1 else u.certificate_errors;
          })
  switch-IsCounted d u h true rejected unsupported timeout certificate =
      add_duration-IsCounted d u h
  switch-IsCounted d u h false true unsupported timeout certificate = ground arith
  switch-IsCounted d u h false false true timeout certificate = ground arith
  switch-IsCounted d u h false false false true certificate = ground arith
  switch-IsCounted d u h false false false false true = ground arith
  switch-IsCounted d u h false false false false false = ground arith

  add_timing-IsCounted :
      (o : Observation F) (t : TimingAccumulator F) → IsCounted t → IsCounted (add_timing fl o t)
  unfolding add_timing
  add_timing-IsCounted o t h =
      switch-IsCounted o.duration_ms (record t { attempts = t.attempts + 1 }) (ground arith)
        (eqb o.response_status protocol_status_ok) (eqb o.response_status protocol_status_rejected)
        (eqb o.response_status protocol_status_unsupported)
        (eqb o.response_status protocol_status_timeout)
        (eqb o.protocol_method protocol_tls_handshake
          && eqb o.error_category protocol_error_tls_certificate_invalid)

  timings_of-IsCounted :
      (t : Option (TimingAccumulator F)) → IsFound IsCounted t → IsCounted (timings_of t)
  timings_of-IsCounted none h = (refl, ground arith)
  timings_of-IsCounted (some t) h = h

  pub add_protocol_observation-IsCounted :
      (o : Observation F) (a : Accumulator F)
      → AllValues IsCounted a.timings
      → AllValues IsCounted (add_protocol_observation fl o a).timings
  unfolding add_protocol_observation
  add_protocol_observation-IsCounted o a h =
      insert-AllValues IsCounted o.protocol_method _ a.timings
        (add_timing-IsCounted o _
          (timings_of-IsCounted _ (find-AllValues IsCounted o.protocol_method a.timings h)))
        h

  pub timing_stats-IsAccounted :
      (a : Accumulator F) (method : Bytes)
      → AllValues IsCounted a.timings
      → IsAccounted (timing_stats fl a method)
  unfolding timing_stats
  timing_stats-IsAccounted a method h =
      timings_of-IsCounted (find method a.timings) (find-AllValues IsCounted method a.timings h)
