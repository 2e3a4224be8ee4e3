-- ===== src/Report/Timing.antt =====
-- internal/report/protocol.go: what is counted of each Stratum method, and its statistics.
pub mod Counts
use stratum_stats.Base.{
  ℕ, ◌+◌, ◌≤◌, ◌≡◌, refl, Bool, true, false, ◌&&◌, not, Bytes, bytes, eqb, List, [], ◌∷◌, ◌++◌,
  Option, none, some, length, if◌then◌else◌, find, insert, bytes_eq, Float, ◌==◌, length-sort_by,
  arith, length-append,
}
use stratum_stats.Model.{
  Observation, protocol_tls_handshake, protocol_status_ok, protocol_status_rejected,
  protocol_status_unsupported, protocol_status_timeout,
}
use stratum_stats.Model.Reports.{TimingStats}
use stratum_stats.Report.Accumulator.{Accumulator, TimingAccumulator}
use stratum_stats.Report.Metrics.{percentile, round, sort_floats}

-- model.ProtocolErrorTLSCertificateInvalid
abbrev pub protocol_error_tls_certificate_invalid : Bytes
protocol_error_tls_certificate_invalid = bytes "tls_certificate_invalid"

abbrev pub no_timings : {F : Type 0} → TimingAccumulator F
no_timings = record {
  attempts = 0;
  durations = [];
  rejected = 0;
  unsupported = 0;
  timeouts = 0;
  errors = 0;
  certificate_errors = 0;
}

abbrev pub timings_of : {F : Type 0} → Option (TimingAccumulator F) → TimingAccumulator F
timings_of none = no_timings
timings_of (some t) = t

module _ (fl : Float) where
  open fl use {F, of_ℕ}

  -- a successful observation; one without a duration is an error
  abbrev pub add_duration : Option F → TimingAccumulator F → TimingAccumulator F
  add_duration none t = record t { errors = t.errors + 1 }
  add_duration (some d) t =
      if fl.leb (of_ℕ 0) d
      then record t { durations = t.durations ++ (d ∷ []) }
      else record t { errors = t.errors + 1 }

  -- the switch on the status, with the attempt that it counts
  unfoldable pub add_timing : Observation F → TimingAccumulator F → TimingAccumulator F
  add_timing o before =
      let t : TimingAccumulator F = record before { attempts = before.attempts + 1 } in
      if eqb o.response_status protocol_status_ok
      then add_duration o.duration_ms t
      else if eqb o.response_status protocol_status_rejected
      then record t { rejected = t.rejected + 1 }
      else if eqb o.response_status protocol_status_unsupported
      then record t { unsupported = t.unsupported + 1 }
      else if eqb o.response_status protocol_status_timeout
      then record t { timeouts = t.timeouts + 1 }
      else let invalid_certificate =
          eqb o.protocol_method protocol_tls_handshake
          && eqb o.error_category protocol_error_tls_certificate_invalid in
        record t {
          errors = t.errors + 1;
          certificate_errors =
              if invalid_certificate then t.certificate_errors + 1 else t.certificate_errors;
        }

  -- addProtocolObservation
  unfoldable pub add_protocol_observation : Observation F → Accumulator F → Accumulator F
  unfolding add_timing
  add_protocol_observation o a = record a {
    tls =
        if eqb o.protocol_method protocol_tls_handshake && eqb o.response_status protocol_status_ok
        then true
        else a.tls;
    timings =
        insert o.protocol_method (add_timing o (timings_of (find o.protocol_method a.timings)))
          a.timings;
  }

  -- timingStats
  unfoldable pub timing_stats : Accumulator F → Bytes → TimingStats F
  unfolding percentile round
  timing_stats a method =
      let t = timings_of (find method a.timings) in
      let sorted = sort_floats fl t.durations in
      let measured = not (length t.durations == 0) in
      record {
        attempts = t.attempts;
        successes = length t.durations;
        rejected = t.rejected;
        unsupported = t.unsupported;
        timeouts = t.timeouts;
        errors = t.errors;
        certificate_errors = t.certificate_errors;
        median_ms =
            if measured
            then some (round fl (percentile fl sorted (fl.div (of_ℕ 5) (of_ℕ 10))) 1)
            else none;
        p95_ms =
            if measured
            then some (round fl (percentile fl sorted (fl.div (of_ℕ 95) (of_ℕ 100))) 1)
            else none;
      }
