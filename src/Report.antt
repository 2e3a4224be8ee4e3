-- ===== src/Report.antt =====
-- internal/report: the reports that are computed from the observations of the last 30 days.
pub mod Keys
pub mod Prepare
pub mod Accumulator
pub mod Cohort
pub mod Metrics
pub mod Timing
pub mod Score
pub mod Build
pub mod Compute
pub mod Evidence
