-- ===== src/Web.antt =====
-- internal/web: the refresh of the dashboard, the cache of snapshots, and the page.
pub mod Scheduler
pub mod Cache
pub mod Page
pub mod Status
