-- ===== src/Probe.antt =====
-- internal/probe: coinbase analysis, job verification and the collection of block windows.
pub mod Reader
pub mod CompactSize
pub mod Script
pub mod Coinbase
pub mod Source
pub mod Job
pub mod Window
pub mod Block
pub mod Retry
