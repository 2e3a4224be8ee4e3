-- ===== src/Examples.antt =====
-- Runs of the definitions at concrete inputs, and the theorems applied there.
mod Samples
mod Scripts
mod Coinbases
mod Windows
mod Requests
mod Envelopes
mod Files
mod Reports
mod Pages
