-- ===== src/Ingest.antt =====
-- internal/ingest: the public endpoint that accepts block samples from the regional probes.
pub mod Limit
pub mod Replay
pub mod Target
pub mod Envelope
pub mod Receiver
