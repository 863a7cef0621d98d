-- ===== src/Ingest.antt =====
-- internal/ingest: the entry of spans.
pub mod Queue
mod Scenarios
