-- ===== src/Pipeline.antt =====
-- app/pipeline/runner.py: one collection of one source.
pub mod Stats
pub mod Matching
pub mod Ingest
pub mod Run
