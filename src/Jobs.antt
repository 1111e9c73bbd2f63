-- ===== src/Jobs.antt =====
-- app/jobs: the queue of collection jobs.
pub mod Queue
pub mod Service
pub mod Scheduler
pub mod Worker
