-- ===== src/Repositories.antt =====
-- app/repositories: the statements on each table.
pub mod Sources
pub mod Jobs
pub mod Records
pub mod Leads
pub mod Suppressions
