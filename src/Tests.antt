-- ===== src/Tests.antt =====
-- The theorems at concrete inputs. It is about no file of the program.
mod Jobs
mod Deduplication
mod Api
mod Fetch
mod Instances
mod Query
mod Sheets
mod Sources
mod Worker
mod Pipeline
