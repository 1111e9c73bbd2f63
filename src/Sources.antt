-- ===== src/Sources.antt =====
-- app/sources: the adapters, each of which yields the items of a run and the error that ends it.
pub mod Loading
pub mod Csv
pub mod Api
pub mod Html
pub mod Registry
