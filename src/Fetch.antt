-- ===== src/Fetch.antt =====
-- app/fetch: fetching pages with checks of addresses, robots.txt, retries and redirects.
pub mod Network
pub mod Urls
pub mod Robots
pub mod Limits
pub mod Client
