-- ===== src/Deduplication.antt =====
-- app/deduplication: which records describe one company, and the lead that they make together.
pub mod Fingerprint
pub mod Matcher
pub mod Merge
