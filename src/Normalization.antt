-- ===== src/Normalization.antt =====
-- app/normalization: one value at a time into one schema.
pub mod Cleaning
pub mod Fields
pub mod Url
pub mod Record
