-- ===== src/Validation.antt =====
-- app/validation: whether the fields of a normalized lead can be used.
pub mod Rules
pub mod Lead
