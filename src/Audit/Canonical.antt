-- ===== src/Audit/Canonical.antt =====
-- What the canonical text of a value tells of it.
pub mod Numbers
pub mod Quotes
pub mod Layout
pub mod Kinds
pub mod Steps
pub mod Injective
