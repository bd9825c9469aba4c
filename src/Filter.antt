-- ===== src/Filter.antt =====
-- packages/filter/index.mjs: `removeOverlaps`, which every scan of a leaf ends with, and the
-- check-digit validators of the built-in rules. The regular expressions themselves are not modelled.
pub mod Overlaps
pub mod Digits
pub mod Luhn
pub mod Iban
pub mod Verhoeff
mod Tests
