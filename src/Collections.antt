-- ===== src/Collections.antt =====
-- The ordered collections of the standard library, over identifiers that are numbers.
pub mod BTreeSet
pub mod BTreeMap
pub mod Distinct
