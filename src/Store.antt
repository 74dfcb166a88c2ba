-- ===== src/Store.antt =====
-- crates/store: the state of the chain, in memory and in the database.
pub mod Outside
pub mod Block
pub mod Database
pub mod State
mod Tests
