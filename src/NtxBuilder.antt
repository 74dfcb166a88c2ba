-- ===== src/NtxBuilder.antt =====
-- crates/ntx-builder: the state from which network transactions are built.
pub mod Outside
pub mod Account
pub mod State
pub mod Added
pub mod Settled
pub mod Events
mod Tests
