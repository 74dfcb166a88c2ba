-- ===== src/Rpc.antt =====
-- crates/rpc: the version that a client asks for.
pub mod Accept
mod Tests
