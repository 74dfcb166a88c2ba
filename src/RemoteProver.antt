-- ===== src/RemoteProver.antt =====
-- bin/remote-prover: the proxy that spreads the requests for proofs over its workers.
pub mod Worker
pub mod LoadBalancer
pub mod Proxy
pub mod Runs
mod Tests
