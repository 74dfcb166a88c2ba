-- ===== src/Faucet.antt =====
-- bin/faucet: the proof of work that a request for tokens has to bring.
pub mod Bytes
pub mod Challenge
pub mod ChallengeCache
pub mod Pow
mod Tests
