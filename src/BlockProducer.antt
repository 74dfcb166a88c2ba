-- ===== src/BlockProducer.antt =====
-- crates/block-producer: the mempool and the structures under it.
pub mod Account
pub mod Expirations
pub mod Graph
pub mod Transaction
pub mod Inflight
pub mod Budget
pub mod TransactionGraph
pub mod BatchGraph
pub mod Outside
pub mod Subscription
pub mod Mempool
mod Tests
