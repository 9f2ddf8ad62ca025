-- ===== src/BitcoindRpc.antt =====
-- crates/bitcoind-rpc: what the node is asked and what it says.
pub mod Template
pub mod Network
pub mod Auth
pub mod Text
pub mod Client
mod Tests
