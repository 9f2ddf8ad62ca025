-- ===== src/Mining.antt =====
-- crates/mining: the coinbase, the witness commitment, the block and the search for a nonce.
pub mod Script
pub mod Coinbase
pub mod Witness
pub mod Block
pub mod Search
mod Tests
