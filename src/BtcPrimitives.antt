-- ===== src/BtcPrimitives.antt =====
-- crates/btc-primitives: Bitcoin's data structures, pure, with no input or output.
pub mod Hex
pub mod Varint
pub mod Hash
pub mod Target
pub mod Merkle
pub mod Header
pub mod Reader
pub mod Transaction
