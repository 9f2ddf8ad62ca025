-- ===== src/Stratum.antt =====
-- crates/stratum: what the pool and a miner say to each other.
pub mod ByteOrder
pub mod Value
pub mod Hex32
pub mod Params
pub mod Text
pub mod Message
pub mod Job
pub mod Share
mod Tests
