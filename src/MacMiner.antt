-- ===== src/MacMiner.antt =====
-- crates/mac-miner: the miner. Its work, its threads, and its counters.
pub mod Work
pub mod Worker
pub mod Stats
pub mod Lifetime
pub mod Install
pub mod Submission
pub mod Accepted
mod Tests
