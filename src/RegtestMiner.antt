-- ===== src/RegtestMiner.antt =====
-- crates/regtest-miner: one block from a template.
pub mod Round
mod Tests
