-- ===== src/BlkScan.antt =====
-- crates/blk-scan: the reader of the node's block files.
pub mod Obfuscation
pub mod Scan
mod Tests
