-- ===== src/SoloPool.antt =====
-- crates/solo-pool: the pool, which makes jobs of the node's templates and checks what comes back.
pub mod JobBuilder
pub mod Validate
pub mod State
pub mod Session
pub mod Poller
pub mod MinDifficulty
pub mod Readiness
pub mod Tests
