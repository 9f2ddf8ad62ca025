-- ===== src/Sha256d.antt =====
-- crates/sha256d: SHA-256 and its double, over bytes.
pub mod Constants
pub mod Padding
pub mod Reference
pub mod Midstate
mod Tests
use mac_solo_miner.Base.{ℕ, List}
use mac_solo_miner.Sha256d.Reference

-- lib.rs, `sha256` and `sha256d`, where the processor has no SHA instructions.
unfoldable pub sha256 : List ℕ → List ℕ
sha256 message = Reference.sha256 message

unfoldable pub sha256d : List ℕ → List ℕ
sha256d message = Reference.sha256d message
