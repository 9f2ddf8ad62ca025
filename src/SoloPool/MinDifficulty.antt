-- ===== src/SoloPool/MinDifficulty.antt =====
-- crates/solo-pool/src/min_difficulty.rs: when a block of minimum difficulty may be submitted.
pub mod Earliest
use mac_solo_miner.Base.{ℕ, ◌+◌, ◌*◌, ◌%◌, ◌^◌, Bool, ℤ, difference, minus, at_most}

abbrev pub min_difficulty_bits : ℕ
min_difficulty_bits = 0x1D00FFFF

abbrev pub min_difficulty_gap : ℕ
min_difficulty_gap = 20 * 60

abbrev pub max_future_block_time : ℕ
max_future_block_time = 2 * 60 * 60

pub record Window : Type 0 where
  pub ntime : ℕ
  pub legal_at : ℤ

unfoldable pub seconds_until_open : Window → ℤ → ℤ
seconds_until_open self now = minus self.legal_at now

unfoldable pub is_open : Window → ℤ → Bool
is_open self now = at_most self.legal_at now

-- `as u32` keeps the low 32 bits.
unfoldable pub plan : ℕ → Window
plan parent_time =
    let ntime = parent_time + min_difficulty_gap + 1 in
    record { ntime = ntime % 2 ^ 32; legal_at = difference ntime max_future_block_time }
