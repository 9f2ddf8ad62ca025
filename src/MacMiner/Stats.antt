-- ===== src/MacMiner/Stats.antt =====
-- crates/mac-miner/src/stats.rs: the counters of the miner. Each call of `record` is a step of its
-- own; the rate, a floating-point number, is not modelled.
pub mod Records
use mac_solo_miner.Base.{ℕ, ◌+◌, ◌%◌, ◌^◌, if◌then◌else◌, leb, replicate}
use mac_solo_miner.BtcPrimitives.Hash.{
  Sha256dHash, from_internal_bytes, is_below, leading_zero_bits,
}

pub record Stats : Type 0 where
  pub hashes : ℕ
  pub best_zero_bits : ℕ
  pub best_hash : Sha256dHash

unfoldable pub new : Stats
new = record { hashes = 0; best_zero_bits = 0; best_hash = from_internal_bytes (replicate 32 0xFF) }

-- With the lock on the best hash.
unfoldable pub replace_best : Sha256dHash → ℕ → Stats → Stats
replace_best best_of zero_bits self =
    if is_below best_of self.best_hash
    then record self { best_zero_bits = zero_bits; best_hash = best_of }
    else self

-- `fetch_add` wraps around.
unfoldable pub add_hashes : ℕ → Stats → Stats
add_hashes count self = record self { hashes = (self.hashes + count) % 2 ^ 64 }

unfoldable pub record_batch : ℕ → Sha256dHash → Stats → Stats
record_batch count best_of self =
    let added = add_hashes count self in
    let zero_bits = leading_zero_bits best_of in
    let replaced = replace_best best_of zero_bits added in
    if leb zero_bits added.best_zero_bits then added else replaced

unfoldable pub total_hashes : Stats → ℕ
total_hashes self = self.hashes

unfoldable pub best : Stats → Sha256dHash × ℕ
best self = (self.best_hash, leading_zero_bits self.best_hash)
