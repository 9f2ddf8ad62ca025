-- ===== src/BtcPrimitives/Hash/Tests.antt =====
-- Concrete runs of the order of hashes.
use Prim.Native.Nat.{compare}
use mac_solo_miner.Base.{
  ℕ, ◌<◌, ◌≡◌, refl, arith, replicate, IsArray, IsByte, All-replicate, from_le_bytes,
}
use mac_solo_miner.BtcPrimitives.Hash.{Sha256dHash, numeric_cmp}
use mac_solo_miner.BtcPrimitives.Hash.Order.{numeric_cmp-compare}

-- Every byte the same.
abbrev all_of : ℕ → Sha256dHash
all_of b = replicate 32 b

all_of-IsArray : (b : ℕ) → b < 256 → IsArray 32 (all_of b)
all_of-IsArray b h = (refl, All-replicate IsByte 32 b h)

numeric_cmp-compare_example :
    numeric_cmp (all_of 1) (all_of 2)
    ≡ compare (from_le_bytes (all_of 1)) (from_le_bytes (all_of 2))
numeric_cmp-compare_example =
    numeric_cmp-compare (all_of 1) (all_of 2) (all_of-IsArray 1 (omega arith))
      (all_of-IsArray 2 (omega arith))
