-- ===== src/Stratum/ByteOrder.antt =====
-- crates/stratum/src/byte_order.rs: the order of bytes that Stratum has for the previous hash.
pub mod Involution
use mac_solo_miner.Base.{ℕ, zero, suc, ◌+◌, List, [], ◌∷◌, ◌++◌, length, reverse, chunks_exact}
use mac_solo_miner.BtcPrimitives.Hash.{Sha256dHash, as_internal_bytes, from_internal_bytes}

-- The loop over the words.
pub swap_each : List (List ℕ) → List ℕ
swap_each [] = []
swap_each (word ∷ rest) = reverse word ++ swap_each rest

-- The array is 32 bytes, so that `chunks_exact_mut` leaves none over.
pub swap_words : List ℕ → List ℕ
swap_words bytes = swap_each (chunks_exact 4 bytes)

pub hash_to_stratum : Sha256dHash → List ℕ
hash_to_stratum hash = swap_words (as_internal_bytes hash)

pub hash_from_stratum : List ℕ → Sha256dHash
hash_from_stratum bytes = from_internal_bytes (swap_words bytes)
