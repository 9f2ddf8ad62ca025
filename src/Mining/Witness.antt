-- ===== src/Mining/Witness.antt =====
-- crates/mining/src/witness.rs: the commitment to the witnesses of a block.
use mac_solo_miner.Base.{ℕ, List, [], ◌∷◌, ◌++◌, replicate, copy_from_slice, Option, some, none}
use mac_solo_miner.BtcPrimitives.Hash.{Sha256dHash, zero_hash, hash, as_internal_bytes}
use mac_solo_miner.BtcPrimitives.Merkle.{merkle_root}
use mac_solo_miner.Mining.Coinbase.{reserved_value}

abbrev pub commitment_header : List ℕ
commitment_header = 0xAA ∷ 0x21 ∷ 0xA9 ∷ 0xED ∷ []

abbrev pub coinbase_wtxid_placeholder : Sha256dHash
coinbase_wtxid_placeholder = zero_hash

-- The leaves are never empty: `none`, where the source panics, does not come up.
abbrev pub expect : Option Sha256dHash → Sha256dHash
expect none = zero_hash
expect (some h) = h

pub witness_merkle_root : List Sha256dHash → Sha256dHash
witness_merkle_root wtxids = expect (merkle_root (coinbase_wtxid_placeholder ∷ wtxids))

pub commitment : Sha256dHash → List ℕ → Sha256dHash
commitment witness_root reserved =
    let buffer0 : List ℕ = replicate 64 0 in
    let buffer1 = copy_from_slice 0 (as_internal_bytes witness_root) buffer0 in
    hash (copy_from_slice 32 reserved buffer1)

pub commitment_script : List Sha256dHash → List ℕ
unfolding commitment witness_merkle_root
commitment_script wtxids =
    let value = commitment (witness_merkle_root wtxids) reserved_value in
    ((0x6A ∷ [] ++ 0x24 ∷ []) ++ commitment_header) ++ as_internal_bytes value
