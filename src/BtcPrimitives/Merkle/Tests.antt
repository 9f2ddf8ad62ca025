-- ===== src/BtcPrimitives/Merkle/Tests.antt =====
-- Concrete runs of the merkle tree.
use mac_solo_miner.Base.{ℕ, ◌≡◌, refl, arith, [], ◌∷◌, ◌++◌, replicate, some}
use mac_solo_miner.BtcPrimitives.Hash.{Sha256dHash}
use mac_solo_miner.BtcPrimitives.Merkle.{merkle_root, coinbase_branch, root_from_coinbase_branch}
use mac_solo_miner.BtcPrimitives.Merkle.Levels.{merkle_root_collision}
use mac_solo_miner.BtcPrimitives.Merkle.Branch.{root_from_coinbase_branch-merkle_root}

abbrev leaf : ℕ → Sha256dHash
leaf b = replicate 32 b

root_from_coinbase_branch-merkle_root_example :
    merkle_root (leaf 9 ∷ leaf 1 ∷ leaf 2 ∷ [])
    ≡ some (root_from_coinbase_branch (leaf 9) (coinbase_branch (leaf 0 ∷ leaf 1 ∷ leaf 2 ∷ [])))
root_from_coinbase_branch-merkle_root_example =
    root_from_coinbase_branch-merkle_root (leaf 9) (leaf 0) (leaf 1 ∷ leaf 2 ∷ [])

merkle_root_collision_example :
    merkle_root ((leaf 0 ∷ leaf 1 ∷ []) ++ leaf 2 ∷ [])
    ≡ merkle_root ((leaf 0 ∷ leaf 1 ∷ []) ++ leaf 2 ∷ leaf 2 ∷ [])
merkle_root_collision_example =
    merkle_root_collision (leaf 0 ∷ leaf 1 ∷ []) (leaf 2) refl (omega arith)
