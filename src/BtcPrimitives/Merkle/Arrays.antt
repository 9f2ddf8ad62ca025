-- ===== src/BtcPrimitives/Merkle/Arrays.antt =====
-- The root that a miner folds is a hash of 32 bytes.
use mac_solo_miner.Base.{ℕ, ◌≡◌, refl, List, [], ◌∷◌, IsArray}
use mac_solo_miner.Sha256d.{sha256d}
use mac_solo_miner.Sha256d.Reference
use mac_solo_miner.Sha256d.Reference.Blocks.{sha256-IsArray}
use mac_solo_miner.BtcPrimitives.Hash.{Sha256dHash, hash}
use mac_solo_miner.BtcPrimitives.Merkle.{
  combine, branch_loop, coinbase_branch, root_from_coinbase_branch,
}

pub hash-IsArray : (bytes : List ℕ) → IsArray 32 (hash bytes)
unfolding hash sha256d Reference.sha256d
hash-IsArray bytes = sha256-IsArray (Reference.sha256 bytes)

pub root_from_coinbase_branch-IsArray :
    (coinbase : Sha256dHash) (branch : List Sha256dHash)
    → IsArray 32 coinbase
    → IsArray 32 (root_from_coinbase_branch coinbase branch)
unfolding root_from_coinbase_branch combine
root_from_coinbase_branch-IsArray coinbase [] h = h
root_from_coinbase_branch-IsArray coinbase (branch_hash ∷ branch) h =
    root_from_coinbase_branch-IsArray (combine coinbase branch_hash) branch (hash-IsArray _)

-- A coinbase that is alone has no branch.
pub coinbase_branch_alone : (leaf : Sha256dHash) → coinbase_branch (leaf ∷ []) ≡ []
unfolding coinbase_branch branch_loop
coinbase_branch_alone leaf = refl
