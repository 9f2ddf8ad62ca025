-- ===== src/BtcPrimitives/Merkle/Branch.antt =====
-- The branch rebuilds the root from any first leaf.
use mac_solo_miner.Base.{
  ℕ, zero, suc, ◌≤◌, ◌≡◌, refl, sym, ap, ap₂, ◌∙◌, arith, lt→ltb, List, [], ◌∷◌, ◌++◌, length,
  get_or, some,
}
use mac_solo_miner.BtcPrimitives.Hash.{Sha256dHash, zero_hash}
use mac_solo_miner.BtcPrimitives.Merkle.{
  combine, climb, merkle_root, branch_loop, coinbase_branch, root_from_coinbase_branch,
}
use mac_solo_miner.BtcPrimitives.Merkle.Levels.{
  pair_up, even_out-cons, next_level-even_out, length-pair_up, climb_more, climb_done,
}
use mathlib.Core.List.{foldl-append}

branch_loop_more :
    (fuel : ℕ) (branch : List Sha256dHash) (a b : Sha256dHash) (rest : List Sha256dHash)
    → branch_loop (suc fuel) branch (a ∷ b ∷ rest)
      ≡ branch_loop fuel (branch ++ b ∷ []) (combine a b ∷ pair_up rest)
unfolding branch_loop pair_up
branch_loop_more fuel branch a b rest = rw (lt→ltb 1 (length (a ∷ b ∷ rest)) (omega arith)) (
    ap₂ (λ x l. branch_loop fuel (branch ++ x ∷ []) l)
      (ap (λ l. get_or l 1 zero_hash) (even_out-cons a b rest))
      (next_level-even_out (a ∷ b ∷ rest)))

branch_loop_done :
    (fuel : ℕ) (branch : List Sha256dHash) (a : Sha256dHash)
    → branch_loop fuel branch (a ∷ []) ≡ branch
unfolding branch_loop
branch_loop_done zero branch a = refl
branch_loop_done (suc fuel) branch a = refl

-- What the branch holds so far leads from the first leaf to the first node of the level.
branch_loop-climb :
    (fuel : ℕ) (branch : List Sha256dHash) (leaf a : Sha256dHash) (ls : List Sha256dHash)
    → length (a ∷ ls) ≤ fuel
    → root_from_coinbase_branch leaf branch ≡ a
    → root_from_coinbase_branch leaf (branch_loop fuel branch (a ∷ ls))
      ≡ get_or (climb fuel (a ∷ ls)) 0 zero_hash
branch_loop-climb zero branch leaf a ls h e = absurd (omega arith)
branch_loop-climb (suc fuel) branch leaf a [] h e =
    ap (root_from_coinbase_branch leaf) (branch_loop_done (suc fuel) branch a)
    ∙ e
    ∙ ap (λ l. get_or l 0 zero_hash) (sym (climb_done (suc fuel) (a ∷ []) (omega arith)))
branch_loop-climb (suc fuel) branch leaf a (b ∷ rest) h e =
    ap (root_from_coinbase_branch leaf) (branch_loop_more fuel branch a b rest)
    ∙ branch_loop-climb fuel (branch ++ b ∷ []) leaf (combine a b) (pair_up rest)
        (omega (arith, length-pair_up rest)) step
    ∙ ap (λ l. get_or l 0 zero_hash) (sym above)
  where
    above : climb (suc fuel) (a ∷ b ∷ rest) ≡ climb fuel (combine a b ∷ pair_up rest)
    above = unfold pair_up in climb_more fuel (a ∷ b ∷ rest) (omega arith)

    step : root_from_coinbase_branch leaf (branch ++ b ∷ []) ≡ combine a b
    step =
        unfold root_from_coinbase_branch in
        (foldl-append combine leaf branch (b ∷ []) ∙ ap (λ x. combine x b) e)

-- The branch does not depend on the first leaf.
branch_loop_first :
    (fuel : ℕ) (branch : List Sha256dHash) (a b : Sha256dHash) (ls : List Sha256dHash)
    → branch_loop fuel branch (a ∷ ls) ≡ branch_loop fuel branch (b ∷ ls)
branch_loop_first zero branch a b ls = unfold branch_loop in refl
branch_loop_first (suc fuel) branch a b [] =
    branch_loop_done (suc fuel) branch a ∙ sym (branch_loop_done (suc fuel) branch b)
branch_loop_first (suc fuel) branch a b (c ∷ rest) =
    branch_loop_more fuel branch a c rest
    ∙ branch_loop_first fuel (branch ++ c ∷ []) (combine a c) (combine b c) (pair_up rest)
    ∙ sym (branch_loop_more fuel branch b c rest)

-- A branch computed with any placeholder for the coinbase rebuilds the merkle root of the list
-- that has the real coinbase in its place.
pub root_from_coinbase_branch-merkle_root :
    (coinbase placeholder : Sha256dHash) (txids : List Sha256dHash)
    → merkle_root (coinbase ∷ txids)
      ≡ some (root_from_coinbase_branch coinbase (coinbase_branch (placeholder ∷ txids)))
unfolding merkle_root coinbase_branch
root_from_coinbase_branch-merkle_root coinbase placeholder txids = ap some (
    sym (
      branch_loop-climb (length (coinbase ∷ txids)) [] coinbase coinbase txids (omega arith)
        (unfold root_from_coinbase_branch in refl))
    ∙ ap (root_from_coinbase_branch coinbase)
        (branch_loop_first (length (coinbase ∷ txids)) [] coinbase placeholder txids))
