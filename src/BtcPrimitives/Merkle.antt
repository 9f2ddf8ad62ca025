-- ===== src/BtcPrimitives/Merkle.antt =====
-- crates/btc-primitives/src/merkle.rs: the merkle root of a list of ids, and the branch of its
-- first leaf.
pub mod Levels
pub mod Arrays
pub mod Branch
mod Tests
use mac_solo_miner.Base.{
  ℕ, zero, suc, ◌%◌, Bool, if◌then◌else◌, ltb, ◌==◌, List, [], ◌∷◌, ◌++◌, map, length, get_or,
  replicate, copy_from_slice, chunks_exact, Option, none, some,
}
use mac_solo_miner.BtcPrimitives.Hash.{Sha256dHash, zero_hash, hash, as_internal_bytes}
use mathlib.Core.List.{foldl}

-- `sha256d(left || right)`, through a buffer of 64 bytes.
pub combine : Sha256dHash → Sha256dHash → Sha256dHash
combine left right = hash (
    copy_from_slice 32 (as_internal_bytes right)
      (copy_from_slice 0 (as_internal_bytes left) (replicate 64 0)))

-- `level.last()`
abbrev pub last_or : List Sha256dHash → Sha256dHash → Sha256dHash
last_or [] d = d
last_or (x ∷ xs) d = last_or xs x

-- An odd level duplicates its last node.
pub even_out : List Sha256dHash → List Sha256dHash
even_out level = if length level % 2 == 1 then level ++ last_or level zero_hash ∷ [] else level

pub combine_pair : List Sha256dHash → Sha256dHash
combine_pair pair = combine (get_or pair 0 zero_hash) (get_or pair 1 zero_hash)

pub next_level : List Sha256dHash → List Sha256dHash
next_level level = map combine_pair (chunks_exact 2 level)

-- `while level.len() > 1`, on fuel.
pub climb : ℕ → List Sha256dHash → List Sha256dHash
climb zero level = level
climb (suc fuel) level =
    let rest = climb fuel (next_level (even_out level)) in
    if ltb 1 (length level) then rest else level

-- Each round halves the level, so a round for each leaf is enough fuel.
pub merkle_root : List Sha256dHash → Option Sha256dHash
merkle_root [] = none
merkle_root (x ∷ xs) = some (get_or (climb (length (x ∷ xs)) (x ∷ xs)) 0 zero_hash)

-- The same loop, which keeps the sibling of the first node of each level.
pub branch_loop : ℕ → List Sha256dHash → List Sha256dHash → List Sha256dHash
branch_loop zero branch level = branch
branch_loop (suc fuel) branch level =
    let evened = even_out level in
    let rest = branch_loop fuel (branch ++ get_or evened 1 zero_hash ∷ []) (next_level evened) in
    if ltb 1 (length level) then rest else branch

pub coinbase_branch : List Sha256dHash → List Sha256dHash
coinbase_branch leaves = branch_loop (length leaves) [] leaves

pub root_from_coinbase_branch : Sha256dHash → List Sha256dHash → Sha256dHash
root_from_coinbase_branch coinbase branch = foldl combine coinbase branch
