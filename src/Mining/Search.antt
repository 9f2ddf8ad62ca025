-- ===== src/Mining/Search.antt =====
-- crates/mining/src/search.rs: the search for a nonce. The range of nonces is given by its start
-- and how many there are; the counter of hashes is a u64 and the range at most 2^32 long, so it
-- never wraps.
pub mod Least
pub mod Attained
pub mod Best
mod Tests
use mac_solo_miner.Base.{
  ℕ, zero, suc, ◌+◌, ◌-◌, Bool, if◌then◌else◌, List, replicate, Option, none, some,
}
use mac_solo_miner.Sha256d.Midstate.{HeaderHasher}
use mac_solo_miner.Sha256d.Midstate
use mac_solo_miner.BtcPrimitives.Hash.{Sha256dHash, from_internal_bytes, is_below}
use mac_solo_miner.BtcPrimitives.Header.{BlockHeader}
use mac_solo_miner.BtcPrimitives.Header
use mac_solo_miner.BtcPrimitives.Target.{Target, is_met_by}

pub record Solution : Type 0 where
  pub nonce : ℕ
  pub hash : Sha256dHash

pub record SearchResult : Type 0 where
  pub solution : Option Solution
  pub hashes : ℕ
  pub best : Sha256dHash
  pub best_nonce : ℕ

-- The rounds of the loop that are left, the nonce of the next, and the loop's variables.
pub try_from : HeaderHasher → Target → ℕ → ℕ → ℕ → Sha256dHash → ℕ → SearchResult
try_from hasher target zero nonce hashes best best_nonce = record {
  solution = none;
  hashes = hashes;
  best = best;
  best_nonce = best_nonce;
}
try_from hasher target (suc left) nonce hashes best best_nonce =
    let hash = from_internal_bytes (Midstate.hash hasher nonce) in
    let closer = is_below hash best in
    let rest =
      try_from hasher target left (suc nonce) (hashes + 1) (if closer then hash else best)
        (if closer then nonce else best_nonce) in
    if is_met_by target hash
    then record {
      solution = some (record { nonce = nonce; hash = hash });
      hashes = hashes + 1;
      best = hash;
      best_nonce = nonce;
    }
    else rest

-- `search(header, target, first..=last)`
pub search : BlockHeader → Target → ℕ → ℕ → SearchResult
search header target first last =
    try_from (Midstate.new (Header.serialize header)) target (suc last - first) first 0
      (from_internal_bytes (replicate 32 0xFF)) 0
