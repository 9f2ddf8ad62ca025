-- ===== src/Mining/Search/Tests.antt =====
-- A concrete search, over one nonce.
use mac_solo_miner.Base.{
  ℕ, ◌+◌, ◌<◌, ◌⊎◌, ◌≤◌, ◌≡◌, refl, arith, inl, inr, Bool-cases, replicate, List, IsByte,
  All-replicate, from_le_bytes,
}
use mac_solo_miner.Sha256d.Midstate
use mac_solo_miner.BtcPrimitives.Header
use mac_solo_miner.BtcPrimitives.Header.Tests.{sample, sample-IsHeader}
use mac_solo_miner.BtcPrimitives.Target.{is_met_by}
use mac_solo_miner.Mining.Search.{search, try_from}
use mac_solo_miner.Mining.Search.Best.{search-best}
use mac_solo_miner.Mining.Search.Least.{Outcome, search-Outcome}

abbrev target : List ℕ
target = replicate 32 0x55

search-Outcome_example :
    Outcome
      (λ k. Header.hash (record sample { nonce = k }))
      target
      10
      3
      (search sample target 10 12)
search-Outcome_example =
    search-Outcome sample target 10 12 sample-IsHeader (omega arith) (omega arith)

one_hash : (search sample target 10 10).hashes ≡ 1
unfolding search try_from
one_hash =
    elim (Bool-cases
      (is_met_by target (Midstate.hash (Midstate.new (Header.serialize sample)) 10))) [
        | inl met ↦ rw met refl
        | inr missed ↦ rw missed refl
      ]

search-best_example :
    (from_le_bytes (search sample target 10 10).best
      ≤ from_le_bytes (Header.hash (record sample { nonce = 10 })))
    × (((search sample target 10 10).best ≡ replicate 32 0xFF)
        ⊎ ((10 ≤ (search sample target 10 10).best_nonce)
            × ((search sample target 10 10).best_nonce < 10 + (search sample target 10 10).hashes)
            × ((search sample target 10 10).best
                ≡ Header.hash (record sample { nonce = (search sample target 10 10).best_nonce }))))
search-best_example =
    search-best sample target 10 10 10 sample-IsHeader
      (refl, All-replicate IsByte 32 0x55 (omega arith)) (omega arith) (omega arith) (omega arith)
      (omega arith) (omega (arith, one_hash))
