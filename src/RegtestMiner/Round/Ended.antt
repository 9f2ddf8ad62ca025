-- ===== src/RegtestMiner/Round/Ended.antt =====
-- How a round ends.
use mac_solo_miner.Base.{
  ℕ, suc, ◌-◌, ◌^◌, ◌<◌, ◌≡◌, refl, arith, none, some, err, Bool, true, false, List, Option, Result,
  ok, ◌>>=◌, map_err,
}
use mac_solo_miner.BtcPrimitives.Hash.{Sha256dHash, leading_zero_bits}
use mac_solo_miner.BtcPrimitives.Header.{BlockHeader, IsHeader}
use mac_solo_miner.BtcPrimitives.Header
use mac_solo_miner.BtcPrimitives.Hex
use mac_solo_miner.BtcPrimitives.Target.{is_met_by}
use mac_solo_miner.Mining.Block
use mac_solo_miner.Mining.Search.{SearchResult, search}
use mac_solo_miner.Mining.Search.Least.{found, search-Outcome}
use mac_solo_miner.Mining.Search.Least
use mac_solo_miner.RegtestMiner.Round.{
  Outcome, RoundError, rpc, accepted, rejected, Prepared, on_answer, on_result, attempt,
}
use mac_solo_miner.RegtestMiner.Round

-- The header with a nonce, and its hash.
abbrev pub with_nonce : Prepared → ℕ → BlockHeader
with_nonce given nonce = record given.header { nonce = nonce }

abbrev pub is_solved : Prepared → ℕ → Bool
is_solved given nonce = is_met_by given.target (Header.hash (with_nonce given nonce))

module _ (submit_block : List ℕ → Result (List ℕ) (Option (List ℕ))) where
  -- The first nonce that solves the block, with the answer of the node to the block that has it.
  pub record IsSolved (given : Prepared) (n : ℕ) (answer : Result (List ℕ) (Option (List ℕ)))
      : Type 0 where
    pub in_range : n < 2 ^ 32
    pub solves : is_solved given n ≡ true
    pub is_first : (k : ℕ) → k < n → is_solved given k ≡ false
    pub answered :
        submit_block (Hex.encode (Block.serialize given.builder (with_nonce given n))) ≡ answer

  -- No nonce of 32 bits solves the block, and `best` is all there is to tell; or the node takes the
  -- block with the first nonce that does, refuses it with a reason, or cannot be asked.
  pub data IsEnd (height : ℕ) (given : Prepared) (best : Sha256dHash)
      : Result RoundError Outcome → Type 0 where
    unsolved :
        ((k : ℕ) → k < 2 ^ 32 → is_solved given k ≡ false)
        → IsEnd height given best (ok (Round.exhausted best (leading_zero_bits best)))
    taken :
        (n : ℕ)
        → IsSolved given n (ok none)
        → IsEnd height given best
            (ok (Round.accepted (Header.hash (with_nonce given n)) height n (suc n)))
    refused :
        (n : ℕ) (reason : List ℕ)
        → IsSolved given n (ok (some reason))
        → IsEnd height given best (ok (Round.rejected reason))
    failed :
        (n : ℕ) (error : List ℕ)
        → IsSolved given n (err error)
        → IsEnd height given best (err (Round.rpc error))

  answer-IsEnd :
      (height : ℕ) (given : Prepared) (best : Sha256dHash) (n : ℕ)
      (answer : Result (List ℕ) (Option (List ℕ)))
      → IsSolved given n answer
      → IsEnd height given best (
          map_err rpc answer >>= (λ reason. ok (
            on_answer height
              (record { nonce = n; hash = Header.hash (with_nonce given n) })
              (suc n)
              reason)))
  answer-IsEnd height given best n (err error) solved = failed n error solved
  answer-IsEnd height given best n (ok none) solved = taken n solved
  answer-IsEnd height given best n (ok (some reason)) solved = refused n reason solved

  on_result-IsEnd :
      (height : ℕ) (given : Prepared) (result : SearchResult)
      → Least.Outcome (λ k. Header.hash (with_nonce given k)) given.target 0 (2 ^ 32) result
      → IsEnd height given result.best (on_result submit_block height given result result.solution)
  unfolding on_result
  on_result-IsEnd height given result (Least.exhausted none_there counted all) =
      rw none_there (unsolved (λ k l. all k (omega arith) (omega arith)))
  on_result-IsEnd height given result (found n low high there met counted all) =
      let hashed : result.hashes ≡ suc n = omega (arith, counted) in
      rw (there, hashed)
        (answer-IsEnd height given result.best n _ (record {
          in_range = omega arith;
          solves = met;
          is_first = λ k l. all k (omega arith) l;
          answered = refl;
        }))

  -- A round on a prepared block whose header has fields of their sizes ends in one of four ways. No
  -- nonce of 32 bits solves the block, and the best hash of the search is told with its zero bits.
  -- Or the node is asked about the block with the first nonce that solves it: no reason is the
  -- block's hash with the height, the nonce and the number of hashes, a reason is a rejection with
  -- it, and an error is the error.
  pub attempt-IsEnd :
      (height : ℕ) (given : Prepared)
      → IsHeader given.header
      → IsEnd height given
          (search given.header given.target 0 (2 ^ 32 - 1)).best
          (attempt submit_block height given)
  unfolding attempt
  attempt-IsEnd height given valid =
      on_result-IsEnd height given (search given.header given.target 0 (2 ^ 32 - 1))
        (search-Outcome given.header given.target 0 (2 ^ 32 - 1) valid (omega arith) (omega arith))
