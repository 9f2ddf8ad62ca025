-- ===== src/SoloPool/Validate/Answered.antt =====
-- What the pool makes of the node's answer to a block.
use mac_solo_miner.Base.{
  Bool, bytes_eq, ℕ, ◌≡◌, true, false, ◌||◌, Bool-cases, inl, inr, ◌==◌, arith, List, length,
  Option, none, some, Result, ok, err, map_err, ◌>>=◌,
}
use mac_solo_miner.BtcPrimitives.Hash.{Sha256dHash}
use mac_solo_miner.BtcPrimitives.Header.{BlockHeader}
use mac_solo_miner.BtcPrimitives.Header
use mac_solo_miner.BtcPrimitives.Hex
use mac_solo_miner.BtcPrimitives.Transaction.{Transaction}
use mac_solo_miner.Mining.Block.{BlockBuilder}
use mac_solo_miner.Mining.Block
use mac_solo_miner.SoloPool.JobBuilder.{ActiveJob}
use mac_solo_miner.SoloPool.Validate.{
  Verdict, block_accepted, block_stale, block_rejected, ValidationError, rpc, inconclusive,
  duplicate, on_answer, submit,
}

-- A reason that is no fault of the block.
abbrev pub is_late : List ℕ → Bool
is_late reason = bytes_eq reason inconclusive || bytes_eq reason duplicate

-- The answer of the node and what becomes of it: no reason accepts the block, at the height of the
-- job; a reason makes it stale or rejected; and an error is one of the call.
pub data Answered (active : ActiveJob) (hash : Sha256dHash)
    : Result (List ℕ) (Option (List ℕ)) → Result ValidationError Verdict → Type 0 where
  taken : Answered active hash (ok none) (ok (block_accepted hash active.height))
  stale :
      (reason : List ℕ)
      → is_late reason ≡ true
      → Answered active hash (ok (some reason)) (ok (block_stale reason hash))
  refused :
      (reason : List ℕ)
      → is_late reason ≡ false
      → Answered active hash (ok (some reason)) (ok (block_rejected reason hash))
  failed : (error : List ℕ) → Answered active hash (err error) (err (rpc error))

-- The block of a job with a coinbase.
abbrev pub block_of : ActiveJob → Transaction → BlockBuilder
block_of active transaction = record {
  coinbase = transaction;
  transactions = active.transactions;
  txids = active.txids;
}

on_answer-Answered :
    (active : ActiveJob) (hash : Sha256dHash) (answer : Result (List ℕ) (Option (List ℕ)))
    → Answered active hash answer
        (map_err rpc answer >>= (λ reason. ok (on_answer active hash reason)))
unfolding on_answer
on_answer-Answered active hash (err error) = failed error
on_answer-Answered active hash (ok none) = taken
on_answer-Answered active hash (ok (some reason)) = elim (Bool-cases (is_late reason)) [
  | inl late ↦ rw late (stale reason late)
  | inr other ↦ rw other (refused reason other)
]

-- The node is asked about the block of the job with the coinbase and the header.
pub submit-Answered :
    (submit_block : List ℕ → Result (List ℕ) (Option (List ℕ))) (active : ActiveJob)
    (transaction : Transaction) (header : BlockHeader)
    → length active.transactions ≡ length active.txids
    → Answered active
        (Header.hash header)
        (submit_block (Hex.encode (Block.serialize (block_of active transaction) header)))
        (submit submit_block active transaction header)
unfolding submit Block.new
submit-Answered submit_block active transaction header paired =
    let all_named : (length active.transactions == length active.txids) ≡ true =
      ground (arith, paired) in
    rw all_named (on_answer-Answered active (Header.hash header) _)
