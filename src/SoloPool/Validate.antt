-- ===== src/SoloPool/Validate.antt =====
-- crates/solo-pool/src/validate.rs: the check of a share. The node's answer to a submitted block is
-- a function of the block's hex, and the wait before a submission is a number of seconds.
pub mod Honest
pub mod Answered
use mac_solo_miner.Base.{
  bytes_eq, ℕ, ◌+◌, ◌-◌, ◌*◌, Bool, not, ◌||◌, if◌then◌else◌, ltb, List, [], ◌∷◌, ◌++◌, Option,
  none, some, Result, ok, err, ◌>>=◌, map_err, min,
}
use mac_solo_miner.BtcPrimitives.Hash.{Sha256dHash, leading_zero_bits}
use mac_solo_miner.BtcPrimitives.Header.{BlockHeader}
use mac_solo_miner.BtcPrimitives.Header
use mac_solo_miner.BtcPrimitives.Hex
use mac_solo_miner.BtcPrimitives.Merkle
use mac_solo_miner.BtcPrimitives.Target.{is_met_by}
use mac_solo_miner.BtcPrimitives.Transaction.{Transaction, serialize_legacy, txid}
use mac_solo_miner.Mining.Block.{BlockBuilder, BlockError}
use mac_solo_miner.Mining.Block
use mac_solo_miner.Mining.Witness.{expect}
use mac_solo_miner.Stratum.Job
use mac_solo_miner.Stratum.Share.{Share}
use mac_solo_miner.SoloPool.JobBuilder.{ActiveJob, BuildError, coinbase}

pub data Verdict : Type 0 where
  block_accepted : Sha256dHash → ℕ → Verdict
  block_stale : List ℕ → Sha256dHash → Verdict
  block_rejected : List ℕ → Sha256dHash → Verdict
  share : Sha256dHash → ℕ → Verdict

-- The causes of `Rebuild`, whose text the source keeps, and the text of `Rpc`.
pub data ValidationError : Type 0 where
  rebuild : BuildError → ValidationError
  rebuild_block : BlockError → ValidationError
  coinbase_mismatch : ValidationError
  rpc : List ℕ → ValidationError

abbrev pub max_submission_hold : ℕ
max_submission_hold = 30 * 60

-- How long a solved block is held.
pub hold : Option ℕ → ℕ → ℕ
hold none now = 0
hold (some not_before) now = min (not_before - now) max_submission_hold

-- "inconclusive" and "duplicate"
abbrev pub inconclusive : List ℕ
inconclusive = 105 ∷ 110 ∷ 99 ∷ 111 ∷ 110 ∷ 99 ∷ 108 ∷ 117 ∷ 115 ∷ 105 ∷ 118 ∷ 101 ∷ []

abbrev pub duplicate : List ℕ
duplicate = 100 ∷ 117 ∷ 112 ∷ 108 ∷ 105 ∷ 99 ∷ 97 ∷ 116 ∷ 101 ∷ []

pub on_answer : ActiveJob → Sha256dHash → Option (List ℕ) → Verdict
on_answer active hash none = block_accepted hash active.height
on_answer active hash (some reason) =
    if bytes_eq reason inconclusive || bytes_eq reason duplicate
    then block_stale reason hash
    else block_rejected reason hash

abbrev pub header_of : ActiveJob → Share → Transaction → BlockHeader
header_of active submitted transaction = record {
  version = active.job.version;
  prev_block = active.job.prev_hash;
  merkle_root = expect (Merkle.merkle_root (txid transaction ∷ active.txids));
  time = submitted.time;
  bits = active.job.bits;
  nonce = submitted.nonce;
}

module _ (submit_block : List ℕ → Result (List ℕ) (Option (List ℕ))) where
  pub submit : ActiveJob → Transaction → BlockHeader → Result ValidationError Verdict
  submit active transaction header = do
    block ← map_err rebuild_block (Block.new transaction active.transactions active.txids)
    answer ← map_err rpc (submit_block (Hex.encode (Block.serialize block header)))
    ok (on_answer active (Header.hash header) answer)

  -- From the header on.
  unfoldable pub judge : ActiveJob → Transaction → BlockHeader → Result ValidationError Verdict
  judge active transaction header =
      let hash = Header.hash header in
      let submitted = submit active transaction header in
      if not (is_met_by active.network_target hash)
      then ok (share hash (leading_zero_bits hash))
      else submitted

  pub check : ActiveJob → Share → List ℕ → Result ValidationError Verdict
  check active submitted extranonce1 = do
    transaction ← map_err rebuild (coinbase active (([] ++ extranonce1) ++ submitted.extranonce2))
    let spliced = Job.coinbase active.job extranonce1 submitted.extranonce2 in
        (let rest = judge active transaction (header_of active submitted transaction) in
          if not (bytes_eq spliced (serialize_legacy transaction))
          then err coinbase_mismatch
          else rest)
