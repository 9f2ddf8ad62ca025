-- ===== src/MacMiner/Submission.antt =====
-- A share whose header meets the target makes the pool rebuild its block and ask the node about it.
use mac_solo_miner.Base.{
  ℕ, ◌%◌, ◌^◌, ◌<◌, ◌≡◌, ok, sym, subst, refl, ap, ◌∙◌, arith, true, List, ◌++◌, length,
  length-append, length-to_be_bytes, Option, Result,
}
use mac_solo_miner.BtcPrimitives.Hash.{Sha256dHash}
use mac_solo_miner.BtcPrimitives.Header.{BlockHeader, IsHeader}
use mac_solo_miner.BtcPrimitives.Header
use mac_solo_miner.BtcPrimitives.Merkle.Arrays.{hash-IsArray, root_from_coinbase_branch-IsArray}
use mac_solo_miner.BtcPrimitives.Target.{is_met_by}
use mac_solo_miner.BtcPrimitives.Transaction.{Transaction}
use mac_solo_miner.BtcPrimitives.Hex
use mac_solo_miner.Mining.Block
use mac_solo_miner.Stratum.Job.{Job}
use mac_solo_miner.Stratum.Job
use mac_solo_miner.Stratum.Job.RoundTrip.{IsJob}
use mac_solo_miner.Stratum.Share.{Share}
use mac_solo_miner.SoloPool.JobBuilder.{ActiveJob, coinbase, extranonce_size, extranonce2_size}
use mac_solo_miner.SoloPool.JobBuilder.Splice.{IsBuilt}
use mac_solo_miner.SoloPool.Session.{extranonce1_of}
use mac_solo_miner.SoloPool.Validate.{check, judge, submit}
use mac_solo_miner.SoloPool.Validate.Answered.{Answered, block_of, submit-Answered}
use mac_solo_miner.SoloPool.Validate.Honest.{mined, check-mined}
use mac_solo_miner.MacMiner.Work.{Work}
use mac_solo_miner.MacMiner.Worker.{header_of, share_of, encode_extranonce2}
use mac_solo_miner.MacMiner.Worker.Extranonce.{encode_extranonce2-to_be_bytes}

-- The work that `install` makes of a job.
abbrev pub work_of : ActiveJob → List ℕ → Work
work_of active extranonce1 = record {
  job = active.job;
  extranonce1 = extranonce1;
  extranonce2_size = extranonce2_size;
  target = active.network_target;
}

pub header_of-IsHeader :
    (work : Work) (extranonce2 : List ℕ) → IsJob work.job → IsHeader (header_of work extranonce2)
unfolding header_of Job.header Job.merkle_root
header_of-IsHeader work extranonce2 fits = record {
  version_fits = fits.version_fits;
  prev_fits = fits.prev_fits;
  root_fits = root_from_coinbase_branch-IsArray _ work.job.merkle_branch (hash-IsArray _);
  time_fits = fits.time_fits;
  bits_fit = fits.bits_fit;
  nonce_fits = omega arith;
}

-- The pool rebuilds the coinbase of a share, and the node is asked about the block with it.
unfoldable pub Submits :
    (List ℕ → Result (List ℕ) (Option (List ℕ))) → ActiveJob → List ℕ → Share → Type 0
Submits submit_block active extranonce1 share =
    (transaction : Transaction) × (coinbase active (extranonce1 ++ share.extranonce2)
      ≡ ok transaction)
    × Answered active (Header.hash (mined active share extranonce1))
        (submit_block (
          Hex.encode
            (Block.serialize (block_of active transaction) (mined active share extranonce1))))
        (check submit_block active share extranonce1)

judge-met :
    (submit_block : List ℕ → Result (List ℕ) (Option (List ℕ))) (active : ActiveJob)
    (transaction : Transaction) (header : BlockHeader)
    → is_met_by active.network_target (Header.hash header) ≡ true
    → judge submit_block active transaction header ≡ submit submit_block active transaction header
unfolding judge
judge-met submit_block active transaction header met = rw met refl

pub extranonce_length :
    (connection_id counter : ℕ)
    → counter < 2 ^ 64
    → length (extranonce1_of connection_id ++ encode_extranonce2 counter extranonce2_size)
      ≡ extranonce_size
unfolding extranonce1_of
extranonce_length connection_id counter small = omega (
  arith,
  length-append (extranonce1_of connection_id) (encode_extranonce2 counter extranonce2_size),
  length-to_be_bytes 4 (connection_id % 2 ^ 32),
  ap length (encode_extranonce2-to_be_bytes counter extranonce2_size small),
  length-to_be_bytes extranonce2_size counter,
)

pub solved-Submits :
    (submit_block : List ℕ → Result (List ℕ) (Option (List ℕ))) (active : ActiveJob)
    (worker extranonce1 extranonce2 : List ℕ) (n : ℕ) (hash : Sha256dHash)
    → IsBuilt active
    → active.height < 2 ^ 32
    → length active.transactions ≡ length active.txids
    → length (extranonce1 ++ extranonce2) ≡ extranonce_size
    → is_met_by active.network_target
        (Header.hash (record (header_of (work_of active extranonce1) extranonce2) { nonce = n }))
      ≡ true
    → Submits submit_block active extranonce1 (
        share_of worker
          (work_of active extranonce1)
          extranonce2
          (record { nonce = n; hash = hash }))
unfolding Submits header_of share_of Job.header
solved-Submits submit_block active worker extranonce1 extranonce2 n hash built h paired size met =
    let share : Share =
      share_of worker (work_of active extranonce1) extranonce2
        (record { nonce = n; hash = hash }) in
    let (transaction, rebuilt, judged) =
      check-mined submit_block active share extranonce1 built h size in
    (
      transaction,
      rebuilt,
      subst
          (Answered active (Header.hash (mined active share extranonce1)) (
            submit_block (
              Hex.encode
                (Block.serialize (block_of active transaction) (mined active share extranonce1)))))
          (sym (
            judged
            ∙ judge-met submit_block active transaction (mined active share extranonce1) met))
          (submit-Answered submit_block active transaction (mined active share extranonce1) paired),
    )
