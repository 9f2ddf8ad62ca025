-- ===== src/MacMiner/Accepted.antt =====
-- From the pool's job to its check: the miner installs the job, mines, and submits.
use mac_solo_miner.Base.{
  ℕ, ◌+◌, ◌^◌, ◌<◌, ◌≡◌, refl, ap, arith, Bool, true, false, List, ◌++◌, length, Option, none, some,
  Result, ok,
}
use mac_solo_miner.BtcPrimitives.Header.{BlockHeader, IsHeader}
use mac_solo_miner.BtcPrimitives.Header
use mac_solo_miner.BtcPrimitives.Target.{is_met_by, from_compact}
use mac_solo_miner.BtcPrimitives.Transaction.{Transaction}
use mac_solo_miner.BtcPrimitives.Hex
use mac_solo_miner.Mining.Block
use mac_solo_miner.Stratum.Job.{Job}
use mac_solo_miner.Stratum.Job
use mac_solo_miner.Stratum.Job.RoundTrip.{IsJob}
use mac_solo_miner.Stratum.Share.{Share}
use mac_solo_miner.SoloPool.JobBuilder.{ActiveJob, coinbase, extranonce_size, extranonce2_size}
use mac_solo_miner.SoloPool.JobBuilder.Splice.{IsBuilt}
use mac_solo_miner.SoloPool.Session.{extranonce1_of}
use mac_solo_miner.SoloPool.Validate.{check}
use mac_solo_miner.SoloPool.Validate.Answered.{Answered, block_of}
use mac_solo_miner.SoloPool.Validate.Honest.{mined}
use mac_solo_miner.MacMiner.Work.{Work, WorkState, set_work, store_work, bump}
use mac_solo_miner.MacMiner.Install.{install, install_target}
use mac_solo_miner.MacMiner.Worker.{
  Sweep, sweep, rounds, header_of, share_of, share_from, mine_round, encode_extranonce2,
}
use mac_solo_miner.MacMiner.Worker.Sweeps.{Swept, sweep-Swept}
use mac_solo_miner.MacMiner.Submission.{
  work_of, header_of-IsHeader, extranonce_length, Submits, solved-Submits,
}

-- How a round of the miner ends, for the pool that has built the job: no nonce meets the target; a
-- check has stopped the round; or there is a share, whose header meets the target: the coinbase is
-- rebuilt for its extranonces, the node is asked about the block of that coinbase and that header
-- with the transactions of the job, and the check gives what the node's answer means.
pub data RoundEnd (submit_block : List ℕ → Result (List ℕ) (Option (List ℕ))) (active : ActiveJob)
    (extranonce1 extranonce2 : List ℕ) (current : ℕ → Bool) (sent : Option Share) : Type 0 where
  nothing_found :
      sent ≡ none
      → ((k : ℕ)
          → k < 2 ^ 32
          → is_met_by active.network_target
              (Header.hash (Job.header active.job extranonce1 extranonce2 active.job.time k))
            ≡ false)
      → RoundEnd submit_block active extranonce1 extranonce2 current sent
  stopped_early :
      (check_number : ℕ)
      → current check_number ≡ false
      → sent ≡ none
      → RoundEnd submit_block active extranonce1 extranonce2 current sent
  block_submitted :
      (share : Share)
      → sent ≡ some share
      → share.extranonce2 ≡ extranonce2
      → is_met_by active.network_target (Header.hash (mined active share extranonce1)) ≡ true
      → (transaction : Transaction) → coinbase active (extranonce1 ++ extranonce2) ≡ ok transaction
      → Answered active
          (Header.hash (mined active share extranonce1))
          (submit_block (
            Hex.encode
              (Block.serialize (block_of active transaction) (mined active share extranonce1))))
          (check submit_block active share extranonce1)
      → RoundEnd submit_block active extranonce1 extranonce2 current sent

Swept-RoundEnd :
    (submit_block : List ℕ → Result (List ℕ) (Option (List ℕ))) (active : ActiveJob)
    (worker extranonce1 extranonce2 : List ℕ) (current : ℕ → Bool) (s : Sweep)
    → IsBuilt active
    → active.height < 2 ^ 32
    → length active.transactions ≡ length active.txids
    → length (extranonce1 ++ extranonce2) ≡ extranonce_size
    → Swept
        (λ k.
          Header.hash (record (header_of (work_of active extranonce1) extranonce2) { nonce = k }))
        active.network_target
        current
        0
        0
        s
    → RoundEnd submit_block active extranonce1 extranonce2 current
        (share_from (share_of worker (work_of active extranonce1) extranonce2) s.ended)
unfolding share_from header_of Job.header Submits share_of
Swept-RoundEnd submit_block active worker extranonce1 extranonce2 current s built h paired size
      (Swept.exhausted e t all) =
    nothing_found (ap (share_from (share_of worker (work_of active extranonce1) extranonce2)) e)
      (λ k high. all k (omega arith) high)
Swept-RoundEnd submit_block active worker extranonce1 extranonce2 current s built h paired size
      (Swept.solved n low high e met t all) =
    let (transaction, rebuilt, asked) =
      solved-Submits submit_block active worker extranonce1 extranonce2 n
        (Header.hash (record (header_of (work_of active extranonce1) extranonce2) { nonce = n }))
        built h paired size met in
    block_submitted
      (share_of worker (work_of active extranonce1) extranonce2 (record {
        nonce = n;
        hash =
            Header.hash (record (header_of (work_of active extranonce1) extranonce2) { nonce = n });
      }))
      (ap (share_from (share_of worker (work_of active extranonce1) extranonce2)) e) refl met
      transaction rebuilt asked
Swept-RoundEnd submit_block active worker extranonce1 extranonce2 current s built h paired size
      (Swept.stopped j answer e t all) =
    stopped_early (0 + j) answer
      (ap (share_from (share_of worker (work_of active extranonce1) extranonce2)) e)

round-RoundEnd :
    (submit_block : List ℕ → Result (List ℕ) (Option (List ℕ))) (active : ActiveJob)
    (worker : List ℕ) (current : ℕ → Bool) (connection_id counter : ℕ)
    → IsBuilt active
    → active.height < 2 ^ 32
    → length active.transactions ≡ length active.txids
    → IsJob active.job
    → counter < 2 ^ 64
    → RoundEnd submit_block active
        (extranonce1_of connection_id)
        (encode_extranonce2 counter extranonce2_size)
        current
        (mine_round current worker (work_of active (extranonce1_of connection_id)) counter).share
unfolding mine_round
round-RoundEnd submit_block active worker current connection_id counter built h paired fits small =
    let extranonce1 : List ℕ = extranonce1_of connection_id in
    let work : Work = work_of active extranonce1 in
    let extranonce2 : List ℕ = encode_extranonce2 counter extranonce2_size in
    Swept-RoundEnd submit_block active worker extranonce1 extranonce2 current
      (sweep current (header_of work extranonce2) work.target rounds 0 0) built h paired
      (extranonce_length connection_id counter small)
      (sweep-Swept (header_of work extranonce2) work.target current
        (header_of-IsHeader work extranonce2 fits))

abbrev pub current_of : WorkState → Option Work
current_of state = state.current

installed-work :
    (active : ActiveJob) (extranonce1 : List ℕ) (state : WorkState)
    → from_compact active.job.bits ≡ ok active.network_target
    → current_of (install active.job extranonce1 extranonce2_size state)
      ≡ some (work_of active extranonce1)
unfolding install set_work store_work bump
installed-work active extranonce1 state target =
    ap (λ r. (install_target r active.job extranonce1 extranonce2_size state).current) target

-- The miner installs a job that the pool has built, with an id for each transaction, on a connection
-- of the pool, and a thread mines a round of it, whatever the checks of the round answer. Then there
-- is a share unless a check has stopped the round or no nonce at all meets the target. The header of
-- the share meets the target; the pool rebuilds the coinbase for the extranonces of the connection
-- and of the round; and its check of the share gives what the node answers to the block of that
-- coinbase, the transactions of the job and the header that was mined: accepted, stale, rejected, or
-- an error of the call.
pub mine_round-RoundEnd :
    (submit_block : List ℕ → Result (List ℕ) (Option (List ℕ))) (active : ActiveJob)
    (state : WorkState) (worker : List ℕ) (current : ℕ → Bool) (connection_id counter : ℕ)
    → IsBuilt active
    → active.height < 2 ^ 32
    → length active.transactions ≡ length active.txids
    → IsJob active.job
    → from_compact active.job.bits ≡ ok active.network_target
    → counter < 2 ^ 64
    → (work : Work) × (current_of
          (install active.job (extranonce1_of connection_id) extranonce2_size state)
        ≡ some work)
      × RoundEnd submit_block active
          (extranonce1_of connection_id)
          (encode_extranonce2 counter extranonce2_size)
          current
          (mine_round current worker work counter).share
mine_round-RoundEnd submit_block active state worker current connection_id counter built h paired
      fits target small =
    (
      work_of active (extranonce1_of connection_id),
      installed-work active (extranonce1_of connection_id) state target,
      round-RoundEnd submit_block active worker current connection_id counter built h paired fits
          small,
    )
