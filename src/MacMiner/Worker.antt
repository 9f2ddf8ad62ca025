-- ===== src/MacMiner/Worker.antt =====
-- crates/mac-miner/src/worker.rs: a thread of the miner. Other threads change the shared state
-- while it runs, so that each check for new work has an answer from outside, a function of the
-- number of the check.
pub mod Extranonce
pub mod Sweeps
use mac_solo_miner.Base.{
  ℕ, zero, suc, ◌+◌, ◌-◌, ◌*◌, ◌^◌, Bool, if◌then◌else◌, ltb, ◌==◌, List, [], ◌∷◌, Option, none,
  some, length, drop, take, replicate, to_be_bytes, copy_from_slice, min,
}
use mac_solo_miner.BtcPrimitives.Hash.{Sha256dHash}
use mac_solo_miner.BtcPrimitives.Header.{BlockHeader}
use mac_solo_miner.BtcPrimitives.Target.{Target}
use mac_solo_miner.Mining.Search.{Solution, search}
use mac_solo_miner.Stratum.Job
use mac_solo_miner.Stratum.Share.{Share}
use mac_solo_miner.MacMiner.Work.{Work}

abbrev pub batch : ℕ
batch = 2 ^ 20

abbrev pub max_u32 : ℕ
max_u32 = 2 ^ 32 - 1

-- `u32::saturating_add`
unfoldable pub saturating_add : ℕ → ℕ → ℕ
saturating_add a b = if ltb max_u32 (a + b) then max_u32 else a + b

unfoldable pub batch_end : ℕ → ℕ
batch_end start = saturating_add start (batch - 1)

-- The end of the array of zeros is written over.
unfoldable pub encode_extranonce2 : ℕ → ℕ → List ℕ
encode_extranonce2 counter size =
    let bytes = to_be_bytes 8 counter in
    let copy = min size (length bytes) in
    copy_from_slice (size - copy) (drop (length bytes - copy) bytes) (replicate size 0)

-- A call of `Stats::record`.
pub record Report : Type 0 where
  pub hashes : ℕ
  pub best : Sha256dHash

-- How the loop over the batches ends: a check says that the work is not current, a batch has a
-- solution, or the nonces are through.
pub data Ended : Type 0 where
  superseded : Ended
  candidate : Solution → Ended
  space_exhausted : Ended
  out_of_fuel : Ended

pub record Sweep : Type 0 where
  pub ended : Ended
  pub reports : List Report

unfoldable pub after_batch : Report → Option Solution → Bool → Sweep → Sweep
after_batch report (some solution) last rest = record {
  ended = candidate solution;
  reports = report ∷ [];
}
after_batch report none last rest =
    if last
    then record { ended = space_exhausted; reports = report ∷ [] }
    else record { ended = rest.ended; reports = report ∷ rest.reports }

-- The loop over the batches, on fuel: `is_current` answers the checks, of which the next one is
-- numbered `check`.
unfoldable pub sweep : (ℕ → Bool) → BlockHeader → Target → ℕ → ℕ → ℕ → Sweep
sweep is_current header target zero check start = record { ended = out_of_fuel; reports = [] }
sweep is_current header target (suc fuel) check start =
    let end = batch_end start in
    let result = search header target start end in
    let rest = sweep is_current header target fuel (suc check) (end + 1) in
    let searched =
      after_batch (record { hashes = result.hashes; best = result.best }) result.solution
        (end == max_u32) rest in
    if is_current check then searched else record { ended = superseded; reports = [] }

-- There are 2^32 nonces in batches of 2^20.
abbrev pub rounds : ℕ
rounds = 2 ^ 12

-- The header of a sweep: the job's, with the extranonce that the thread has claimed.
unfoldable pub header_of : Work → List ℕ → BlockHeader
header_of work extranonce2 = Job.header work.job work.extranonce1 extranonce2 work.job.time 0

-- The share that `submit` sends.
unfoldable pub share_of : List ℕ → Work → List ℕ → Solution → Share
share_of worker work extranonce2 solution = record {
  worker = worker;
  job_id = work.job.job_id;
  extranonce2 = extranonce2;
  time = work.job.time;
  nonce = solution.nonce;
}

pub record Round : Type 0 where
  pub swept : Sweep
  pub share : Option Share

unfoldable pub share_from : (Solution → Share) → Ended → Option Share
share_from share (candidate solution) = some (share solution)
share_from share superseded = none
share_from share space_exhausted = none
share_from share out_of_fuel = none

-- A turn of the loop in `mine` from the claim of an extranonce on, where the counter stood at
-- `counter`.
unfoldable pub mine_round : (ℕ → Bool) → List ℕ → Work → ℕ → Round
mine_round is_current worker work counter =
    let extranonce2 = encode_extranonce2 counter work.extranonce2_size in
    let swept = sweep is_current (header_of work extranonce2) work.target rounds 0 0 in
    record { swept = swept; share = share_from (share_of worker work extranonce2) swept.ended }
