-- ===== src/SoloPool/Tests.antt =====
-- A share of a concrete job, and what the pool remembers of two jobs.
use mac_solo_miner.Base.{
  ◌+◌, ◌<◌, ◌≤◌, ◌↔◌, ◌⊎◌, true, false, bytes_eq, err, pos, leb, at_most, ℕ, ◌≡◌, refl, arith, List,
  [], ◌∷◌, ◌++◌, take, reverse, Option, none, Result, ok,
}
use mac_solo_miner.BtcPrimitives.Transaction.{Transaction}
use mac_solo_miner.SoloPool.JobBuilder.{ActiveJob, coinbase, with_halves}
use mac_solo_miner.SoloPool.JobBuilder.Splice.{IsBuilt}
use mac_solo_miner.SoloPool.JobBuilder.Tests.{base, base_halves}
use mac_solo_miner.SoloPool.State.{job_history}
use mac_solo_miner.SoloPool.State
use mac_solo_miner.SoloPool.State.History.{set_each, set_each-history}
use mac_solo_miner.Stratum.Share.{Share}
use mac_solo_miner.SoloPool.Validate.{check, judge}
use mac_solo_miner.SoloPool.Validate.Honest.{mined, check-mined}
use mac_solo_miner.BitcoindRpc.Network.{mainnet, main_name, as_str, BlockchainInfo}
use mac_solo_miner.SoloPool.MinDifficulty.{
  plan, is_open, seconds_until_open, min_difficulty_gap, max_future_block_time,
}
use mac_solo_miner.SoloPool.MinDifficulty.Earliest.{plan-least}
use mac_solo_miner.SoloPool.Poller.{
  Answers, Polled, start_poller, on_template, check_health, poll_round,
}
use mac_solo_miner.SoloPool.Poller.Tracked.{Reached, started, polled, HasJob, Reached-HasJob}
use mac_solo_miner.SoloPool.Readiness.{check_node, is_regtest}
use mac_solo_miner.SoloPool.Readiness.Fit.{IsFresh, check_node-ok}

abbrev pub active : ActiveJob
active = with_halves base base_halves.0

pub active-IsBuilt : IsBuilt active
unfolding IsBuilt
active-IsBuilt = (base, base_halves.0, base_halves.1, refl, refl)

abbrev submitted : Share
submitted = record {
  worker = [];
  job_id = 49 ∷ [];
  extranonce2 = 5 ∷ 6 ∷ 7 ∷ 8 ∷ [];
  time = 1700000001;
  nonce = 42;
}

-- A node that accepts every block.
abbrev pub accept : List ℕ → Result (List ℕ) (Option (List ℕ))
accept hex = ok none

check-mined_example :
    (transaction : Transaction) × (coinbase active (1 ∷ 2 ∷ 3 ∷ 4 ∷ 5 ∷ 6 ∷ 7 ∷ 8 ∷ [])
      ≡ ok transaction)
    × (check accept active submitted (1 ∷ 2 ∷ 3 ∷ 4 ∷ [])
        ≡ judge accept active transaction (mined active submitted (1 ∷ 2 ∷ 3 ∷ 4 ∷ [])))
check-mined_example =
    check-mined accept active submitted (1 ∷ 2 ∷ 3 ∷ 4 ∷ []) active-IsBuilt (omega arith) refl

set_each-history_example :
    (set_each (base ∷ active ∷ []) State.new).jobs
    ≡ take job_history (reverse (base ∷ active ∷ []) ++ [])
set_each-history_example = set_each-history (base ∷ active ∷ [])

-- A node that is in step, half an hour behind its tip.
abbrev info : BlockchainInfo
info = record {
  chain = main_name;
  blocks = 900000;
  headers = 900000;
  best_block_hash = [];
  initial_block_download = false;
  pruned = false;
  time = 1700000000;
}

check_node-ok_example : (check_node mainnet info 8 (pos 1700001800) ≡ ok tt) ↔ (
    (bytes_eq info.chain (as_str mainnet) ≡ true)
    × (info.initial_block_download ≡ false)
    × (info.headers ≤ info.blocks)
    × ((is_regtest mainnet ≡ true) ⊎ IsFresh info 8 1700001800))
check_node-ok_example = check_node-ok mainnet info 8 1700001800 (omega arith)

plan-least_example :
    (1787448082 + min_difficulty_gap < (plan 1787448082).ntime)
    × ((plan 1787448082).ntime ≤ 1787449283)
    × (is_open (plan 1787448082) (pos 1787440940)
        ≡ leb (plan 1787448082).ntime (1787440940 + max_future_block_time))
    × (is_open (plan 1787448082) (pos 1787440940)
        ≡ at_most (seconds_until_open (plan 1787448082) (pos 1787440940)) (pos 0))
plan-least_example = plan-least 1787448082 1787449283 1787440940 (omega arith) (omega arith)

-- A second behind the start, the node has no template.
abbrev answers : Answers
answers = record {
  template = err [];
  parent_time = err [];
  node = err [];
  now = 1000;
  unix_now = pos 1700000000;
  is_sent = λ sender. true;
}

abbrev after_round : Polled
after_round = (poll_round mainnet [] answers (start_poller 0) State.new).1

after_round-Reached : Reached mainnet [] after_round.poller after_round.pool
unfolding poll_round on_template check_health start_poller
after_round-Reached = polled (start_poller 0) State.new answers (started 0 State.new) refl

Reached-HasJob_example : HasJob after_round.poller.last_tip after_round.pool.jobs
Reached-HasJob_example = Reached-HasJob after_round-Reached
